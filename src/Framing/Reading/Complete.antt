-- ===== src/Framing/Reading/Complete.antt =====
-- Over a source that gives its bytes, the reader of src/framing/reading.rs returns.
use monetdb_rust.Prelude.{
  ℕ, zero, suc, ◌+◌, ◌-◌, ◌≤◌, ◌<◌, ◌≡◌, ◌≢◌, refl, ap, ◌∙◌, inl, inr, Bool, true, false, [], ◌∷◌,
  ◌++◌, ltb, leb, ◌==◌, if◌then◌else◌, Bool-cases, arith, Bytes, length, length-append, length-take,
  length-drop, take, drop, min, Outcome, ok, err, panic, IsOk, IsOk-bind, Returns-ok,
  take-append-drop,
}
use monetdb_rust.Framing.Header
use monetdb_rust.Framing.Header.{FramingError, blocksize}
use monetdb_rust.Framing.BlockState
use monetdb_rust.Framing.BlockState.{
  BlockState, start, partial_header, body, end, Range, skip_headers, IsValid,
}
use monetdb_rust.Framing.BlockState.Automaton.{run, run-append, and_then}
use monetdb_rust.Framing.BlockState.Prefix.{
  Finishes, Finishes-advance, Finishes-fine, Finishes-needs, needs,
}
use monetdb_rust.Framing.BlockState.Refines.{Interprets, skip_headers-Interprets, run_body}
use monetdb_rust.Framing.IoError.{IoError, lift}
use monetdb_rust.Framing.Source.{Source}
use monetdb_rust.Framing.Reading.{
  MapiReader, plain_eof, read_header, read_some, read_body, read_ahead, interpret_body, read_loop,
  do_read,
}
use monetdb_rust.Framing.Reading.Body.{skip_headers-body}
use monetdb_rust.Framing.Reading.Sound.{
  Advances, Delivers, do_read-Delivers, Skips, read_header-Skips, start-two, partial_one,
}

-- A source that gives what it has: a read returns a byte if there is one, and an exact read all of its
-- bytes if there are enough.
pub record Reliable (src : Source) : Type 0 where
  pub reads :
      (r : src.R) (n : ℕ)
      → 0 < n
      → 0 < length (src.pending r)
      → (buf : Bytes) × (r' : src.R) × (src.read r n ≡ ok (buf, r')) × (0 < length buf)
  pub reads_exact : (r : src.R) (n : ℕ) → n ≤ length (src.pending r) → IsOk (src.read_exact r n)

-- Bytes that begin the rest of a message are interpreted.
lift-IsOk :
    (st : BlockState) (buf more : Bytes) {bytes payload rest : Bytes}
    → IsValid st
    → (f : Finishes st bytes payload rest) → bytes ≡ buf ++ more
    → length buf ≤ length f.message
    → IsOk (lift (skip_headers st buf))
lift-IsOk st buf more v f e l = go (skip_headers st buf) (skip_headers-Interprets st buf v)
  where
    go : (m : Outcome FramingError (Range × BlockState)) → Interprets 0 st buf m → IsOk (lift m)
    go (ok r) h = (r, refl)
    go (err x) h = absurd (Finishes-fine buf more f e l h)
    go panic h = absurd h

read_ahead-IsOk :
    (tail : Bytes)
    → length tail ≤ 2
    → 0 < length tail
    → ((x : FramingError) → run start tail ≢ err x)
    → IsOk (read_ahead start tail)
unfolding read_ahead skip_headers run Header.size
read_ahead-IsOk [] k h fine = absurd (omega arith)
read_ahead-IsOk (lo ∷ []) k h fine = (_, refl)
read_ahead-IsOk (lo ∷ hi ∷ []) k h fine =
    let header : Header.Header = record { lo = lo; hi = hi } in
    elim (Bool-cases (leb (Header.size header) blocksize)) [
      | inl fits ↦ rw fits (_, refl)
      | inr large ↦ absurd (rw large at (fine Header.invalid_block_size) refl)
    ]
read_ahead-IsOk (a ∷ b ∷ c ∷ cs) k h fine = absurd (omega arith)

-- An error behind a body is an error of the whole.
behind_body :
    (remaining : ℕ) (buf : Bytes) (x : FramingError)
    → IsValid (body remaining false)
    → remaining < length buf
    → run start (drop remaining buf) ≡ err x
    → run (body remaining false) buf ≡ err x
unfolding BlockState.new
behind_body remaining buf x (low, high) more e =
    let size : length (take remaining buf) ≡ remaining = omega (arith, length-take remaining buf) in
    let none : remaining - length (take remaining buf) ≡ 0 = omega (arith, size) in
    let inside =
      rw none at (run_body remaining false (take remaining buf) low (omega (arith, size))) in
    let joined = run-append (take remaining buf) (drop remaining buf) (body remaining false) in
    let failed : and_then (run (body remaining false) (take remaining buf)) (drop remaining buf)
        ≡ err x =
      rw inside (rw e refl) in
    rw take-append-drop at (joined ∙ failed)

interpret_body-IsOk :
    {R : Type 0} (inner : R) (remaining : ℕ) (last : Bool) (c : ℕ) (cs : Bytes)
    → IsValid (body remaining last)
    → length (c ∷ cs) ≤ (if last then remaining else remaining + 2)
    → ((x : FramingError) → run (body remaining last) (c ∷ cs) ≢ err x)
    → IsOk (interpret_body inner (body remaining last) (c ∷ cs))
unfolding interpret_body BlockState.new
interpret_body-IsOk inner remaining true c cs (low, high) fits fine =
    let inside : ltb (min remaining (length (c ∷ cs))) (length (c ∷ cs)) ≡ false = ground arith in
    rw (skip_headers-body remaining true c cs low) (rw inside (_, refl))
interpret_body-IsOk inner remaining false c cs (low, high) fits fine =
    rw (skip_headers-body remaining false c cs low)
      (elim (Bool-cases (ltb (min remaining (length (c ∷ cs))) (length (c ∷ cs)))) [
        | inl behind ↦
            let body_end : min remaining (suc (length cs)) ≡ remaining = ground arith in
            let none : remaining - remaining ≡ 0 = omega arith in
            let size = length-drop remaining (c ∷ cs) in
            let (st, ahead) =
              read_ahead-IsOk (drop remaining (c ∷ cs)) (omega (arith, size, fits))
                (ground (arith, size))
                (λ x e. fine x (behind_body remaining (c ∷ cs) x (low, high) (ground arith) e)) in
            rw behind (rw (body_end, none) (rw ahead (_, refl)))
        | inr all ↦ rw all (_, refl)
      ])

plain_eof-IsOk : {A : Type 0} (m : Outcome IoError A) → IsOk m → IsOk (plain_eof m)
unfolding plain_eof
plain_eof-IsOk m (a, e) = (a, rw e refl)

module _ (src : Source) (reliable : Reliable src) where
  open src use {R, read, read_exact, pending, read_takes, read_exact_takes}

  -- The source of a reader begins with the rest of its message.
  abbrev pub Has : MapiReader R → Bytes → Bytes → Type 0
  Has me payload rest = Finishes me.state (pending me.inner) payload rest

  pending-needs :
      (me : MapiReader R) {payload rest : Bytes}
      → Has me payload rest
      → needs me.state ≤ length (pending me.inner)
  pending-needs me {payload} {rest} f =
      omega (arith, Finishes-needs f, ap length f.splits, length-append f.message rest)

  read_header-IsOk :
      (me : MapiReader R) (n : ℕ) {payload rest : Bytes}
      → IsValid me.state
      → n ≡ needs me.state
      → Has me payload rest
      → IsOk (read_header src me n)
  unfolding read_header plain_eof
  read_header-IsOk me n v k f =
      let (a, e) = reliable.reads_exact me.inner n (omega (arith, k, pending-needs me f)) in
      let taken = read_exact_takes me.inner n a.0 a.1 e in
      let (b, read_it) =
        lift-IsOk me.state a.0 (pending a.1) v f taken.0
          (omega (arith, k, taken.1, Finishes-needs f)) in
      rw e (rw read_it (_, refl))

  read_body-IsOk :
      (inner : R) (remaining : ℕ) (last : Bool) (n : ℕ) {payload rest : Bytes}
      → IsValid (body remaining last)
      → 0 < n
      → Has (record { inner = inner; state = body remaining last }) payload rest
      → IsOk
          (read_body src (record { inner = inner; state = body remaining last }) remaining last n)
  unfolding read_body read_some
  read_body-IsOk inner remaining last n v h f =
      let some : ltb 0 remaining ≡ true = ground (arith, v.0) in
      let ideal : ℕ = if last then remaining else remaining + 2 in
      let here : MapiReader R = record { inner = inner; state = body remaining last } in
      let all : ideal ≡ needs (body remaining last) = ideal-needs last in
      let more = pending-needs here f in
      let (buf, inner', e, size) =
        reliable.reads inner (min ideal n) (omega (arith, all, v.0, ideal-low last))
          (omega (arith, more, v.0, ideal-low last)) in
      let nonempty : (length buf == 0) ≡ false = ground arith in
      let taken = read_takes inner (min ideal n) buf inner' e in
      let (r, done) = interpreted buf inner' size (omega (arith, taken.1)) (λ x e.
        Finishes-fine buf (pending inner') f taken.0 (omega (arith, all, taken.1, Finishes-needs f))
          e) in
      rw (some, e) (rw nonempty (_, done))
    where
      ideal-needs : (b : Bool) → (if b then remaining else remaining + 2) ≡ needs (body remaining b)
      ideal-needs true = refl
      ideal-needs false = refl

      ideal-low : (b : Bool) → remaining ≤ (if b then remaining else remaining + 2)
      ideal-low true = omega arith
      ideal-low false = omega arith

      interpreted :
          (buf : Bytes) (inner' : R)
          → 0 < length buf
          → length buf ≤ (if last then remaining else remaining + 2)
          → ((x : FramingError) → run (body remaining last) buf ≢ err x)
          → IsOk (interpret_body inner' (body remaining last) buf)
      interpreted [] inner' h l fine = absurd (omega arith)
      interpreted (c ∷ cs) inner' h l fine = interpret_body-IsOk inner' remaining last c cs v l fine

  -- What a call consumed leaves the rest of the message.
  pub Has-advance :
      (me me' : MapiReader R) {out payload rest : Bytes}
      → Has me payload rest
      → Advances src me out me'
      → (later : Bytes) × Has me' later rest × (payload ≡ out ++ later)
  Has-advance me me' f a = Finishes-advance a.consumed (pending me'.inner) f a.splits a.decodes

  read_loop-IsOk :
      (fuel : ℕ) (inner : R) (st : BlockState) (n : ℕ) {payload rest : Bytes}
      → IsValid st
      → length (pending inner) < fuel
      → 0 < n
      → Has (record { inner = inner; state = st }) payload rest
      → IsOk (read_loop src fuel (record { inner = inner; state = st }) n)
  unfolding read_loop
  read_loop-IsOk zero inner st n v f h has = absurd (omega arith)
  read_loop-IsOk (suc fuel) inner end n v f h has = (_, refl)
  read_loop-IsOk (suc fuel) inner (body remaining last) n v f h has =
      read_body-IsOk inner remaining last n v h has
  read_loop-IsOk (suc fuel) inner start n v f h has =
      IsOk-bind _ _ (read_header-IsOk (record { inner = inner; state = start }) 2 v refl has)
        (λ me' e.
          let skips =
            Returns-ok (Skips src (record { inner = inner; state = start }) 2) _ me'
              (read_header-Skips src (record { inner = inner; state = start }) 2 start-two) e in
          let (later, has', whole) = Has-advance _ me' has skips.0 in
          read_loop-IsOk fuel me'.inner me'.state n skips.0.valid (omega (arith, skips.1)) h has')
  read_loop-IsOk (suc fuel) inner (partial_header lo) n v f h has =
      IsOk-bind _ _
        (read_header-IsOk (record { inner = inner; state = partial_header lo }) 1 v refl has)
        (λ me' e.
          let skips =
            Returns-ok (Skips src (record { inner = inner; state = partial_header lo }) 1) _ me'
              (read_header-Skips src (record { inner = inner; state = partial_header lo }) 1
                (partial_one lo))
              e in
          let (later, has', whole) = Has-advance _ me' has skips.0 in
          read_loop-IsOk fuel me'.inner me'.state n skips.0.valid (omega (arith, skips.1)) h has')

  -- A call of `do_read` on a buffer with room: what it delivers, and what is left.
  abbrev pub Continues : MapiReader R → ℕ → Bytes → Bytes → Bytes × MapiReader R → Type 0
  Continues me n payload rest r =
      (later : Bytes) × Delivers src me n r × Has r.1 later rest × (payload ≡ r.0 ++ later)

  pub do_read-Continues :
      (fuel : ℕ) (me : MapiReader R) (n : ℕ) {payload rest : Bytes}
      → IsValid me.state
      → length (pending me.inner) < fuel
      → 0 < n
      → Has me payload rest
      → (r : Bytes × MapiReader R) × (do_read src fuel me n ≡ ok r) × Continues me n payload rest r
  unfolding do_read
  do_read-Continues fuel me n v f h has =
      let nonzero : (n == 0) ≡ false = ground arith in
      let (r, e) = read_loop-IsOk fuel me.inner me.state n v f h has in
      let returned : do_read src fuel me n ≡ ok r = rw nonzero e in
      let d = Returns-ok (Delivers src me n) _ r (do_read-Delivers src fuel me n v f h) returned in
      let (later, has', whole) = Has-advance me r.1 has d.advances in
      (r, returned, (later, d, has', whole))
