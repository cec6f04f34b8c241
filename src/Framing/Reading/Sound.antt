-- ===== src/Framing/Reading/Sound.antt =====
-- `do_read` returns payload, for every way in which the source splits its bytes into reads.
use monetdb_rust.Prelude.{
  ℕ, zero, suc, ◌+◌, ◌≤◌, ◌<◌, ◌≡◌, refl, sym, ap, ◌∙◌, ◌⊎◌, inl, inr, Bool, true, false, [], ◌∷◌,
  ◌++◌, ltb, leb, ◌==◌, if◌then◌else◌, Bool-cases, arith, append_assoc, Bytes, length,
  length-append, min, Outcome, ok, err, panic, ◌>>=◌, Returns, Returns-bind, Returns-elim,
  Returns-mono,
}
use monetdb_rust.Framing.Header
use monetdb_rust.Framing.Header.{blocksize}
use monetdb_rust.Framing.BlockState.{
  BlockState, start, partial_header, body, end, Range, skip_headers, IsValid,
}
use monetdb_rust.Framing.BlockState.Automaton.{run, run_join}
use monetdb_rust.Framing.BlockState.Refines.{from_header-IsValid}
use monetdb_rust.Framing.IoError.{IoError, lift}
use monetdb_rust.Framing.Source.{Source}
use monetdb_rust.Framing.Reading.{
  MapiReader, plain_eof, read_header, read_some, read_body, interpret_body, read_loop, do_read,
}
use monetdb_rust.Framing.Reading.Body.{Interpreted, interpret_body-Interpreted}

plain_eof-Returns :
    {A : Type 0} (P : A → Type 0) (m : Outcome IoError A) → Returns P m → Returns P (plain_eof m)
unfolding plain_eof
plain_eof-Returns P (ok a) h = h
plain_eof-Returns P (err e) h = ground arith
plain_eof-Returns P panic h = h

-- The bytes of `buf` are header bytes: they hold no payload.
abbrev pub HeaderBytes : BlockState → Bytes → Range × BlockState → Type 0
HeaderBytes st buf answer = (run st buf ≡ ok ([], answer.1)) × IsValid answer.1

start-HeaderBytes :
    (lo hi : ℕ)
    → Returns (HeaderBytes start (lo ∷ hi ∷ [])) (lift (skip_headers start (lo ∷ hi ∷ [])))
unfolding skip_headers run Header.size
start-HeaderBytes lo hi =
    let header : Header.Header = record { lo = lo; hi = hi } in
    elim (Bool-cases (leb (Header.size header) blocksize)) [
      | inl fits ↦ rw fits (rw fits, from_header-IsValid header (ground arith))
      | inr large ↦ rw large tt
    ]

partial-HeaderBytes :
    (lo hi : ℕ)
    → Returns
        (HeaderBytes (partial_header lo) (hi ∷ []))
        (lift (skip_headers (partial_header lo) (hi ∷ [])))
unfolding skip_headers run Header.size
partial-HeaderBytes lo hi =
    let header : Header.Header = record { lo = lo; hi = hi } in
    elim (Bool-cases (leb (Header.size header) blocksize)) [
      | inl fits ↦ rw fits (rw fits, from_header-IsValid header (ground arith))
      | inr large ↦ rw large tt
    ]

pub start-two :
    (buf : Bytes) → length buf ≡ 2 → Returns (HeaderBytes start buf) (lift (skip_headers start buf))
start-two (lo ∷ hi ∷ []) h = start-HeaderBytes lo hi
start-two [] h = absurd (omega arith)
start-two (a ∷ []) h = absurd (omega arith)
start-two (a ∷ b ∷ c ∷ cs) h = absurd (omega arith)

pub partial_one :
    (lo : ℕ) (buf : Bytes)
    → length buf ≡ 1
    → Returns (HeaderBytes (partial_header lo) buf) (lift (skip_headers (partial_header lo) buf))
partial_one lo (hi ∷ []) h = partial-HeaderBytes lo hi
partial_one lo [] h = absurd (omega arith)
partial_one lo (a ∷ b ∷ cs) h = absurd (omega arith)

module _ (src : Source) where
  open src use {
    R, read, read_exact, pending, read_takes, read_exact_takes, read_returns, read_exact_returns,
  }

  -- Bytes that the reader has taken from the source, and the payload in them.
  pub record Advances (me : MapiReader R) (out : Bytes) (me' : MapiReader R) : Type 0 where
    pub consumed : Bytes
    pub splits : pending me.inner ≡ consumed ++ pending me'.inner
    pub decodes : run me.state consumed ≡ ok (out, me'.state)
    pub valid : IsValid me'.state

  pub Advances-trans :
      {me me' me'' : MapiReader R} {p q : Bytes}
      → Advances me p me'
      → Advances me' q me''
      → Advances me (p ++ q) me''
  Advances-trans {me} a b = record {
    consumed = a.consumed ++ b.consumed;
    splits =
        a.splits
        ∙ ap (λ (z : Bytes). a.consumed ++ z) b.splits
        ∙ sym (append_assoc a.consumed b.consumed _);
    decodes = run_join a.consumed b.consumed me.state a.decodes b.decodes;
    valid = b.valid;
  }

  -- A header read takes bytes, and no payload.
  abbrev pub Skips : MapiReader R → ℕ → MapiReader R → Type 0
  Skips me n me' = Advances me [] me' × (length (pending me'.inner) + n ≡ length (pending me.inner))

  pub read_header-Skips :
      (me : MapiReader R) (n : ℕ)
      → ((buf : Bytes)
          → length buf ≡ n
          → Returns (HeaderBytes me.state buf) (lift (skip_headers me.state buf)))
      → Returns (Skips me n) (read_header src me n)
  unfolding read_header
  read_header-Skips me n h =
      let P = λ (a : Bytes × R). (pending me.inner ≡ a.0 ++ pending a.1) × (length a.0 ≡ n) in
      let done : R → Range × BlockState → Outcome IoError (MapiReader R) =
        λ r b. ok (record { inner = r; state = b.1 }) in
      let rest = λ (a : Bytes × R). (lift (skip_headers me.state a.0) >>= done a.1) in
      Returns-bind P (Skips me n) (plain_eof (read_exact me.inner n)) rest
        (plain_eof-Returns P (read_exact me.inner n) (
          Returns-elim P (read_exact me.inner n) (read_exact_returns me.inner n)
            (λ a e. read_exact_takes me.inner n a.0 a.1 e)))
        (λ a taken.
          Returns-bind (HeaderBytes me.state a.0) (Skips me n) _ (done a.1) (h a.0 taken.1)
            (λ b bytes. (
              record { consumed = a.0; splits = taken.0; decodes = bytes.0; valid = bytes.1 },
              omega (arith, ap length taken.0, length-append a.0 (pending a.1), taken.1),
            )))

  -- One call delivers payload that fits the caller's buffer, or finds the end of the message.
  pub record Delivers (me : MapiReader R) (n : ℕ) (r : Bytes × MapiReader R) : Type 0 where
    pub advances : Advances me r.0 r.1
    pub bounded : length r.0 ≤ n
    pub progress : (0 < length r.0) ⊎ (r.1.state ≡ end)

  abbrev TakesSome : R → ℕ → Bytes × R → Type 0
  TakesSome inner n a = (pending inner ≡ a.0 ++ pending a.1) × (length a.0 ≤ n) × (0 < length a.0)

  read_some-TakesSome : (inner : R) (n : ℕ) → Returns (TakesSome inner n) (read_some src inner n)
  unfolding read_some
  read_some-TakesSome inner n =
      Returns-bind (λ (a : Bytes × R). (pending inner ≡ a.0 ++ pending a.1) × (length a.0 ≤ n))
        (TakesSome inner n) _ _
        (Returns-elim _ _ (read_returns inner n) (λ a e. read_takes inner n a.0 a.1 e))
        (λ a taken. elim (Bool-cases (length a.0 == 0)) [
          | inl none ↦ rw none tt
          | inr more ↦ rw more (taken.0, taken.1, ground arith)
        ])

  interpret_body-Delivers :
      (inner inner' : R) (remaining : ℕ) (last : Bool) (n k : ℕ) (buf : Bytes)
      → IsValid (body remaining last)
      → k ≤ n
      → k ≤ (if last then remaining else remaining + 2)
      → TakesSome inner k (buf, inner')
      → Returns
          (Delivers (record { inner = inner; state = body remaining last }) n)
          (interpret_body inner' (body remaining last) buf)
  interpret_body-Delivers inner inner' remaining last n k [] v low high taken =
      absurd (omega (arith, taken.2))
  interpret_body-Delivers inner inner' remaining last n k (c ∷ cs) v low high taken =
      Returns-mono (Interpreted remaining last (c ∷ cs) inner') (Delivers _ n) _
        (interpret_body-Interpreted inner' remaining last c cs v (omega (arith, taken.1)))
        (λ r read_it. record {
          advances = record {
            consumed = c ∷ cs;
            splits = rw read_it.1 taken.0;
            decodes = read_it.0.decodes;
            valid = read_it.0.valid;
          };
          bounded = omega (arith, read_it.0.bounded, taken.1);
          progress = inl read_it.0.some_out;
        })

  read_body-Delivers :
      (inner : R) (remaining : ℕ) (last : Bool) (n : ℕ)
      → IsValid (body remaining last)
      → 0 < n
      → Returns
          (Delivers (record { inner = inner; state = body remaining last }) n)
          (read_body src (record { inner = inner; state = body remaining last }) remaining last n)
  unfolding read_body
  read_body-Delivers inner remaining last n v h =
      let some : ltb 0 remaining ≡ true = ground (arith, v.0) in
      let ideal : ℕ = if last then remaining else remaining + 2 in
      rw some (
        Returns-bind (TakesSome inner (min ideal n)) (Delivers _ n) _ _
          (read_some-TakesSome inner (min ideal n))
          (λ a taken.
            interpret_body-Delivers inner a.1 remaining last n (min ideal n) a.0 v (omega arith)
              (omega arith) taken))

  -- A header that was read, and what was delivered behind it.
  Delivers-behind :
      {me me' : MapiReader R} (k : ℕ) {n : ℕ} {r : Bytes × MapiReader R}
      → Skips me k me'
      → Delivers me' n r
      → Delivers me n r
  Delivers-behind k s d = record {
    advances = Advances-trans s.0 d.advances;
    bounded = d.bounded;
    progress = d.progress;
  }

  read_loop-Delivers :
      (fuel : ℕ) (inner : R) (st : BlockState) (n : ℕ)
      → IsValid st
      → length (pending inner) < fuel
      → 0 < n
      → Returns
          (Delivers (record { inner = inner; state = st }) n)
          (read_loop src fuel (record { inner = inner; state = st }) n)
  unfolding read_loop
  read_loop-Delivers zero inner st n v f h = absurd (omega arith)
  read_loop-Delivers (suc fuel) inner (body remaining last) n v f h =
      read_body-Delivers inner remaining last n v h
  read_loop-Delivers (suc fuel) inner start n v f h =
      Returns-bind (Skips (record { inner = inner; state = start }) 2) (Delivers _ n) _ _
        (read_header-Skips (record { inner = inner; state = start }) 2 start-two)
        (λ me' s.
          Returns-mono (Delivers me' n) (Delivers _ n) _
            (read_loop-Delivers fuel me'.inner me'.state n s.0.valid (omega (arith, s.1)) h)
            (λ r d. Delivers-behind 2 s d))
  read_loop-Delivers (suc fuel) inner (partial_header lo) n v f h =
      Returns-bind (Skips (record { inner = inner; state = partial_header lo }) 1) (Delivers _ n) _
        _
        (read_header-Skips (record { inner = inner; state = partial_header lo }) 1 (partial_one lo))
        (λ me' s.
          Returns-mono (Delivers me' n) (Delivers _ n) _
            (read_loop-Delivers fuel me'.inner me'.state n s.0.valid (omega (arith, s.1)) h)
            (λ r d. Delivers-behind 1 s d))
  read_loop-Delivers (suc fuel) inner end n v f h = record {
    advances = record { consumed = []; splits = refl; decodes = unfold run in refl; valid = tt };
    bounded = omega arith;
    progress = inr refl;
  }

  -- On a buffer that is not empty, from a valid state and with more fuel than the source has bytes
  -- left, `do_read` does not panic. If it returns, it has taken a number of bytes from the source,
  -- in which the byte automaton finds exactly the returned payload, and has stopped in the
  -- automaton's state, which is valid. The payload fits the buffer, and it is empty only at the end
  -- of the message, behind which no byte is taken.
  pub do_read-Delivers :
      (fuel : ℕ) (me : MapiReader R) (n : ℕ)
      → IsValid me.state
      → length (pending me.inner) < fuel
      → 0 < n
      → Returns (Delivers me n) (do_read src fuel me n)
  unfolding do_read
  do_read-Delivers fuel me n v f h =
      let nonzero : (n == 0) ≡ false = ground arith in
      rw nonzero (read_loop-Delivers fuel me.inner me.state n v f h)
