-- ===== src/Framing/Reading/Body.antt =====
-- One body read of `MapiReader`: the payload bytes, and the header bytes that came along.
use monetdb_rust.Prelude.{
  ℕ, suc, ◌+◌, ◌-◌, ◌≤◌, ◌<◌, ◌≡◌, refl, inl, inr, Bool, true, false, [], ◌∷◌, ltb, leb,
  if◌then◌else◌, Bool-cases, arith, Bytes, length, take, drop, min, length-take, length-drop,
  take-append-drop, take_all, append-nil, ok, Returns, Returns-bind,
}
use monetdb_rust.Framing.Header
use monetdb_rust.Framing.Header.{FramingError, blocksize}
use monetdb_rust.Framing.BlockState
use monetdb_rust.Framing.BlockState.{
  BlockState, start, partial_header, body, end, Range, skip_headers, skip_loop, from_header,
  IsValid,
}
use monetdb_rust.Framing.BlockState.Automaton.{run, run_join}
use monetdb_rust.Framing.BlockState.Refines.{run_body, new-IsValid, from_header-IsValid}
use monetdb_rust.Framing.Reading.{MapiReader, read_ahead, interpret_body}

-- The range that `skip_headers` finds in a body.
pub skip_headers-body :
    (remaining : ℕ) (last : Bool) (c : ℕ) (cs : Bytes)
    → 0 < remaining
    → skip_headers (body remaining last) (c ∷ cs)
      ≡ ok (
        record { start = 0; end = min remaining (length (c ∷ cs)) },
        BlockState.new (remaining - min remaining (length (c ∷ cs))) last,
      )
unfolding skip_headers
skip_headers-body remaining last c cs h = ground arith

-- Up to two bytes behind a body hold no payload, and the whole of them is read.
abbrev pub Ahead : Bytes → BlockState → Type 0
Ahead tail st = (run start tail ≡ ok ([], st)) × IsValid st

pub read_ahead-Ahead :
    (tail : Bytes)
    → 0 < length tail
    → length tail ≤ 2
    → Returns (Ahead tail) (read_ahead start tail)
unfolding read_ahead skip_headers run Header.size
read_ahead-Ahead [] h k = absurd (omega arith)
read_ahead-Ahead (lo ∷ []) h k = (refl, tt)
read_ahead-Ahead (lo ∷ hi ∷ []) h k =
    let header : Header.Header = record { lo = lo; hi = hi } in
    elim (Bool-cases (leb (Header.size header) blocksize)) [
      | inl fits ↦ rw fits (rw fits, from_header-IsValid header (ground arith))
      | inr large ↦ rw large tt
    ]
read_ahead-Ahead (a ∷ b ∷ c ∷ cs) h k = absurd (omega arith)

-- The bytes of one read, taken apart: the payload `out`, and the state behind all of them.
pub record Splits (remaining : ℕ) (last : Bool) (buf out : Bytes) (st : BlockState) : Type 0 where
  pub decodes : run (body remaining last) buf ≡ ok (out, st)
  pub bounded : length out ≤ length buf
  pub some_out : 0 < length out
  pub valid : IsValid st

abbrev pub Interpreted : ℕ → Bool → Bytes → {R : Type 0} → R → Bytes × MapiReader R → Type 0
Interpreted remaining last buf {R} inner (out, me) =
    Splits remaining last buf out me.state × (me.inner ≡ inner)

-- The read stays inside the body.
Splits-inside :
    (remaining : ℕ) (last : Bool) (c : ℕ) (cs : Bytes)
    → IsValid (body remaining last)
    → length (c ∷ cs) ≤ remaining
    → Splits remaining last
        (c ∷ cs)
        (take (length (c ∷ cs)) (c ∷ cs))
        (BlockState.new (remaining - length (c ∷ cs)) last)
Splits-inside remaining last c cs (low, high) fits =
    rw (take_all (length (c ∷ cs)) (c ∷ cs) (omega arith)) (record {
      decodes = run_body remaining last (c ∷ cs) low fits;
      bounded = omega arith;
      some_out = omega arith;
      valid = new-IsValid (remaining - length (c ∷ cs)) last (omega arith);
    })

-- The read goes on behind the body.
Splits-behind :
    (remaining : ℕ) (buf : Bytes) (st : BlockState)
    → IsValid (body remaining false)
    → remaining < length buf
    → Ahead (drop remaining buf) st
    → Splits remaining false buf (take remaining buf) st
unfolding BlockState.new
Splits-behind remaining buf st (low, high) more (ahead, valid) =
    let size : length (take remaining buf) ≡ remaining = omega (arith, length-take remaining buf) in
    let none : remaining - length (take remaining buf) ≡ 0 = omega (arith, size) in
    let inside = run_body remaining false (take remaining buf) low (omega (arith, size)) in
    let joined =
      run_join (take remaining buf) (drop remaining buf) (body remaining false) (rw none at inside)
        ahead in
    record {
      decodes = rw take-append-drop at (rw append-nil at joined);
      bounded = omega (arith, size);
      some_out = omega (arith, size);
      valid = valid;
    }

-- A read of a body takes at most two bytes of the next header along, and none behind a last block.
pub interpret_body-Interpreted :
    {R : Type 0} (inner : R) (remaining : ℕ) (last : Bool) (c : ℕ) (cs : Bytes)
    → IsValid (body remaining last)
    → length (c ∷ cs) ≤ (if last then remaining else remaining + 2)
    → Returns
        (Interpreted remaining last (c ∷ cs) inner)
        (interpret_body inner (body remaining last) (c ∷ cs))
unfolding interpret_body BlockState.new
interpret_body-Interpreted inner remaining true c cs (low, high) fits =
    let whole : min remaining (suc (length cs)) ≡ suc (length cs) = omega arith in
    let inside : ltb (min remaining (length (c ∷ cs))) (length (c ∷ cs)) ≡ false =
      ground (arith, whole) in
    rw (skip_headers-body remaining true c cs low)
      (rw inside (rw whole (Splits-inside remaining true c cs (low, high) fits, refl)))
interpret_body-Interpreted {R} inner remaining false c cs (low, high) fits =
    rw (skip_headers-body remaining false c cs low)
      (elim (Bool-cases (ltb (min remaining (length (c ∷ cs))) (length (c ∷ cs)))) [
        | inl behind ↦
            let body_end : min remaining (suc (length cs)) ≡ remaining = ground arith in
            let none : remaining - remaining ≡ 0 = omega arith in
            let size = length-drop remaining (c ∷ cs) in
            rw behind (
              rw (body_end, none)
                (Returns-bind (Ahead (drop remaining (c ∷ cs))) _ _ _
                  (read_ahead-Ahead (drop remaining (c ∷ cs)) (ground (arith, size))
                    (omega (arith, size, fits)))
                  (λ st ahead.
                    (Splits-behind remaining (c ∷ cs) st (low, high) (ground arith) ahead, refl))))
        | inr all ↦
            let whole : min remaining (suc (length cs)) ≡ suc (length cs) = ground arith in
            rw all (rw whole (Splits-inside remaining false c cs (low, high) (ground arith), refl))
      ])
