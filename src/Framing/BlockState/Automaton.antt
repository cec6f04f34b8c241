-- ===== src/Framing/BlockState/Automaton.antt =====
-- The meaning of the block structure, one byte at a time: a byte is part of a header, or payload.
use monetdb_rust.Prelude.{
  ℕ, zero, suc, ◌-◌, ◌≤◌, ◌≡◌, refl, ap, sym, Bool, [], ◌∷◌, ◌++◌, arith, Bytes, append_assoc,
  length, Outcome, ok, err, panic, ◌>>=◌,
}
use native.Mathlib.Nat.{sub-zero}
use monetdb_rust.Framing.Header
use monetdb_rust.Framing.Header.{Header, FramingError, message_already_complete, blocksize}
use monetdb_rust.Framing.BlockState.{BlockState, start, partial_header, body, end, new, from_header}

-- The payload that one byte gives, and the state behind it.
unfoldable pub step : BlockState → ℕ → Outcome FramingError (Bytes × BlockState)
unfolding Header.from_bytes from_header
step start b = ok ([], partial_header b)
step (partial_header lo) b = do
  header ← Header.from_bytes (record { lo = lo; hi = b })
  ok ([], from_header header)
step (body n last) b = ok (b ∷ [], new (n - 1) last)
step end b = err message_already_complete

-- A reading: the payload found and the state reached.
abbrev pub Reading : Type 0
Reading = Outcome FramingError (Bytes × BlockState)

-- Payload in front of a reading.
abbrev pub emit : Bytes → Reading → Reading
emit out (ok (p, st)) = ok (out ++ p, st)
emit out (err e) = err e
emit out panic = panic

-- The payload of a piece of input.
unfoldable pub run : BlockState → Bytes → Reading
unfolding step
run st [] = ok ([], st)
run st (b ∷ bs) = do (out, st') ← step st b; emit out (run st' bs)

-- A reading that goes on with more input.
abbrev pub and_then : Reading → Bytes → Reading
and_then (ok (p, st)) ys = emit p (run st ys)
and_then (err e) ys = err e
and_then panic ys = panic

emit-append : (out p : Bytes) (m : Reading) → emit out (emit p m) ≡ emit (out ++ p) m
emit-append out p (ok (q, st)) = ap (λ (z : Bytes). ok (z, st)) (sym (append_assoc out p q))
emit-append out p (err e) = refl
emit-append out p panic = refl

pub emit-nil : (m : Reading) → emit [] m ≡ m
emit-nil (ok r) = refl
emit-nil (err e) = refl
emit-nil panic = refl

emit-and_then :
    (out : Bytes) (m : Reading) (ys : Bytes) → emit out (and_then m ys) ≡ and_then (emit out m) ys
emit-and_then out (ok (p, st)) ys = emit-append out p (run st ys)
emit-and_then out (err e) ys = refl
emit-and_then out panic ys = refl

-- Reading on behind a piece of input joins the payloads: where the input is cut does not matter.
pub run-append : (xs ys : Bytes) (st : BlockState) → run st (xs ++ ys) ≡ and_then (run st xs) ys
unfolding run
run-append [] ys st = sym (emit-nil (run st ys))
run-append (x ∷ xs) ys st = go (step st x) (run-append xs ys)
  where
    go :
        (m : Reading)
        → ((s : BlockState) → run s (xs ++ ys) ≡ and_then (run s xs) ys)
        → (m >>= λ r. emit r.0 (run r.1 (xs ++ ys)))
          ≡ and_then (m >>= λ r. emit r.0 (run r.1 xs)) ys
    go (ok (out, st')) h = rw (h st') (emit-and_then out (run st' xs) ys)
    go (err e) h = refl
    go panic h = refl

-- A chunk that fits the current block passes through unchanged.
pub run-new :
    (n : ℕ) (last : Bool) (chunk : Bytes)
    → length chunk ≤ n
    → run (new n last) chunk ≡ ok (chunk, new (n - length chunk) last)
unfolding run new
run-new n last [] h = rw sub-zero
run-new zero last (c ∷ cs) h = absurd (omega arith)
run-new (suc n) last (c ∷ cs) h =
    let less : suc n - 1 ≡ n = omega arith in
    let left : suc n - suc (length cs) ≡ n - length cs = omega arith in
    rw (less, left) (rw (run-new n last cs (omega arith)))

-- The same for two pieces that are read without an error.
pub run_join :
    (xs ys : Bytes) (st : BlockState) {p q : Bytes} {st' st'' : BlockState}
    → run st xs ≡ ok (p, st')
    → run st' ys ≡ ok (q, st'')
    → run st (xs ++ ys) ≡ ok (p ++ q, st'')
run_join xs ys st h k = rw run-append (rw h (rw k))
