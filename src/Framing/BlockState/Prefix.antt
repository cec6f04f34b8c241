-- ===== src/Framing/BlockState/Prefix.antt =====
-- Readings of the block structure from the front: a stream begins with at most one message.
use monetdb_rust.Prelude.{
  ℕ, zero, suc, ◌+◌, ◌-◌, ◌≤◌, ◌≡◌, refl, sym, ◌∙◌, Bool, true, false, [], ◌∷◌, ◌++◌, arith, Bytes,
  length, ok, err, panic, >>=-returned, append_assoc, append-prefix,
}
use monetdb_rust.Framing.Header.{FramingError}
use monetdb_rust.Framing.BlockState.{BlockState, start, partial_header, body, end, new}
use monetdb_rust.Framing.BlockState.Automaton.{step, run, emit, and_then, run-append, Reading}

-- The first byte of a successful reading, and the rest of it.
pub run-cons :
    (st : BlockState) (b : ℕ) (bs : Bytes) {p : Bytes} {last : BlockState}
    → run st (b ∷ bs) ≡ ok (p, last)
    → (out : Bytes) × (st' : BlockState) × (q : Bytes) × (step st b ≡ ok (out, st'))
      × (run st' bs ≡ ok (q, last))
      × (p ≡ out ++ q)
unfolding run
run-cons st b bs {p} {last} h =
    let (a, first, rest) = >>=-returned (step st b) (λ a. emit a.0 (run a.1 bs)) h in
    split a first (run a.1 bs) refl rest
  where
    split :
        (a : Bytes × BlockState)
        → step st b ≡ ok a
        → (m : Reading) → run a.1 bs ≡ m
        → emit a.0 m ≡ ok (p, last)
        → (out : Bytes) × (st' : BlockState) × (q : Bytes) × (step st b ≡ ok (out, st'))
          × (run st' bs ≡ ok (q, last))
          × (p ≡ out ++ q)
    split a first (ok (q, st)) e h = (a.0, a.1, q, first, cc, cc)
    split a first (err x) e h = cc
    split a first panic e h = cc

pub run_end : (b : ℕ) (bs : Bytes) {r : Bytes × BlockState} → run end (b ∷ bs) ≡ ok r → ⊥
unfolding run
run_end b bs h = cc

pub run-nil :
    (st : BlockState) {p : Bytes} {last : BlockState}
    → run st [] ≡ ok (p, last)
    → (p ≡ []) × (st ≡ last)
unfolding run
run-nil st h = (cc, cc)

-- A stream begins with at most one message: nothing is read behind the end.
pub run_unique :
    (xs ys more rest : Bytes) (st : BlockState) {p q : Bytes}
    → xs ++ more ≡ ys ++ rest
    → run st xs ≡ ok (p, end)
    → run st ys ≡ ok (q, end)
    → (xs ≡ ys) × (p ≡ q) × (more ≡ rest)
run_unique [] [] more rest st e h k = (refl, (run-nil st h).0 ∙ sym (run-nil st k).0, e)
run_unique [] (y ∷ ys) more rest st e h k = absurd (run_end y ys (rw (run-nil st h).1 at k))
run_unique (x ∷ xs) [] more rest st e h k = absurd (run_end x xs (rw (run-nil st k).1 at h))
run_unique (x ∷ xs) (y ∷ ys) more rest st e h k =
    let (out, s, p', first, later, pe) = run-cons st x xs h in
    let (out', s', q', first', later', qe) = run-cons st y ys k in
    let head : x ≡ y = cc in
    let tail : xs ++ more ≡ ys ++ rest = cc in
    let same : s' ≡ s = cc in
    let (xs_is, p_is, more_is) = run_unique xs ys more rest s tail later (rw same at later') in
    (cc, cc, more_is)

-- The bytes begin with the rest of a message, from a state on: its payload, and what is behind it.
pub record Finishes (st : BlockState) (bytes payload rest : Bytes) : Type 0 where
  pub message : Bytes
  pub splits : bytes ≡ message ++ rest
  pub decodes : run st message ≡ ok (payload, end)

Finishes-front :
    (consumed message more rest : Bytes) (st st' : BlockState) {out payload : Bytes}
    → consumed ++ more ≡ message ++ rest
    → run st consumed ≡ ok (out, st')
    → run st message ≡ ok (payload, end)
    → (later : Bytes) × Finishes st' more later rest × (payload ≡ out ++ later)
Finishes-front [] message more rest st st' {out} {payload} e h k =
    let (none, same) = run-nil st h in
    (payload, record { message = message; splits = e; decodes = rw same at k }, rw none refl)
Finishes-front (x ∷ xs) [] more rest st st' e h k = absurd (run_end x xs (rw (run-nil st k).1 at h))
Finishes-front (x ∷ xs) (y ∷ ys) more rest st st' {out} {payload} e h k =
    let (front, s, p, first, behind, pe) = run-cons st x xs h in
    let (front', s', q, first', behind', qe) = run-cons st y ys k in
    let head : x ≡ y = cc in
    let tail : xs ++ more ≡ ys ++ rest = cc in
    let same : s' ≡ s = cc in
    let same_front : front' ≡ front = cc in
    let (later, f, whole) = Finishes-front xs ys more rest s st' tail behind (rw same at behind') in
    (later, f, rw (pe, qe, same_front, whole) (sym (append_assoc front p later)))

-- Taking bytes that read well leaves the rest of the same message.
pub Finishes-advance :
    (consumed more : Bytes) {bytes rest out payload : Bytes} {st st' : BlockState}
    → Finishes st bytes payload rest
    → bytes ≡ consumed ++ more
    → run st consumed ≡ ok (out, st')
    → (later : Bytes) × Finishes st' more later rest × (payload ≡ out ++ later)
Finishes-advance consumed more {st = st} {st' = st'} f e h =
    Finishes-front consumed f.message more _ st st' (sym e ∙ f.splits) h f.decodes

-- A part of a message, no longer than it, is read without an error.
pub Finishes-fine :
    (consumed more : Bytes) {bytes payload rest : Bytes} {st : BlockState} {x : FramingError}
    → (f : Finishes st bytes payload rest) → bytes ≡ consumed ++ more
    → length consumed ≤ length f.message
    → run st consumed ≡ err x
    → ⊥
Finishes-fine consumed more {payload = payload} {rest} {st} f e l h =
    let (zs, whole) = append-prefix consumed f.message more rest (sym e ∙ f.splits) l in
    let joined = run-append consumed zs st in
    let failed : and_then (run st consumed) zs ≡ ok (payload, end) =
      sym joined ∙ rw whole at f.decodes in
    absurd (unread (rw h at failed))
  where
    unread : {x : FramingError} {r : Bytes × BlockState} → Path Reading (err x) (ok r) → ⊥
    unread e = cc

-- At the end of a message only the bytes behind it are left.
pub Finishes-end :
    {bytes payload rest : Bytes} → Finishes end bytes payload rest → (payload ≡ []) × (bytes ≡ rest)
Finishes-end {bytes} {payload} {rest} f = go f.message f.splits f.decodes
  where
    go :
        (message : Bytes)
        → bytes ≡ message ++ rest
        → run end message ≡ ok (payload, end)
        → (payload ≡ []) × (bytes ≡ rest)
    go [] e h = ((run-nil end h).0, e)
    go (x ∷ xs) e h = absurd (run_end x xs h)

-- The bytes that a message has left at least.
abbrev pub needs : BlockState → ℕ
needs start = 2
needs (partial_header _) = 1
needs (body remaining true) = remaining
needs (body remaining false) = remaining + 2
needs end = 0

needs-new : (n : ℕ) (last : Bool) → needs (body (suc n) last) ≤ suc (needs (new n last))
unfolding new
needs-new zero true = omega arith
needs-new zero false = omega arith
needs-new (suc n) true = omega arith
needs-new (suc n) false = omega arith

run-needs :
    (message : Bytes) (st : BlockState) {payload : Bytes}
    → run st message ≡ ok (payload, end)
    → needs st ≤ length message
unfolding run step new
run-needs [] end h = omega arith
run-needs [] start h = cc
run-needs [] (partial_header lo) h = cc
run-needs [] (body n last) h = cc
run-needs (x ∷ xs) end h = omega arith
run-needs (x ∷ xs) (partial_header lo) h = omega arith
run-needs (x ∷ xs) start h =
    let (front, s, p, first, behind, whole) = run-cons start x xs h in
    let next : s ≡ partial_header x = cc in
    omega (arith, run-needs xs (partial_header x) (rw next at behind))
run-needs (x ∷ xs) (body zero true) h = omega arith
run-needs (x ∷ xs) (body zero false) h =
    let (front, s, p, first, behind, whole) = run-cons (body zero false) x xs h in
    let none : 0 - 1 ≡ 0 = omega arith in
    let next : s ≡ new (0 - 1) false = cc in omega (arith, run-needs xs start (rw next at behind))
run-needs (x ∷ xs) (body (suc n) last) h =
    let (front, s, p, first, behind, whole) = run-cons (body (suc n) last) x xs h in
    let less : suc n - 1 ≡ n = omega arith in
    let next : s ≡ new (suc n - 1) last = cc in
    let ih = run-needs xs (new n last) (rw less at (rw next at behind)) in
    omega (arith, ih, needs-new n last)

pub Finishes-needs :
    {st : BlockState} {bytes payload rest : Bytes} (f : Finishes st bytes payload rest)
    → needs st ≤ length f.message
Finishes-needs f = run-needs f.message _ f.decodes
