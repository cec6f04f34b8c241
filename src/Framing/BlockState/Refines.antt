-- ===== src/Framing/BlockState/Refines.antt =====
-- `skip_headers` finds ranges by arithmetic on positions; it agrees with the byte automaton.
use monetdb_rust.Prelude.{
  ℕ, zero, suc, ◌+◌, ◌-◌, ◌≤◌, ◌<◌, ◌≡◌, refl, Bool, true, false, [], ◌∷◌, ◌++◌, arith, Bytes,
  length, take, drop, length-append, length-take, take_all, take-append_right, drop-append_right,
  ◌∙◌, Outcome, ok, err, panic, Bool-cases, inl, inr, ltb, leb, ◌==◌, ◌⊎◌,
}
use monetdb_rust.Framing.Header
use monetdb_rust.Framing.Header.{Header, FramingError, invalid_block_size, blocksize}
use monetdb_rust.Framing.BlockState.{
  BlockState, start, partial_header, body, end, Range, new, from_header, skip_loop, skip_headers,
  IsValid,
}
use monetdb_rust.Framing.BlockState.Automaton.{run, run-new, emit-nil}

-- `&data[range]`
abbrev pub slice : ℕ → ℕ → Bytes → Bytes
slice a b xs = drop a (take b xs)

-- What an answer of the loop at position `pos` says of the input from there on.
abbrev pub Interprets : ℕ → BlockState → Bytes → Outcome FramingError (Range × BlockState) → Type 0
Interprets pos st input (ok (r, st')) =
    (pos ≤ r.start)
    × (r.start ≤ r.end)
    × (r.end ≤ pos + length input)
    × ((r.start < r.end) ⊎ (r.end ≡ pos + length input))
    × IsValid st'
    × (run st (take (r.end - pos) input) ≡ ok (slice (r.start - pos) (r.end - pos) input, st'))
Interprets pos st input (err e) = run st input ≡ err e
Interprets pos st input panic = ⊥

pub new-IsValid : (n : ℕ) (last : Bool) → n ≤ blocksize → IsValid (new n last)
unfolding new
new-IsValid zero true h = tt
new-IsValid zero false h = tt
new-IsValid (suc n) last h = (omega arith, h)

-- A header is accepted as it is, or refused.
pub from_bytes-cases :
    (h : Header)
    → ((Header.from_bytes h ≡ ok h) × (Header.size h ≤ blocksize))
      ⊎ (Header.from_bytes h ≡ err invalid_block_size)
unfolding Header.from_bytes
from_bytes-cases h = elim (Bool-cases (leb (Header.size h) blocksize)) [
  | inl fits ↦ inl (rw fits, ground arith)
  | inr large ↦ inr (rw large)
]

pub from_header-IsValid : (h : Header) → Header.size h ≤ blocksize → IsValid (from_header h)
unfolding from_header
from_header-IsValid h fits = new-IsValid (Header.size h) (Header.is_last h) fits

-- A header in front of the input moves an answer by its length.
Interprets-shift :
    (hdr input : Bytes) (pos k : ℕ) (st st' : BlockState)
    → k ≡ length hdr
    → ((xs : Bytes) → run st (hdr ++ xs) ≡ run st' xs)
    → (answer : Outcome FramingError (Range × BlockState)) → Interprets (pos + k) st' input answer
    → Interprets pos st (hdr ++ input) answer
Interprets-shift hdr input pos k st st' e h (ok (r, st'')) (a, b, c, d, v, reads) =
    let total = length-append hdr input in
    let to : r.end - pos - length hdr ≡ r.end - (pos + k) = omega arith in
    let from : r.start - pos - length hdr ≡ r.start - (pos + k) = omega arith in
    let fits : length hdr ≤ r.end - pos = omega arith in
    let fits' : length hdr ≤ r.start - pos = omega arith in
    (
      omega arith,
      b,
      omega (arith, total),
      omega (arith, total),
      v,
      rw (take-append_right (r.end - pos) hdr input fits) (
          rw (drop-append_right (r.start - pos) hdr _ fits')
            (rw (to, from) (h (take (r.end - (pos + k)) input) ∙ reads))),
    )
Interprets-shift hdr input pos k st st' e h (err x) p = h input ∙ p
Interprets-shift hdr input pos k st st' e h panic p = p

run_header :
    (lo hi : ℕ) (xs : Bytes)
    → Header.from_bytes (record { lo = lo; hi = hi }) ≡ ok (record { lo = lo; hi = hi })
    → run (partial_header lo) (hi ∷ xs) ≡ run (from_header (record { lo = lo; hi = hi })) xs
unfolding run
run_header lo hi xs h = rw h (emit-nil (run _ xs))

-- The rest of a header that has begun, given the answer for what follows it.
Interprets-header :
    (lo hi : ℕ) (input : Bytes) (pos : ℕ)
    → ((h : Header)
        → IsValid (from_header h)
        → Interprets (pos + 1) (from_header h) input (skip_loop (pos + 1) (from_header h) input))
    → Interprets pos
        (partial_header lo)
        (hi ∷ input)
        (skip_loop pos (partial_header lo) (hi ∷ input))
unfolding skip_loop run
Interprets-header lo hi input pos rest =
    let h : Header = record { lo = lo; hi = hi } in
    elim (from_bytes-cases h) [
      | inl (e, fits) ↦ rw e (
          Interprets-shift (hi ∷ []) input pos 1 (partial_header lo) (from_header h) refl
            (λ xs. run_header lo hi xs e) _ (rest h (from_header-IsValid h fits)))
      | inr e ↦ rw e (rw e)
    ]

Interprets-start :
    (lo hi : ℕ) (input : Bytes) (pos : ℕ)
    → Interprets
        (pos + 1)
        (partial_header lo)
        (hi ∷ input)
        (skip_loop (pos + 1) (partial_header lo) (hi ∷ input))
    → Interprets pos start (lo ∷ hi ∷ input) (skip_loop pos start (lo ∷ hi ∷ input))
unfolding skip_loop run
Interprets-start lo hi input pos rest =
    let next : pos + 1 + 1 ≡ pos + 2 = omega arith in
    Interprets-shift (lo ∷ []) (hi ∷ input) pos 1 start (partial_header lo) refl
      (λ xs. emit-nil (run (partial_header lo) xs)) _ (rw next at rest)

pub run_body :
    (n : ℕ) (last : Bool) (chunk : Bytes)
    → 0 < n
    → length chunk ≤ n
    → run (body n last) chunk ≡ ok (chunk, new (n - length chunk) last)
run_body zero last chunk low fits = absurd (omega arith)
run_body (suc n) last chunk low fits = unfold new in run-new (suc n) last chunk fits

-- In a body the answer is the rest of the input, or the rest of the block.
Interprets-body :
    (c : ℕ) (cs : Bytes) (pos n : ℕ) (last : Bool)
    → IsValid (body n last)
    → Interprets pos (body n last) (c ∷ cs) (skip_loop pos (body n last) (c ∷ cs))
unfolding skip_loop
Interprets-body c cs pos n last (low, high) = elim (Bool-cases (ltb (length (c ∷ cs)) n)) [
  | inl more ↦ rw more (
      let from : pos - pos ≡ 0 = omega arith in
      let to : pos + suc (length cs) - pos ≡ suc (length cs) = omega arith in
      let all = take_all (suc (length cs)) (c ∷ cs) (omega arith) in
      (
        omega arith,
        omega arith,
        omega arith,
        omega arith,
        new-IsValid (n - suc (length cs)) last (omega arith),
        rw (from, to) (rw all (run_body n last (c ∷ cs) low (ground arith))),
      ))
  | inr done ↦
      let fits : n ≤ length (c ∷ cs) = ground arith in
      let nonzero : (n == 0) ≡ false = ground arith in
      let from : pos - pos ≡ 0 = omega arith in
      let to : pos + n - pos ≡ n = omega arith in
      let size : length (take n (c ∷ cs)) ≡ n = omega (arith, length-take n (c ∷ cs)) in
      let none : n - n ≡ 0 = omega arith in
      rw done (
        rw nonzero (
          omega arith,
          omega arith,
          omega arith,
          omega arith,
          new-IsValid 0 last (omega arith),
          rw (from, to) (run_body n last (take n (c ∷ cs)) low (omega arith) ∙ rw (size, none)),
        ))
]

skip_loop-Interprets :
    (input : Bytes) (pos : ℕ) (st : BlockState)
    → IsValid st
    → Interprets pos st input (skip_loop pos st input)
unfolding skip_loop run
skip_loop-Interprets [] pos st v =
    let none : pos - pos ≡ 0 = omega arith in
    (omega arith, omega arith, omega arith, omega arith, v, rw none)
skip_loop-Interprets (c ∷ cs) pos (body n last) v = Interprets-body c cs pos n last v
skip_loop-Interprets (lo ∷ []) pos start v =
    let all : pos + 1 - pos ≡ 1 = omega arith in
    (omega arith, omega arith, omega arith, omega arith, tt, rw all)
skip_loop-Interprets (lo ∷ hi ∷ cs) pos start v = Interprets-start lo hi cs pos (
    Interprets-header lo hi cs (pos + 1)
      (λ h. skip_loop-Interprets cs (pos + 1 + 1) (from_header h)))
skip_loop-Interprets (c ∷ cs) pos (partial_header lo) v =
    Interprets-header lo c cs pos (λ h. skip_loop-Interprets cs (pos + 1) (from_header h))
skip_loop-Interprets (c ∷ cs) pos end v = refl

-- From every state that the code can be in, and on every input, `skip_headers` does not panic. A
-- range that it returns lies within the input, is not empty unless the input is used up, and the
-- byte automaton, run on the input up to the end of the range, finds exactly the bytes of the range
-- as payload and stops in the returned state, which is again valid. An error that it returns is
-- the automaton's error on the whole input.
pub skip_headers-Interprets :
    (st : BlockState) (input : Bytes) → IsValid st → Interprets 0 st input (skip_headers st input)
unfolding skip_headers
skip_headers-Interprets st input v = skip_loop-Interprets input 0 st v
