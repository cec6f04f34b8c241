-- ===== src/Connecting/Trims.antt =====
-- What trimming and splitting a text means.
use monetdb_rust.Prelude.{
  ℕ, ◌≡◌, refl, ap, ◌∙◌, ◌⊎◌, inl, inr, arith, Bool, true, false, ◌==◌, Bool-cases, List, [], ◌∷◌,
  ◌++◌, if◌then◌else◌, Bytes, starts_with, drop, length, drop-append, Option, none, some,
}
use monetdb_rust.Cursor.Notices.{is_whitespace, strip_prefix}
use monetdb_rust.Cursor.Notices.Lines.{starts_with-split}
use monetdb_rust.Cursor.Replies.Headers.{trim_start, trim_end, trim_ascii, cons_unless_blank}
use monetdb_rust.Parms.Urls.{split, cons_first}
use monetdb_rust.Connecting.Challenge.{trim_end_matches, cons_unless_last}

abbrev pub AllAre : (ℕ → Bool) → Bytes → Type 0
AllAre p [] = Unit
AllAre p (c ∷ cs) = (p c ≡ true) × AllAre p cs

-- The text is empty, or its last, or its first byte is another.
abbrev pub EndsOff : (ℕ → Bool) → Bytes → Type 0
EndsOff p ys =
    (ys ≡ []) ⊎ ((front : Bytes) × (last : ℕ) × (ys ≡ front ++ last ∷ []) × (p last ≡ false))

abbrev pub BeginsOff : (ℕ → Bool) → Bytes → Type 0
BeginsOff p ys = (ys ≡ []) ⊎ ((c : ℕ) × (cs : Bytes) × (ys ≡ c ∷ cs) × (p c ≡ false))

-- The text without such bytes at its end, and without them at both sides.
abbrev pub TrimsEnd : (ℕ → Bool) → Bytes → Bytes → Type 0
TrimsEnd p xs ys = (tail : Bytes) × (xs ≡ ys ++ tail) × AllAre p tail × EndsOff p ys

abbrev pub Trims : (ℕ → Bool) → Bytes → Bytes → Type 0
Trims p xs ys =
    (head : Bytes) × (tail : Bytes) × (xs ≡ head ++ (ys ++ tail))
    × AllAre p head
    × AllAre p tail
    × BeginsOff p ys
    × EndsOff p ys

abbrev cons_last : Bool → ℕ → Bytes → Bytes
cons_last b c [] = if b then [] else c ∷ []
cons_last b c (d ∷ ds) = c ∷ d ∷ ds

EndsOff-cons : (p : ℕ → Bool) (c d : ℕ) (ds : Bytes) → EndsOff p (d ∷ ds) → EndsOff p (c ∷ d ∷ ds)
EndsOff-cons p c d ds (inl e) = absurd (cc)
EndsOff-cons p c d ds (inr (front, last, e, off)) = inr (c ∷ front, last, ap (◌∷◌ c) e, off)

TrimsEnd-cons :
    (p : ℕ → Bool) (c : ℕ) (cs ys : Bytes)
    → TrimsEnd p cs ys
    → TrimsEnd p (c ∷ cs) (cons_last (p c) c ys)
TrimsEnd-cons p c cs [] (tail, e, all, off) = elim (Bool-cases (p c)) [
  | inl is ↦ rw is (c ∷ tail, ap (◌∷◌ c) e, (is, all), inl refl)
  | inr other ↦ rw other (tail, ap (◌∷◌ c) e, all, inr ([], c, refl, other))
]
TrimsEnd-cons p c cs (d ∷ ds) (tail, e, all, off) =
    (tail, ap (◌∷◌ c) e, all, EndsOff-cons p c d ds off)

cons_unless_last-eq :
    (sep c : ℕ) (ys : Bytes) → cons_unless_last sep c ys ≡ cons_last (c == sep) c ys
cons_unless_last-eq sep c [] = refl
cons_unless_last-eq sep c (d ∷ ds) = refl

cons_unless_blank-eq :
    (c : ℕ) (ys : Bytes) → cons_unless_blank c ys ≡ cons_last (is_whitespace c) c ys
cons_unless_blank-eq c [] = refl
cons_unless_blank-eq c (d ∷ ds) = refl

abbrev pub is_byte : ℕ → ℕ → Bool
is_byte sep c = c == sep

pub trim_end_matches-TrimsEnd :
    (sep : ℕ) (xs : Bytes) → TrimsEnd (is_byte sep) xs (trim_end_matches sep xs)
unfolding trim_end_matches
trim_end_matches-TrimsEnd sep [] = ([], refl, tt, inl refl)
trim_end_matches-TrimsEnd sep (c ∷ cs) =
    rw (cons_unless_last-eq sep c (trim_end_matches sep cs)) (
      TrimsEnd-cons (is_byte sep) c cs (trim_end_matches sep cs) (trim_end_matches-TrimsEnd sep cs))

trim_end-TrimsEnd : (xs : Bytes) → TrimsEnd is_whitespace xs (trim_end xs)
trim_end-TrimsEnd [] = ([], refl, tt, inl refl)
trim_end-TrimsEnd (c ∷ cs) =
    rw (cons_unless_blank-eq c (trim_end cs))
      (TrimsEnd-cons is_whitespace c cs (trim_end cs) (trim_end-TrimsEnd cs))

trim_start-trims :
    (xs : Bytes)
    → (head : Bytes) × (xs ≡ head ++ trim_start xs)
      × AllAre is_whitespace head
      × BeginsOff is_whitespace (trim_start xs)
trim_start-trims [] = ([], refl, tt, inl refl)
trim_start-trims (c ∷ cs) = elim (Bool-cases (is_whitespace c)) [
  | inl is ↦
      let (head, e, all, off) = trim_start-trims cs in
      rw is (c ∷ head, ap (◌∷◌ c) e, (is, all), off)
  | inr other ↦ rw other ([], refl, tt, inr (c, cs, refl, other))
]

BeginsOff-front : (p : ℕ → Bool) (ys tail : Bytes) → BeginsOff p (ys ++ tail) → BeginsOff p ys
BeginsOff-front p [] tail off = inl refl
BeginsOff-front p (y ∷ ys) tail (inl e) = absurd (cc)
BeginsOff-front p (y ∷ ys) tail (inr (c, cs, e, off)) =
    let same : y ≡ c = cc in inr (y, ys, refl, rw same off)

pub trim_ascii-Trims : (xs : Bytes) → Trims is_whitespace xs (trim_ascii xs)
trim_ascii-Trims xs =
    let (head, e, all, begins) = trim_start-trims xs in
    let (tail, e', all', ends) = trim_end-TrimsEnd (trim_start xs) in
    (
      head,
      tail,
      e ∙ ap (λ (z : Bytes). head ++ z) e',
      all,
      all',
      BeginsOff-front is_whitespace (trim_end (trim_start xs)) tail (rw e' at begins),
      ends,
    )

-- The byte does not stand in the text, or in any of the texts.
abbrev pub Without : ℕ → Bytes → Type 0
Without c [] = Unit
Without c (x ∷ xs) = ((x == c) ≡ false) × Without c xs

abbrev pub AllWithout : ℕ → List Bytes → Type 0
AllWithout c [] = Unit
AllWithout c (x ∷ xs) = Without c x × AllWithout c xs

abbrev pub joined : ℕ → Bytes → List Bytes → Bytes
joined sep first [] = first
joined sep first (next ∷ others) = first ++ sep ∷ joined sep next others

-- The text is these pieces with the byte between them, and it does not stand in any of them.
abbrev pub Pieces : ℕ → Bytes → List Bytes → Type 0
Pieces sep text pieces =
    (first : Bytes) × (others : List Bytes) × (pieces ≡ first ∷ others)
    × (text ≡ joined sep first others)
    × AllWithout sep pieces

Pieces-cons :
    (sep c : ℕ) (xs : Bytes) (pieces : List Bytes)
    → (c == sep) ≡ false
    → Pieces sep xs pieces
    → Pieces sep (c ∷ xs) (cons_first c pieces)
Pieces-cons sep c xs [] h (first, others, shape, text, free) = absurd (cc)
Pieces-cons sep c xs (piece ∷ []) h (first, others, shape, text, free) =
    let first_is : first ≡ piece = cc in
    let others_are : others ≡ [] = cc in
    let one_is = ap (◌∷◌ c) (text ∙ (rw (first_is, others_are) refl)) in
    (c ∷ piece, [], refl, one_is, ((h, free.0), tt))
Pieces-cons sep c xs (piece ∷ piece' ∷ pieces) h (first, others, shape, text, free) =
    let first_is : first ≡ piece = cc in
    let others_are : others ≡ piece' ∷ pieces = cc in
    let two_is = ap (◌∷◌ c) (text ∙ (rw (first_is, others_are) refl)) in
    (c ∷ piece, piece' ∷ pieces, refl, two_is, ((h, free.0), free.1))

pub split-Pieces : (sep : ℕ) (xs : Bytes) → Pieces sep xs (split sep xs)
unfolding split
split-Pieces sep [] = ([], [], refl, refl, (tt, tt))
split-Pieces sep (c ∷ cs) = elim (Bool-cases (c == sep)) [
  | inl e ↦
      let (first, others, shape, text, free) = split-Pieces sep cs in
      let same : c ≡ sep = ground arith in
      rw e ([], split sep cs, refl, rw (shape, same) (ap (◌∷◌ sep) text), (tt, free))
  | inr e ↦ rw e (Pieces-cons sep c cs (split sep cs) e (split-Pieces sep cs))
]

-- A prefix is there, or it is not.
pub strip_prefix-some :
    (line prefix' rest : Bytes) → strip_prefix line prefix' ≡ some rest → line ≡ prefix' ++ rest
strip_prefix-some line prefix' rest h = elim (Bool-cases (starts_with line prefix')) [
  | inl e ↦
      let (behind, shape) = starts_with-split line prefix' e in
      let h' : Path (Option Bytes) (some (drop (length prefix') line)) (some rest) = rw e at h in
      let cut : drop (length prefix') line ≡ behind =
        ap (drop (length prefix')) shape ∙ drop-append (length prefix') prefix' behind refl in
      let same : behind ≡ rest = cc in shape ∙ ap (λ (z : Bytes). prefix' ++ z) same
  | inr e ↦ let wrong : Path (Option Bytes) none (some rest) = rw e at h in absurd (cc)
]

pub strip_prefix-none :
    (line prefix' : Bytes) → strip_prefix line prefix' ≡ none → starts_with line prefix' ≡ false
strip_prefix-none line prefix' h = elim (Bool-cases (starts_with line prefix')) [
  | inl e ↦
      let wrong : Path (Option Bytes) (some (drop (length prefix') line)) none = rw e at h in
      absurd (cc)
  | inr e ↦ e
]
