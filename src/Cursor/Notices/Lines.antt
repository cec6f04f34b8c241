-- ===== src/Cursor/Notices/Lines.antt =====
-- The search in front of the scan of the lines changes nothing.
use monetdb_rust.Prelude.{
  ℕ, ◌≡◌, ◌≢◌, refl, sym, ◌∙◌, ap, inl, inr, Bool, true, false, not, ◌&&◌, Bool-cases, ◌==◌, List,
  [], ◌∷◌, ◌++◌, arith, Bytes, codes, starts_with, Option, none, some,
}
use monetdb_rust.Cursor.Notices.{
  pieces_of, is_newline, parse_autocommit_line, filter_map, last_of, is_none, response_autocommit,
  error_message, error_of, server_error,
}

-- `find` of the crate finds a text that is there.
abbrev pub Finds : (Bytes → Bytes → Option ℕ) → Type 0
Finds memmem = (front needle behind : Bytes) → memmem (front ++ needle ++ behind) needle ≢ none

-- No line begins with `p`.
abbrev AllClean : Bytes → List Bytes → Type 0
AllClean p [] = Unit
AllClean p (line ∷ rest) = (starts_with line p ≡ false) × AllClean p rest

abbrev TailClean : Bytes → List Bytes → Type 0
TailClean p [] = Unit
TailClean p (line ∷ rest) = AllClean p rest

-- No line of `r`, but for the first, begins with `p`.
abbrev NoneBehind : Bytes → Bytes → Type 0
NoneBehind p r = (front behind : Bytes) → r ≡ front ++ (10 ∷ p) ++ behind → ⊥

pub starts_with-split :
    (xs p : Bytes) → starts_with xs p ≡ true → (behind : Bytes) × (xs ≡ p ++ behind)
starts_with-split xs [] h = (xs, refl)
starts_with-split [] (p ∷ ps) h = cc
starts_with-split (x ∷ xs) (p ∷ ps) h = elim (Bool-cases (x == p)) [
  | inl e ↦
      let same : x ≡ p = ground arith in
      let (behind, rest) = starts_with-split xs ps (rw e at h) in (behind, cc)
  | inr e ↦ let wrong : Path Bool false true = rw e at h in cc
]

-- The first piece begins the text.
first_piece :
    (r : Bytes)
    → (line : Bytes) × (rest : List Bytes) × (tail : Bytes) × (pieces_of is_newline r ≡ line ∷ rest)
      × (r ≡ line ++ tail)
unfolding pieces_of
first_piece [] = ([], [], [], refl, refl)
first_piece (c ∷ cs) = elim (Bool-cases (c == 10)) [
  | inl e ↦ ([], pieces_of is_newline cs, c ∷ cs, rw e refl, refl)
  | inr e ↦
      let (line, rest, tail, pieces, whole) = first_piece cs in
      (c ∷ line, rest, tail, rw (e, pieces) refl, ap (◌∷◌ c) whole)
]

starts_with-append : (xs ys p : Bytes) → starts_with xs p ≡ true → starts_with (xs ++ ys) p ≡ true
starts_with-append xs ys [] h = refl
starts_with-append [] ys (p ∷ ps) h = cc
starts_with-append (x ∷ xs) ys (p ∷ ps) h = elim (Bool-cases (x == p)) [
  | inl e ↦ rw e (starts_with-append xs ys ps (rw e at h))
  | inr e ↦ let wrong : Path Bool false true = rw e at h in cc
]

NoneBehind-cons : (p : Bytes) (c : ℕ) (cs : Bytes) → NoneBehind p (c ∷ cs) → NoneBehind p cs
NoneBehind-cons p c cs h front behind e = h (c ∷ front) behind (ap (◌∷◌ c) e)

-- A first line that begins with `p` is not there behind a line's end.
first_line-clean :
    (p line tail : Bytes) (c : ℕ)
    → (c == 10) ≡ true
    → NoneBehind p (c ∷ (line ++ tail))
    → starts_with line p ≡ false
first_line-clean p line tail c e h = elim (Bool-cases (starts_with line p)) [
  | inr clean ↦ clean
  | inl there ↦
      let (behind, whole) =
        starts_with-split (line ++ tail) p (starts_with-append line tail p there) in
      let newline : c ≡ 10 = ground arith in absurd (h [] behind (rw (newline, whole) refl))
]

tail-Clean : (p r : Bytes) → NoneBehind p r → TailClean p (pieces_of is_newline r)
unfolding pieces_of
tail-Clean p [] h = tt
tail-Clean p (c ∷ cs) h =
    let (line, rest, tail, pieces, whole) = first_piece cs in
    let clean = rw pieces at (tail-Clean p cs (NoneBehind-cons p c cs h)) in
    elim (Bool-cases (c == 10)) [
      | inl e ↦ rw (e, pieces) (first_line-clean p line tail c e (rw whole at h), clean)
      | inr e ↦ rw (e, pieces) clean
    ]

all-Clean :
    (p r : Bytes) → starts_with r p ≡ false → NoneBehind p r → AllClean p (pieces_of is_newline r)
all-Clean p r s h =
    let (line, rest, tail, pieces, whole) = first_piece r in
    let clean = rw pieces at (tail-Clean p r h) in
    rw pieces (elim (Bool-cases (starts_with line p)) [
      | inr first ↦ (first, clean)
      | inl there ↦
          let too : starts_with r p ≡ true = rw whole (starts_with-append line tail p there) in
          let wrong : Path Bool false true = sym s ∙ too in cc
    ])

filter_map-none :
    {A : Type 0} (f : Bytes → Option A) (p : Bytes) (lines : List Bytes)
    → ((line : Bytes) → starts_with line p ≡ false → f line ≡ none)
    → AllClean p lines
    → filter_map f lines ≡ []
unfolding filter_map
filter_map-none f p [] h clean = refl
filter_map-none f p (line ∷ lines) h (first, rest) =
    rw (h line first, filter_map-none f p lines h rest) refl

-- If the search finds nothing, no line passes.
search-none :
    {A : Type 0} (memmem : Bytes → Bytes → Option ℕ) (f : Bytes → Option A) (p r : Bytes)
    → Finds memmem
    → ((line : Bytes) → starts_with line p ≡ false → f line ≡ none)
    → (not (starts_with r p) && is_none (memmem r (10 ∷ p))) ≡ true
    → filter_map f (pieces_of is_newline r) ≡ []
search-none memmem f p r finds h e = filter_map-none f p (pieces_of is_newline r) h (
    all-Clean p r (not_there (starts_with r p) _ e) (λ front behind whole.
      finds front (10 ∷ p) behind (rw whole at (missed (memmem r (10 ∷ p)) (starts_with r p) e))))
  where
    not_there : (a b : Bool) → (not a && b) ≡ true → a ≡ false
    not_there false b h = refl
    not_there true b h = sym h

    missed : (o : Option ℕ) (a : Bool) → (not a && is_none o) ≡ true → o ≡ none
    missed none a h = refl
    missed (some n) true h = cc
    missed (some n) false h = cc

autocommit_line-prefix :
    (line : Bytes) → starts_with line (codes "&4") ≡ false → parse_autocommit_line line ≡ none
unfolding parse_autocommit_line
autocommit_line-prefix line h = rw h refl

error_message-prefix :
    (line : Bytes) → starts_with line (codes "!") ≡ false → error_message line ≡ none
unfolding error_message
error_message-prefix line h = rw h refl

-- If the search of the crate finds every text that is there, then looking for a header first changes
-- nothing: the autocommit status of a response is that of its last line which is such a notice, and
-- the error is made of all lines that are error messages, wherever they stand.
pub response_autocommit-lines :
    (memmem : Bytes → Bytes → Option ℕ) (lossy : Bytes → Bytes) (response : Bytes)
    → Finds memmem
    → (response_autocommit memmem response
        ≡ last_of (filter_map parse_autocommit_line (pieces_of is_newline response)))
      × (server_error memmem lossy response
          ≡ error_of memmem lossy (filter_map error_message (pieces_of is_newline response)))
unfolding response_autocommit server_error error_of
response_autocommit-lines memmem lossy response finds = (
  elim (Bool-cases
      (not (starts_with response (codes "&4")) && is_none (memmem response (10 ∷ codes "&4")))) [
        | inl nothing ↦ rw nothing (
            rw
              (search-none memmem parse_autocommit_line (codes "&4") response finds
                autocommit_line-prefix nothing)
              refl)
        | inr found ↦ rw found refl
      ],
  elim (Bool-cases
      (not (starts_with response (codes "!")) && is_none (memmem response (10 ∷ codes "!")))) [
        | inl nothing ↦ rw nothing (
            rw
              (search-none memmem error_message (codes "!") response finds error_message-prefix
                nothing)
              refl)
        | inr found ↦ rw found refl
      ],
)
