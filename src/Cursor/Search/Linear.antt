-- ===== src/Cursor/Search/Linear.antt =====
-- A search that looks at one byte after the other, as an instance for tests.
use monetdb_rust.Prelude.{
  ℕ, suc, ◌≡◌, refl, true, [], ◌∷◌, ◌++◌, arith, Bytes, length, Option, none, some, if◌then◌else◌,
  Bool,
}
use monetdb_rust.Cursor.Search.{Search, Without, is_byte, is_either}

-- The first byte that passes a test.
abbrev pub place : (ℕ → Bool) → Bytes → Option ℕ
place test [] = none
place test (x ∷ xs) =
    if test x then some 0 else elim (place test xs) [ none ↦ none | some n ↦ some (suc n) ]

pub place-append :
    (test : ℕ → Bool) (a : ℕ) (xs ys : Bytes)
    → test a ≡ true
    → Without test xs
    → place test (xs ++ a ∷ ys) ≡ some (length xs)
place-append test a [] ys t w = rw t refl
place-append test a (x ∷ xs) ys t (p, w) = rw p (rw (place-append test a xs ys t w) refl)

pub place_none : (test : ℕ → Bool) (xs : Bytes) → Without test xs → place test xs ≡ none
place_none test [] w = refl
place_none test (x ∷ xs) (p, w) = rw p (rw (place_none test xs w) refl)

pub is_byte_self : (a : ℕ) → is_byte a a ≡ true
is_byte_self a = ground arith

pub is_either_first : (a b : ℕ) → is_either a b a ≡ true
is_either_first a b = ground arith

pub is_either_second : (a b : ℕ) → is_either a b b ≡ true
is_either_second a b = ground arith

abbrev pub linear : Search
linear = record {
  memchr = λ a xs. place (is_byte a) xs;
  memchr2 = λ a b xs. place (is_either a b) xs;
  memchr_finds = λ a xs ys w. place-append (is_byte a) a xs ys (is_byte_self a) w;
  memchr_misses = λ a xs w. place_none (is_byte a) xs w;
  memchr2_finds_first = λ a b xs ys w. place-append (is_either a b) a xs ys (is_either_first a b) w;
  memchr2_finds_second =
      λ a b xs ys w. place-append (is_either a b) b xs ys (is_either_second a b) w;
  memchr2_misses = λ a b xs w. place_none (is_either a b) xs w;
}
