-- ===== src/Cursor/Search.antt =====
-- The searches of the crate memchr that src/cursor calls: what their documentation promises.
pub mod Linear
use monetdb_rust.Prelude.{
  ℕ, ◌≡◌, Bool, false, ◌||◌, [], ◌∷◌, ◌++◌, ◌==◌, Bytes, length, Option, none, some,
}

-- No byte passes the test.
abbrev pub Without : (ℕ → Bool) → Bytes → Type 0
Without test [] = Unit
Without test (x ∷ xs) = (test x ≡ false) × Without test xs

abbrev pub is_byte : ℕ → ℕ → Bool
is_byte a x = x == a

abbrev pub is_either : ℕ → ℕ → ℕ → Bool
is_either a b x = (x == a) || (x == b)

-- `memchr::memchr` and `memchr2` give the place of the first such byte.
pub record Search : Type 0 where
  pub memchr : ℕ → Bytes → Option ℕ
  pub memchr2 : ℕ → ℕ → Bytes → Option ℕ
  pub memchr_finds :
      (a : ℕ) (xs ys : Bytes) → Without (is_byte a) xs → memchr a (xs ++ a ∷ ys) ≡ some (length xs)
  pub memchr_misses : (a : ℕ) (xs : Bytes) → Without (is_byte a) xs → memchr a xs ≡ none
  pub memchr2_finds_first :
      (a b : ℕ) (xs ys : Bytes)
      → Without (is_either a b) xs
      → memchr2 a b (xs ++ a ∷ ys) ≡ some (length xs)
  pub memchr2_finds_second :
      (a b : ℕ) (xs ys : Bytes)
      → Without (is_either a b) xs
      → memchr2 a b (xs ++ b ∷ ys) ≡ some (length xs)
  pub memchr2_misses : (a b : ℕ) (xs : Bytes) → Without (is_either a b) xs → memchr2 a b xs ≡ none
