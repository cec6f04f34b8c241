-- ===== src/Prelude/Int.antt =====
-- Signed integers over the native numbers, and the decimal text of numbers, as the standard library
-- prints and parses it.
use Prim.Native.Nat.{ℕ, zero, suc, ◌+◌, ◌-◌, ◌*◌, ◌/◌, ◌%◌, ◌^◌, ◌<◌}
use mathlib.Core.Path.{◌≡◌, refl}
use mathlib.Core.Logic.{inl, inr}
use mathlib.Core.List.{[], ◌∷◌, ◌++◌}
use mathlib.Core.Bool.{Bool, true, false, ◌&&◌}
use mathlib.Core.Option.{Option, none, some}
use native.Mathlib.Omega.{arith}
use monetdb_rust.Prelude.Tests.{ltb, leb, ◌==◌, if◌then◌else◌, Bool-cases}
use monetdb_rust.Prelude.Lists.{Bytes}

-- `negsuc n` is -(n + 1).
pub data ℤ : Type 0 where
  pos : ℕ → ℤ
  negsuc : ℕ → ℤ

-- The integers of `i64`.
abbrev pub is_i64 : ℤ → Bool
is_i64 (pos n) = ltb n (2 ^ 63)
is_i64 (negsuc n) = ltb n (2 ^ 63)

abbrev pub same_int : ℤ → ℤ → Bool
same_int (pos m) (pos n) = m == n
same_int (negsuc m) (negsuc n) = m == n
same_int _ _ = false

abbrev pub is_digit : ℕ → Bool
is_digit d = leb 48 d && leb d 57

-- The digits behind a number.
unfoldable pub read_digits : ℕ → Bytes → Option ℕ
read_digits acc [] = some acc
read_digits acc (d ∷ ds) = elim (is_digit d) [
  | true ↦ read_digits (acc * 10 + (d - 48)) ds
  | false ↦ none
]

unfoldable pub read_nat : Bytes → Option ℕ
read_nat [] = none
read_nat (d ∷ ds) = read_digits 0 (d ∷ ds)

abbrev pub within_i64 : ℤ → Option ℤ
within_i64 i = if is_i64 i then some i else none

-- The number with the other sign.
abbrev pub negated : ℕ → ℤ
negated zero = pos zero
negated (suc n) = negsuc n

abbrev pub map_nat : (ℕ → ℤ) → Option ℕ → Option ℤ
map_nat f none = none
map_nat f (some n) = within_i64 (f n)

-- `str::parse::<i64>`: a sign, if any, and at least one digit.
unfoldable pub parse_i64 : Bytes → Option ℤ
parse_i64 [] = none
parse_i64 (c ∷ cs) =
    if c == 43
    then map_nat pos (read_nat cs)
    else if c == 45
    then map_nat negated (read_nat cs)
    else map_nat pos (read_nat (c ∷ cs))

-- `str::parse` of an unsigned type, whose largest number is `largest`.
abbrev pub within : ℕ → Option ℕ → Option ℕ
within largest none = none
within largest (some n) = if leb n largest then some n else none

unfoldable pub parse_uint : ℕ → Bytes → Option ℕ
parse_uint largest [] = none
parse_uint largest (c ∷ cs) =
    if c == 43 then within largest (read_nat cs) else within largest (read_nat (c ∷ cs))

-- The digits of a number; the fuel is more than the number.
unfoldable pub print_digits : ℕ → ℕ → Bytes
print_digits zero n = []
print_digits (suc fuel) n = elim (ltb n 10) [
  | true ↦ (48 + n) ∷ []
  | false ↦ print_digits fuel (n / 10) ++ (48 + n % 10) ∷ []
]

abbrev pub print_nat : ℕ → Bytes
print_nat n = print_digits (suc n) n

-- `to_string` of an `i64`.
abbrev pub print_int : ℤ → Bytes
print_int (pos n) = print_nat n
print_int (negsuc n) = 45 ∷ print_nat (suc n)

read_digits-append :
    (xs : Bytes) (acc m d : ℕ)
    → read_digits acc xs ≡ some m
    → is_digit d ≡ true
    → read_digits acc (xs ++ d ∷ []) ≡ some (m * 10 + (d - 48))
unfolding read_digits
read_digits-append [] acc m d h k = let same : acc ≡ m = cc in rw (k, read_digits) (rw same refl)
read_digits-append (x ∷ xs) acc m d h k = elim (Bool-cases (is_digit x)) [
  | inl e ↦
      rw (e, read_digits)
        (read_digits-append xs (acc * 10 + (x - 48)) m d (rw (e, read_digits) at h) k)
  | inr e ↦ let wrong : Path (Option ℕ) none (some m) = rw (e, read_digits) at h in cc
]

read_digits_one :
    (d n : ℕ) → is_digit d ≡ true → 0 * 10 + (d - 48) ≡ n → read_digits 0 (d ∷ []) ≡ some n
unfolding read_digits
read_digits_one d n h e = rw (h, read_digits) (rw e refl)

print_digits-read : (fuel n : ℕ) → n < fuel → read_digits 0 (print_digits fuel n) ≡ some n
unfolding print_digits
print_digits-read zero n h = absurd (omega arith)
print_digits-read (suc fuel) n h = elim (Bool-cases (ltb n 10)) [
  | inl small ↦
      let digit : is_digit (48 + n) ≡ true = ground arith in
      let value : 0 * 10 + (48 + n - 48) ≡ n = omega arith in
      rw (small, print_digits) (read_digits_one (48 + n) n digit value)
  | inr large ↦
      let digit : is_digit (48 + n % 10) ≡ true = ground arith in
      let value : n / 10 * 10 + (48 + n % 10 - 48) ≡ n = omega arith in
      let less : n / 10 < fuel = ground arith in
      rw (large, print_digits)
        (rw value at (
          read_digits-append (print_digits fuel (n / 10)) 0 (n / 10) (48 + n % 10)
            (print_digits-read fuel (n / 10) less) digit))
]

-- A printed number begins with a digit, so with no sign.
record Digits (n : ℕ) (text : Bytes) : Type 0 where
  first : ℕ
  others : Bytes
  shape : text ≡ first ∷ others
  digit : is_digit first ≡ true
  reads : read_digits 0 text ≡ some n

front : (xs : Bytes) (d : ℕ) → (first : ℕ) × (others : Bytes) × (xs ++ d ∷ [] ≡ first ∷ others)
front [] d = (d, [], refl)
front (x ∷ xs) d = (x, xs ++ d ∷ [], refl)

print_digits-first :
    (fuel n : ℕ)
    → n < fuel
    → (first : ℕ) × (others : Bytes) × (print_digits fuel n ≡ first ∷ others)
unfolding print_digits
print_digits-first zero n h = absurd (omega arith)
print_digits-first (suc fuel) n h = elim (Bool-cases (ltb n 10)) [
  | inl small ↦ (48 + n, [], rw (small, print_digits) refl)
  | inr large ↦
      let (first, others, e) = front (print_digits fuel (n / 10)) (48 + n % 10) in
      (first, others, rw (large, print_digits) e)
]

reads_digit : (d n : ℕ) (ds : Bytes) → read_digits 0 (d ∷ ds) ≡ some n → is_digit d ≡ true
unfolding read_digits
reads_digit d n ds h = elim (Bool-cases (is_digit d)) [
  | inl e ↦ e
  | inr e ↦ let wrong : Path (Option ℕ) none (some n) = rw (e, read_digits) at h in cc
]

print_nat-Digits : (n : ℕ) → Digits n (print_nat n)
print_nat-Digits n =
    let (first, others, e) = print_digits-first (suc n) n (omega arith) in
    let reads = print_digits-read (suc n) n (omega arith) in
    record {
      first = first;
      others = others;
      shape = e;
      digit = reads_digit first n others (rw e at reads);
      reads = reads;
    }

print_nat-read : (n : ℕ) → read_nat (print_nat n) ≡ some n
unfolding read_nat
print_nat-read n = let d = print_nat-Digits n in rw d.shape (rw d.shape at d.reads)

-- What is printed is parsed again.
pub parse_i64-print_int : (i : ℤ) → is_i64 i ≡ true → parse_i64 (print_int i) ≡ some i
unfolding parse_i64
parse_i64-print_int (pos n) h =
    let d = print_nat-Digits n in
    let digit = d.digit in
    let no_plus : (d.first == 43) ≡ false = ground arith in
    let no_minus : (d.first == 45) ≡ false = ground arith in
    let reads = rw d.shape at (print_nat-read n) in
    rw d.shape (rw (no_plus, no_minus) (rw reads (rw h refl)))
parse_i64-print_int (negsuc n) h = rw (print_nat-read (suc n)) (rw h refl)
