-- ===== src/Convert/RawDecimal.antt =====
-- `RawDecimal` of src/convert/raw_decimal.rs, for the unsigned types: a number and a scale.
pub mod Parse
use monetdb_rust.Prelude.{
  ℕ, zero, suc, ◌+◌, ◌-◌, ◌*◌, ◌^◌, ◌≤◌, Bool, true, false, not, ◌&&◌, [], ◌∷◌, ltb, leb, ◌==◌,
  if◌then◌else◌, Bytes, length, Option, none, some, Outcome, ok, err, panic, ◌>>=◌, ok_or,
  checked_sub, max, is_digit,
}

pub data InvalidDecimal : Type 0 where
  out_of_range : InvalidDecimal
  unexpected_character : ℕ → InvalidDecimal
  empty : InvalidDecimal

pub record RawDecimal (T : Type 0) : Type 0 where
  pub number : T
  pub scale : ℕ

-- `u8::checked_add(scale, 1)`
abbrev pub next_scale : ℕ → Option ℕ
next_scale scale = if ltb scale 255 then some (scale + 1) else none

module _ {T : Type 0} (small_constant : ℕ → T) (accumulate : T → ℕ → Option T) where
  -- The loop of `parse_digits`: what it stops with, and the bytes that are left.
  unfoldable pub digit_loop : Bytes → ℕ → Bool → T → Outcome InvalidDecimal (T × ℕ × Bool × Bytes)
  digit_loop [] scale saw_period acc = ok (acc, scale, saw_period, [])
  digit_loop (d ∷ rest) scale saw_period acc = elim (is_digit d) [
    | true ↦ do
      new ← ok_or (accumulate acc (d - 48)) out_of_range
      scale ← ok_or (next_scale scale) out_of_range
      digit_loop rest scale saw_period new
    | false ↦ elim ((d == 46) && not saw_period) [
      | true ↦ digit_loop rest 0 true acc
      | false ↦ ok (acc, scale, saw_period, d ∷ rest)
    ]
  ]

  -- What `parse_digits` makes of the end of the loop.
  unfoldable pub conclude :
      Bytes → (T × ℕ × Bool × Bytes) → Outcome InvalidDecimal (RawDecimal T × Bytes)
  conclude orig_digits (acc, scale, saw_period, digits) =
      if length digits == length orig_digits
      then (elim digits [ [] ↦ err empty | first ∷ _ ↦ err (unexpected_character first) ])
      else ok (record { number = acc; scale = if saw_period then scale else 0 }, digits)

  unfoldable pub parse_digits : Bytes → Outcome InvalidDecimal (RawDecimal T × Bytes)
  parse_digits digits = do
    stopped ← digit_loop digits 0 false (small_constant 0)
    conclude digits stopped

-- `checked_mul`, `checked_add` and `checked_pow` of an unsigned type whose largest number is `largest`.
abbrev pub fit : ℕ → ℕ → Option ℕ
fit largest n = if leb n largest then some n else none

unfoldable pub multiply_accumulate : ℕ → ℕ → ℕ → Option ℕ
multiply_accumulate largest acc digit = elim (fit largest (acc * 10)) [
  | none ↦ none
  | some n ↦ fit largest (n + digit)
]

unfoldable pub parse_unsigned : ℕ → Bytes → Outcome InvalidDecimal (RawDecimal ℕ × Bytes)
parse_unsigned largest digits = parse_digits (λ n. n) (multiply_accumulate largest) digits

-- `FromStr` of the unsigned types.
unfoldable pub from_str : ℕ → Bytes → Outcome InvalidDecimal (RawDecimal ℕ)
from_str largest s = do
  (dec, rest) ← parse_unsigned largest s
  elim rest [ [] ↦ ok dec | first ∷ _ ↦ err (unexpected_character first) ]

unfoldable pub at_scale : ℕ → RawDecimal ℕ → ℕ → Option ℕ
at_scale largest self s = elim (checked_sub s self.scale) [
  | none ↦ none
  | some up ↦ elim (fit largest (10 ^ up)) [
    | none ↦ none
    | some sc ↦ fit largest (self.number * sc)
  ]
]

-- `==` of the unsigned types: both are brought to the larger scale, and differ where one does not fit.
unfoldable pub eq : ℕ → RawDecimal ℕ → RawDecimal ℕ → Bool
unfolding at_scale
eq largest self other =
    let highest = max self.scale other.scale in
    elim (at_scale largest self highest) [
      | none ↦ false
      | some left ↦ elim (at_scale largest other highest) [
        | none ↦ false
        | some right ↦ left == right
      ]
    ]
