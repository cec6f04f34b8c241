-- ===== src/Convert/RawDecimal/Parse.antt =====
-- What the parser of src/convert/raw_decimal.rs makes of a decimal number.
use monetdb_rust.Prelude.{
  ℕ, suc, ◌+◌, ◌-◌, ◌*◌, ◌≤◌, ◌<◌, ◌≡◌, refl, ◌∙◌, Bool, true, false, not, ◌&&◌, inl, inr, [], ◌∷◌,
  ◌++◌, arith, ltb, leb, ◌==◌, if◌then◌else◌, Bytes, length, length-append, Outcome, ok, err,
  Bool-cases, is_digit,
}
use monetdb_rust.Convert.RawDecimal.{
  InvalidDecimal, out_of_range, digit_loop, conclude, parse_digits, fit, multiply_accumulate,
  parse_unsigned,
}

abbrev pub AllDigits : Bytes → Type 0
AllDigits [] = Unit
AllDigits (d ∷ ds) = (is_digit d ≡ true) × AllDigits ds

-- The number that digits stand for, behind the number in front of them.
abbrev pub value : ℕ → Bytes → ℕ
value acc [] = acc
value acc (d ∷ ds) = value (acc * 10 + (d - 48)) ds

value_mono : (ds : Bytes) (acc : ℕ) → acc ≤ value acc ds
value_mono [] acc = omega arith
value_mono (d ∷ ds) acc = omega (arith, value_mono ds (acc * 10 + (d - 48)))

value-append : (ds fs : Bytes) (acc : ℕ) → value acc (ds ++ fs) ≡ value (value acc ds) fs
value-append [] fs acc = refl
value-append (d ∷ ds) fs acc = value-append ds fs (acc * 10 + (d - 48))

multiply_accumulate-fit :
    (max acc digit : ℕ) → multiply_accumulate max acc digit ≡ fit max (acc * 10 + digit)
unfolding multiply_accumulate
multiply_accumulate-fit max acc digit = ground arith

abbrev loop : ℕ → Bytes → ℕ → Bool → ℕ → Outcome InvalidDecimal (ℕ × ℕ × Bool × Bytes)
loop max = digit_loop (λ (n : ℕ). n) (multiply_accumulate max)

loop_digit :
    (max d : ℕ) (rest : Bytes) (scale : ℕ) (saw : Bool) (acc : ℕ)
    → is_digit d ≡ true
    → scale < 255
    → loop max (d ∷ rest) scale saw acc ≡ (
        if leb (acc * 10 + (d - 48)) max
        then loop max rest (scale + 1) saw (acc * 10 + (d - 48))
        else err out_of_range)
unfolding digit_loop
loop_digit max d rest scale saw acc p l =
    let new = acc * 10 + (d - 48) in
    let up : ltb scale 255 ≡ true = ground arith in
    rw (p, digit_loop)
      (rw multiply_accumulate-fit (elim (Bool-cases (leb new max)) [
        | inl fits ↦ rw fits (rw up refl)
        | inr over ↦ rw over refl
      ]))

loop_period :
    (max : ℕ) (rest : Bytes) (scale acc : ℕ)
    → loop max (46 ∷ rest) scale false acc ≡ loop max rest 0 true acc
unfolding digit_loop
loop_period max rest scale acc = refl

-- The number does not go on with these bytes.
abbrev pub Stops : Bool → Bytes → Type 0
Stops saw [] = Unit
Stops saw (d ∷ rest) = (is_digit d ≡ false) × (((d == 46) && not saw) ≡ false)

loop-Stops :
    (max : ℕ) (rest : Bytes) (scale : ℕ) (saw : Bool) (acc : ℕ)
    → Stops saw rest
    → loop max rest scale saw acc ≡ ok (acc, scale, saw, rest)
unfolding digit_loop
loop-Stops max [] scale saw acc s = refl
loop-Stops max (d ∷ rest) scale saw acc (p, q) = rw (p, digit_loop) (rw (q, digit_loop) refl)

loop-digits :
    (max : ℕ) (ds tail : Bytes) (scale : ℕ) (saw : Bool) (acc : ℕ)
    → AllDigits ds
    → scale + length ds ≤ 255
    → acc ≤ max
    → loop max (ds ++ tail) scale saw acc ≡ (
        if leb (value acc ds) max
        then loop max tail (scale + length ds) saw (value acc ds)
        else err out_of_range)
loop-digits max [] tail scale saw acc a l h =
    let here : scale + 0 ≡ scale = omega arith in
    let fits : leb acc max ≡ true = ground arith in rw (here, fits) refl
loop-digits max (d ∷ ds) tail scale saw acc (p, a) l h =
    let new = acc * 10 + (d - 48) in
    let place : scale + suc (length ds) ≡ scale + 1 + length ds = omega arith in
    loop_digit max d (ds ++ tail) scale saw acc p (omega arith) ∙ elim (Bool-cases (leb new max)) [
      | inl fits ↦
          rw (fits, place)
            (loop-digits max ds tail (scale + 1) saw new a (omega arith) (ground arith))
      | inr over ↦
          let over' : leb (value new ds) max ≡ false = ground (arith, value_mono ds new) in
          rw (over, over') refl
    ]

-- A decimal number with at most 255 digits in front of the point and behind it, in a text that does not
-- go on with a digit: `parse_unsigned` returns the number that the digits stand for, without the point,
-- the number of digits behind it, and the text behind; if that number is above the largest one of the
-- type, it refuses it as out of range.
pub parse_unsigned-digits :
    (max : ℕ) (ds fs rest : Bytes)
    → AllDigits ds
    → AllDigits fs
    → length ds ≤ 255
    → length fs ≤ 255
    → Stops true rest
    → parse_unsigned max (ds ++ 46 ∷ (fs ++ rest)) ≡ (
        if leb (value 0 (ds ++ fs)) max
        then ok (record { number = value 0 (ds ++ fs); scale = length fs }, rest)
        else err out_of_range)
unfolding parse_unsigned parse_digits conclude
parse_unsigned-digits max ds fs rest a b l k s =
    let first = loop-digits max ds (46 ∷ (fs ++ rest)) 0 false 0 a (omega arith) (omega arith) in
    let second = loop-digits max fs rest 0 true (value 0 ds) b (omega arith) in
    let none_more : 0 + length fs ≡ length fs = omega arith in
    let longer : (length rest == length (ds ++ 46 ∷ (fs ++ rest))) ≡ false =
      ground (arith, length-append ds (46 ∷ (fs ++ rest)), length-append fs rest) in
    rw (value-append, first)
      (elim (Bool-cases (leb (value 0 ds) max)) [
        | inl fits ↦ rw fits (
            rw (loop_period max (fs ++ rest) (0 + length ds) (value 0 ds)) (
              rw (second (ground arith)) (elim (Bool-cases (leb (value (value 0 ds) fs) max)) [
                | inl fits' ↦ rw fits' (
                    rw (loop-Stops max rest (0 + length fs) true (value (value 0 ds) fs) s)
                      (rw longer (rw none_more refl)))
                | inr over ↦ rw over refl
              ])))
        | inr over ↦
            let over' : leb (value (value 0 ds) fs) max ≡ false =
              ground (arith, value_mono fs (value 0 ds)) in
            rw (over, over') refl
      ])
