-- ===== src/Convert/Tests.antt =====
-- Runs of the conversions at concrete inputs, and the properties at inputs that meet their hypotheses.
use monetdb_rust.Prelude.{◌≡◌, refl, true, false, ◌∷◌, ◌++◌, arith, codes, checked_sub, ok, err}
use monetdb_rust.Convert.RawDecimal.{
  out_of_range, parse_unsigned, parse_digits, digit_loop, conclude, multiply_accumulate, at_scale,
  eq, from_str,
}
use monetdb_rust.Convert.RawDecimal.Parse.{parse_unsigned-digits}

-- Zero at three scales, as numbers of one byte: equality is not transitive.
zero_two : eq 255 (record { number = 0; scale = 0 }) (record { number = 0; scale = 2 }) ≡ true
unfolding eq at_scale checked_sub
zero_two = refl

two_four : eq 255 (record { number = 0; scale = 2 }) (record { number = 0; scale = 4 }) ≡ true
unfolding eq at_scale checked_sub
two_four = refl

zero_four : eq 255 (record { number = 0; scale = 0 }) (record { number = 0; scale = 4 }) ≡ false
unfolding eq at_scale checked_sub
zero_four = refl

one_too_many : from_str 255 (codes "25.6") ≡ err out_of_range
unfolding from_str parse_unsigned parse_digits digit_loop conclude multiply_accumulate
one_too_many = refl

parse_unsigned-digits_example :
    parse_unsigned 65535 (codes "99" ++ 46 ∷ (codes "05" ++ codes "foo"))
    ≡ ok (record { number = 9905; scale = 2 }, codes "foo")
parse_unsigned-digits_example =
    parse_unsigned-digits 65535 (codes "99") (codes "05") (codes "foo") (refl, (refl, tt))
      (refl, (refl, tt)) (omega arith) (omega arith) (refl, refl)
