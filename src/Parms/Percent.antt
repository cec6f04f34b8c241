-- ===== src/Parms/Percent.antt =====
-- Percent coding of src/parms/urlparser.rs, by which parameters stand in URLs.
pub mod RoundTrip
pub mod Total
use monetdb_rust.Prelude.{
  ℕ, suc, ◌+◌, ◌-◌, ◌*◌, ◌/◌, ◌%◌, Bool, true, false, ◌&&◌, ◌||◌, [], ◌∷◌, ◌++◌, leb, ◌==◌,
  if◌then◌else◌, Bytes, take, drop, Option, none, some, Outcome, ok, err, panic, ◌>>=◌,
}
use monetdb_rust.Parms.Errors.{ParmError, invalid_percent_encoding, invalid_percent_utf8}

unfoldable pub unhex : ℕ → Outcome ParmError ℕ
unhex digit =
    if leb 48 digit && leb digit 57
    then ok (digit - 48)
    else if leb 97 digit && leb digit 102
    then ok (digit - 97 + 10)
    else if leb 65 digit && leb digit 70
    then ok (digit - 65 + 10)
    else err invalid_percent_encoding

-- The loop over the bytes.
unfoldable pub decode_loop : Bytes → Outcome ParmError Bytes
decode_loop [] = ok []
decode_loop (b ∷ []) = if b == 37 then err invalid_percent_encoding else ok (b ∷ [])
decode_loop (b ∷ c ∷ []) = elim (b == 37) [
  | false ↦ do tail ← decode_loop (c ∷ []); ok (b ∷ tail)
  | true ↦ err invalid_percent_encoding
]
decode_loop (b ∷ hi ∷ lo ∷ rest) = elim (b == 37) [
  | false ↦ do tail ← decode_loop (hi ∷ lo ∷ rest); ok (b ∷ tail)
  | true ↦ do h ← unhex hi; l ← unhex lo; tail ← decode_loop rest; ok ((16 * h + l) ∷ tail)
]

-- The place of the first percent sign.
unfoldable pub percent_position : Bytes → Option ℕ
percent_position [] = none
percent_position (b ∷ bs) =
    if b == 37 then some 0 else elim (percent_position bs) [ none ↦ none | some n ↦ some (suc n) ]

-- `is_utf8` is the check of `String::from_utf8`.
unfoldable pub percent_decode : (is_utf8 : Bytes → Bool) → Bytes → Outcome ParmError Bytes
percent_decode is_utf8 data' = elim (percent_position data') [
  | none ↦ ok data'
  | some idx ↦ do
    tail ← decode_loop (drop idx data')
    let buf = take idx data' ++ tail
    if is_utf8 buf then ok buf else err invalid_percent_utf8
]

unfoldable pub is_safe : ℕ → Bool
is_safe byte =
    (leb 97 byte && leb byte 122)
    || (leb 65 byte && leb byte 90)
    || (leb 48 byte && leb byte 57)
    || (byte == 45)
    || (byte == 46)
    || (byte == 95)
    || (byte == 126)

-- `HEX_DIGITS[n]`
unfoldable pub hex_digit : ℕ → ℕ
hex_digit n = if leb 10 n then 97 + (n - 10) else 48 + n

-- The bytes that `percent_encode` pushes to its buffer.
unfoldable pub percent_encode : Bytes → Bytes
percent_encode [] = []
percent_encode (byte ∷ s) =
    if is_safe byte
    then byte ∷ percent_encode s
    else 37 ∷ hex_digit (byte / 16) ∷ hex_digit (byte % 16) ∷ percent_encode s
