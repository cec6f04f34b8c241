-- ===== src/Parms/Validated/Checks.antt =====
-- The checks of single values in `Validated::new`.
use monetdb_rust.Prelude.{
  ℕ, zero, suc, ◌+◌, ◌-◌, ◌*◌, ◌^◌, Bool, true, false, not, ◌&&◌, ◌||◌, ltb, leb, ◌==◌, [], ◌∷◌,
  if◌then◌else◌, Bytes, codes, length, drop, starts_with, Option, none, some, Outcome, ok, err,
  ◌>>=◌, ok_or, ℤ, pos, negsuc,
}
use monetdb_rust.Parms.Parm.{Parm}
use monetdb_rust.Parms.Errors.{ParmError, invalid_value}

abbrev pub is_empty : Bytes → Bool
is_empty [] = true
is_empty (_ ∷ _) = false

-- `contains` of a text and a byte.
abbrev pub contains : Bytes → ℕ → Bool
contains [] c = false
contains (x ∷ xs) c = (x == c) || contains xs c

abbrev pub is_alphanumeric : ℕ → Bool
is_alphanumeric c = (leb 48 c && leb c 57) || (leb 65 c && leb c 90) || (leb 97 c && leb c 122)

abbrev pub is_name_char : ℕ → Bool
is_name_char c = is_alphanumeric c || (c == 45) || (c == 46) || (c == 95)

-- `s.chars().all(valid)`; no byte of a character that is not ASCII is valid.
abbrev pub all_name_chars : Bytes → Bool
all_name_chars [] = true
all_name_chars (c ∷ cs) = is_name_char c && all_name_chars cs

unfoldable pub valid_name : Parm → Bytes → Outcome ParmError Bytes
valid_name parm name =
    if not (all_name_chars name)
    then err (invalid_value parm)
    else if starts_with name (codes "-")
    then err (invalid_value parm)
    else ok name

-- `crate::framing::MAX_TIMEOUT_SECONDS`
abbrev pub max_timeout_seconds : ℕ
max_timeout_seconds = 4294967

-- `in_reach` says whether the clock can represent the time in so many seconds from now.
unfoldable pub valid_timeout : (in_reach : ℕ → Bool) → Parm → ℤ → Outcome ParmError (Option ℕ)
valid_timeout in_reach parm (negsuc _) = err (invalid_value parm)
valid_timeout in_reach parm (pos zero) = ok none
valid_timeout in_reach parm (pos (suc n)) =
    if leb (suc n) max_timeout_seconds
    then if in_reach (suc n) then ok (some (suc n)) else err (invalid_value parm)
    else err (invalid_value parm)

-- The loop over the fingerprint.
unfoldable pub fingerprint_digits : Bytes → Outcome ParmError Bytes
fingerprint_digits [] = ok []
fingerprint_digits (c ∷ cs) = elim ((leb 48 c && leb c 57) || (leb 97 c && leb c 102)) [
  | true ↦ do rest ← fingerprint_digits cs; ok (c ∷ rest)
  | false ↦ elim (leb 65 c && leb c 70) [
    | true ↦ do rest ← fingerprint_digits cs; ok ((c + 32) ∷ rest)
    | false ↦ if c == 58 then fingerprint_digits cs else err (invalid_value Parm.cert_hash)
  ]
]

unfoldable pub valid_certhash : Bytes → Outcome ParmError Bytes
valid_certhash certhash =
    if starts_with certhash (codes "sha256:")
    then (do
      digits ← fingerprint_digits (drop 7 certhash)
      if leb 16 (length digits) && leb (length digits) 64
          then ok digits
          else err (invalid_value Parm.cert_hash))
    else err (invalid_value Parm.cert_hash)

-- Number 5 of the checks.
unfoldable pub certhash_digits : Bytes → Outcome ParmError Bytes
certhash_digits certhash = if is_empty certhash then ok [] else valid_certhash certhash

unfoldable pub port_number : ℤ → Outcome ParmError ℕ
port_number (negsuc zero) = ok 50000
port_number (negsuc (suc _)) = err (invalid_value Parm.port)
port_number (pos n) = if leb 1 n && leb n 65535 then ok n else err (invalid_value Parm.port)

-- `i32::try_from` and `checked_mul(60)`
unfoldable pub seconds_of : ℤ → Option ℤ
seconds_of (pos n) = if ltb n (2 ^ 31) && ltb (n * 60) (2 ^ 31) then some (pos (n * 60)) else none
seconds_of (negsuc n) =
    if ltb n (2 ^ 31) && leb (suc n * 60) (2 ^ 31) then some (negsuc (suc n * 60 - 1)) else none

unfoldable pub timezone_seconds : Bool → ℤ → Outcome ParmError (Option ℤ)
timezone_seconds false minutes = ok none
timezone_seconds true minutes = do
  seconds ← ok_or (seconds_of minutes) (invalid_value Parm.timezone)
  ok (some seconds)

-- `usize::try_from`, and not zero.
unfoldable pub positive : Parm → ℤ → Outcome ParmError ℕ
positive parm (negsuc _) = err (invalid_value parm)
positive parm (pos n) = if n == 0 then err (invalid_value parm) else ok n

unfoldable pub prefetch_limit : ℤ → Outcome ParmError (Option ℕ)
prefetch_limit (pos n) = ok (some n)
prefetch_limit (negsuc zero) = ok none
prefetch_limit (negsuc (suc _)) = err (invalid_value Parm.max_prefetch)
