-- ===== src/Framing/Header.antt =====
-- `Header` of src/framing/blockstate.rs: the two bytes before each block, which hold its size and
-- whether it is the last block of its message.
use monetdb_rust.Prelude.{
  ℕ, ◌+◌, ◌*◌, ◌/◌, ◌%◌, ◌^◌, ◌≤◌, ◌<◌, ◌≡◌, Bool, true, false, [], ◌∷◌, arith, ltb, leb,
  if◌then◌else◌, Bytes, length, Outcome, ok, err, panic,
}

abbrev pub blocksize : ℕ
blocksize = 8190

pub data FramingError : Type 0 where
  invalid_block_size : FramingError
  invalid_header_length : ℕ → FramingError
  message_already_complete : FramingError
  too_long : FramingError

pub record Header : Type 0 where
  pub lo : ℕ
  pub hi : ℕ

abbrev pub bool_to_ℕ : Bool → ℕ
bool_to_ℕ true = 1
bool_to_ℕ false = 0

abbrev pub to_le_bytes : ℕ → Header
to_le_bytes n = record { lo = n % 256; hi = n / 256 % 256 }

abbrev from_le_bytes : Header → ℕ
from_le_bytes h = h.lo + 256 * h.hi

-- `Header::new`; the assertion guards the `u16` arithmetic.
unfoldable pub new : ℕ → Bool → Outcome FramingError Header
new size last =
    if leb size blocksize
    then ok (to_le_bytes ((2 * (size % 2 ^ 16) + bool_to_ℕ last) % 2 ^ 16))
    else panic

-- `Header::size`
unfoldable pub size : Header → ℕ
size h = from_le_bytes h / 2

-- `Header::is_last`: `lo & 1` is the remainder by two.
unfoldable pub is_last : Header → Bool
is_last h = ltb 0 (h.lo % 2)

unfoldable pub from_bytes : Header → Outcome FramingError Header
unfolding size
from_bytes h = if leb (size h) blocksize then ok h else err invalid_block_size

unfoldable pub from_slice : Bytes → Outcome FramingError Header
unfolding from_bytes
from_slice (a ∷ b ∷ []) = from_bytes (record { lo = a; hi = b })
from_slice s = err (invalid_header_length (length s))

-- `Header::as_bytes`
abbrev pub as_bytes : Header → Bytes
as_bytes h = h.lo ∷ h.hi ∷ []

-- Every block size up to the limit has a header, which reads back as that size and that flag, and
-- which the reader accepts.
pub from_slice-new :
    (n : ℕ) (last : Bool)
    → n ≤ blocksize
    → (h : Header) × (new n last ≡ ok h)
      × (from_slice (as_bytes h) ≡ ok h)
      × (size h ≡ n)
      × (is_last h ≡ last)
      × (h.lo < 256)
      × (h.hi < 256)
unfolding new from_slice is_last
from_slice-new n true p = (
  to_le_bytes (2 * n + 1),
  ground arith,
  ground arith,
  omega arith,
  ground arith,
  omega arith,
  omega arith,
)
from_slice-new n false p = (
  to_le_bytes (2 * n + 0),
  ground arith,
  ground arith,
  omega arith,
  ground arith,
  omega arith,
  omega arith,
)
