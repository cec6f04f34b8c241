-- ===== src/Cursor/Notices.antt =====
-- What src/cursor/replies.rs finds in a whole response: the autocommit status and the server's errors.
pub mod Lines
use monetdb_rust.Prelude.{
  ℕ, suc, Bool, true, false, not, ◌&&◌, ◌||◌, ltb, leb, ◌==◌, List, [], ◌∷◌, ◌++◌, if◌then◌else◌,
  Bytes, codes, length, take, drop, same_bytes, starts_with, get_elem?, Option, none, some,
}

-- `slice.split(test)`: one piece more than there are separators.
abbrev pub cons_first : ℕ → List Bytes → List Bytes
cons_first c [] = (c ∷ []) ∷ []
cons_first c (piece ∷ pieces) = (c ∷ piece) ∷ pieces

unfoldable pub pieces_of : (ℕ → Bool) → Bytes → List Bytes
pieces_of test [] = [] ∷ []
pieces_of test (c ∷ cs) =
    if test c then [] ∷ pieces_of test cs else cons_first c (pieces_of test cs)

abbrev pub is_newline : ℕ → Bool
is_newline c = c == 10

-- `u8::is_ascii_whitespace`
abbrev pub is_whitespace : ℕ → Bool
is_whitespace c = (c == 32) || (c == 9) || (c == 10) || (c == 12) || (c == 13)

-- `find(|field| !field.is_empty())`
abbrev pub first_nonempty : List Bytes → Option Bytes
first_nonempty [] = none
first_nonempty ([] ∷ rest) = first_nonempty rest
first_nonempty ((c ∷ cs) ∷ rest) = some (c ∷ cs)

abbrev pub strip_prefix : Bytes → Bytes → Option Bytes
strip_prefix line prefix' =
    if starts_with line prefix' then some (drop (length prefix') line) else none

abbrev pub flag_of : Option Bytes → Option Bool
flag_of none = none
flag_of (some flag) =
    if same_bytes flag (codes "t")
    then some true
    else if same_bytes flag (codes "f")
    then some false
    else none

-- What stands behind the header of the line.
unfoldable pub autocommit_fields : Bytes → Option Bool
unfolding pieces_of
autocommit_fields [] = none
autocommit_fields (c ∷ cs) =
    if not (is_whitespace c)
    then none
    else flag_of (first_nonempty (pieces_of is_whitespace (c ∷ cs)))

unfoldable pub parse_autocommit_line : Bytes → Option Bool
unfolding autocommit_fields
parse_autocommit_line line = elim (strip_prefix line (codes "&4")) [
  | none ↦ none
  | some rest ↦ autocommit_fields rest
]

-- `filter_map`
abbrev pub keep_some {ℓ} : {A : Type ℓ} → Option A → List A → List A
keep_some none rest = rest
keep_some (some a) rest = a ∷ rest

unfoldable pub filter_map {ℓ κ} : {A : Type ℓ} {B : Type κ} → (A → Option B) → List A → List B
filter_map f [] = []
filter_map f (x ∷ xs) = keep_some (f x) (filter_map f xs)

-- `next_back`
abbrev pub last_of {ℓ} : {A : Type ℓ} → List A → Option A
last_of [] = none
last_of (x ∷ []) = some x
last_of (x ∷ y ∷ ys) = last_of (y ∷ ys)

abbrev pub is_none {ℓ} : {A : Type ℓ} → Option A → Bool
is_none none = true
is_none (some a) = false

pub record ServerError : Type 0 where
  pub sqlstate : Option Bytes
  pub message : Bytes
  pub display : Bytes

abbrev pub is_alphanumeric : ℕ → Bool
is_alphanumeric c = (leb 48 c && leb c 57) || (leb 65 c && leb c 90) || (leb 97 c && leb c 122)

abbrev pub all_alphanumeric : Bytes → Bool
all_alphanumeric [] = true
all_alphanumeric (c ∷ cs) = is_alphanumeric c && all_alphanumeric cs

abbrev pub is_bang : Option ℕ → Bool
is_bang none = false
is_bang (some c) = c == 33

unfoldable pub from_wire : Bytes → ServerError
from_wire display =
    if leb 6 (length display) && is_bang (get_elem? display 5) && all_alphanumeric (take 5 display)
    then record { sqlstate = some (take 5 display); message = drop 6 display; display = display }
    else record { sqlstate = none; message = display; display = display }

unfoldable pub error_message : Bytes → Option Bytes
error_message line = strip_prefix line (codes "!")

-- `memmem` is `memchr::memmem::find`, with the text to search in first, and `lossy` is
-- `String::from_utf8_lossy`.
module _ (memmem : Bytes → Bytes → Option ℕ) where
  unfoldable pub response_autocommit : Bytes → Option Bool
  unfolding pieces_of filter_map parse_autocommit_line
  response_autocommit response =
      if not (starts_with response (codes "&4")) && is_none (memmem response (10 ∷ codes "&4"))
      then none
      else last_of (filter_map parse_autocommit_line (pieces_of is_newline response))

module _ (memmem : Bytes → Bytes → Option ℕ) (lossy : Bytes → Bytes) where
  -- The loop over the messages behind the first.
  unfoldable pub join_messages : Bytes → List Bytes → Bytes
  join_messages result [] = result
  join_messages result (message ∷ messages) = join_messages (result ++ 10 ∷ lossy message) messages

  unfoldable pub error_of : List Bytes → Option ServerError
  unfolding join_messages from_wire
  error_of [] = none
  error_of (first ∷ messages) = some (from_wire (join_messages (lossy first) messages))

  unfoldable pub server_error : Bytes → Option ServerError
  unfolding pieces_of filter_map error_message error_of
  server_error response =
      if not (starts_with response (codes "!")) && is_none (memmem response (10 ∷ codes "!"))
      then none
      else error_of (filter_map error_message (pieces_of is_newline response))
