-- ===== src/Cursor/Replies/Headers.antt =====
-- The header lines of replies, and the lines of metadata, of src/cursor/replies.rs.
use monetdb_rust.Prelude.{
  ℕ, zero, suc, ◌+◌, Bool, true, false, not, ◌&&◌, ◌==◌, List, [], ◌∷◌, if◌then◌else◌, Bytes, codes,
  length, drop, same_bytes, starts_with, Option, none, some, Outcome, ok, err, ◌>>=◌, ◌>>◌, ensure,
  is_digit,
}
use monetdb_rust.Cursor.Search.{Search}
use monetdb_rust.Cursor.ReplyBuf.{
  ReplyBuf, BadReply, expected_prefix, not_enough_items, cannot_parse_item, expected_hash,
  expected_header, too_many_in_header, too_few_in_header, bad_column, unicode, invalid_header,
  unexpected_header, split, split_str,
}
use monetdb_rust.Cursor.RowSet.{forget_buf}
use monetdb_rust.Cursor.Notices.{is_whitespace, pieces_of, cons_first}

-- `trim_ascii`
abbrev pub trim_start : Bytes → Bytes
trim_start [] = []
trim_start (c ∷ cs) = if is_whitespace c then trim_start cs else c ∷ cs

abbrev pub cons_unless_blank : ℕ → Bytes → Bytes
cons_unless_blank c [] = if is_whitespace c then [] else c ∷ []
cons_unless_blank c (d ∷ ds) = c ∷ d ∷ ds

abbrev pub trim_end : Bytes → Bytes
trim_end [] = []
trim_end (c ∷ cs) = cons_unless_blank c (trim_end cs)

abbrev pub trim_ascii : Bytes → Bytes
trim_ascii s = trim_end (trim_start s)

abbrev pub is_space : ℕ → Bool
is_space c = c == 32

-- `&<digit> `
abbrev pub has_header_prefix : Bytes → Bool
has_header_prefix (a ∷ b ∷ c ∷ _) = (a == 38) && is_digit b && (c == 32)
has_header_prefix _ = false

-- The loop over the numbers that are asked for; `n` is how many, `i` the first of the places left.
unfoldable pub read_items :
    {T : Type 0}
    → (parse : Bytes → Option T) → (n i left : ℕ) → Bytes
    → List Bytes
    → Outcome BadReply (List T)
read_items parse n i zero line parts = ok []
read_items parse n i (suc left) line [] = err (invalid_header (not_enough_items n line))
read_items parse n i (suc left) line (p ∷ parts) = elim (parse p) [
  | none ↦ err (invalid_header (cannot_parse_item i line))
  | some value ↦ do rest ← read_items parse n (i + 1) left line parts; ok (value ∷ rest)
]

unfoldable pub parse_header_line :
    {T : Type 0} → (parse : Bytes → Option T) → ℕ → Bytes → Outcome BadReply (List T)
unfolding read_items pieces_of
parse_header_line parse n line = do
  ensure (has_header_prefix line) (invalid_header (expected_prefix line))
  read_items parse n 0 n line (pieces_of is_space (drop 3 line))

-- `split_once` of a text.
abbrev pub cons_front : ℕ → Option (Bytes × Bytes) → Option (Bytes × Bytes)
cons_front c none = none
cons_front c (some (front, behind)) = some (c ∷ front, behind)

unfoldable pub split_once_on : Bytes → Bytes → Option (Bytes × Bytes)
split_once_on sep [] = if starts_with [] sep then some ([], []) else none
split_once_on sep (c ∷ cs) =
    if starts_with (c ∷ cs) sep
    then some ([], drop (length sep) (c ∷ cs))
    else cons_front c (split_once_on sep cs)

-- `split(",\t")`
unfoldable pub split_fields : Bytes → List Bytes
split_fields [] = [] ∷ []
split_fields (c ∷ []) = (c ∷ []) ∷ []
split_fields (c ∷ d ∷ rest) = elim ((c == 44) && (d == 9)) [
  | true ↦ [] ∷ split_fields rest
  | false ↦ cons_first c (split_fields (d ∷ rest))
]

-- The loop over the columns; `f` is the update of one column by its part of the line.
unfoldable pub update_columns :
    {C : Type 0} → (f : C → Bytes → Option C) → ℕ → List C → List Bytes → Outcome BadReply (List C)
update_columns f i [] [] = ok []
update_columns f i (col ∷ cols) [] = err (invalid_header too_few_in_header)
update_columns f i [] (part ∷ parts) = err (invalid_header too_many_in_header)
update_columns f i (col ∷ cols) (part ∷ parts) = elim (f col part) [
  | none ↦ err (invalid_header (bad_column i))
  | some col' ↦ do rest ← update_columns f (i + 1) cols parts; ok (col' ∷ rest)
]

-- The line of a data header, from its kind and its body.
unfoldable pub update_from_line :
    {C : Type 0} → (f : C → Bytes → Option C) → Bytes → List C → Bytes → Outcome BadReply (List C)
unfolding split_once_on split_fields update_columns
update_from_line f expected_kind cols line =
    if not (starts_with line (codes "% "))
    then err (unexpected_header line)
    else elim (split_once_on (codes " # ") (drop 2 line)) [
      | none ↦ err (invalid_header expected_hash)
      | some (body, kind) ↦ do
        ensure (same_bytes kind expected_kind) (invalid_header (expected_header expected_kind kind))
        update_columns f 0 cols (split_fields body)
    ]

module _ (search : Search) (is_utf8 : Bytes → Bool) where
  unfoldable pub parse_header :
      {T : Type 0}
      → (parse : Bytes → Option T) → ℕ
      → ReplyBuf
      → Outcome BadReply (List T × ReplyBuf)
  unfolding split_str parse_header_line
  parse_header parse n buf = do
    (line, buf') ← forget_buf (split_str search is_utf8 buf 10 (codes "header line"))
    items ← parse_header_line parse n (trim_ascii line)
    ok (items, buf')

  unfoldable pub parse_export_header :
      {T : Type 0}
      → (parse : Bytes → Option T) → ℕ
      → ReplyBuf
      → Outcome BadReply (List T × ReplyBuf)
  unfolding split_str parse_header_line
  parse_export_header parse n buf = do
    (line, buf') ← forget_buf (split_str search is_utf8 buf 10 (codes "header line"))
    ensure (starts_with (trim_ascii line) (codes "&6 "))
        (invalid_header (expected_prefix (trim_ascii line)))
    items ← parse_header_line parse n (trim_ascii line)
    ok (items, buf')

  unfoldable pub parse_data_header :
      {C : Type 0}
      → (f : C → Bytes → Option C) → Bytes
      → List C
      → ReplyBuf
      → Outcome BadReply (List C × ReplyBuf)
  unfolding split update_from_line
  parse_data_header f expected_kind cols buf = do
    (line, buf') ← forget_buf (split search buf 10)
    ensure (is_utf8 line) (unicode (codes "data header line"))
    cols' ← update_from_line f expected_kind cols line
    ok (cols', buf')
