-- ===== src/Cursor/Replies/Columns.antt =====
-- What the lines of metadata say of a column.
use monetdb_rust.Prelude.{
  ◌-◌, ◌^◌, true, false, ◌||◌, ◌==◌, [], ◌∷◌, ◌++◌, if◌then◌else◌, Bytes, codes, Option, none, some,
  Outcome, ok, err, panic, ◌>>=◌, parse_uint,
}
use monetdb_rust.Cursor.ReplyBuf.{BadReply, invalid_quoted_identifier}
use monetdb_rust.Cursor.Types.{MonetType, bool, decimal, varchar, from_mapi_code}
use monetdb_rust.Cursor.Replies.{ResultColumn}
use monetdb_rust.Cursor.Replies.Headers.{split_once_on}

abbrev pub empty_column : ResultColumn
empty_column = record { table_name = []; name = []; typ = bool }

-- The loop over the characters between the quotes.
unfoldable pub decode_name_loop : Bytes → Outcome BadReply Bytes
decode_name_loop [] = ok []
decode_name_loop (c ∷ []) = if c == 92 then err invalid_quoted_identifier else ok (c ∷ [])
decode_name_loop (c ∷ d ∷ rest) = elim (c == 92) [
  | false ↦ do tail ← decode_name_loop (d ∷ rest); ok (c ∷ tail)
  | true ↦ elim ((d == 34) || (d == 92)) [
    | true ↦ do tail ← decode_name_loop rest; ok (d ∷ tail)
    | false ↦ err invalid_quoted_identifier
  ]
]

-- `strip_suffix('"')`
unfoldable pub strip_quote : Bytes → Option Bytes
strip_quote [] = none
strip_quote (c ∷ []) = if c == 34 then some [] else none
strip_quote (c ∷ d ∷ rest) = elim (strip_quote (d ∷ rest)) [
  | none ↦ none
  | some inner ↦ some (c ∷ inner)
]

unfoldable pub decode_column_name : Bytes → Outcome BadReply Bytes
unfolding decode_name_loop strip_quote
decode_column_name [] = ok []
decode_column_name (c ∷ cs) = elim (c == 34) [
  | false ↦ ok (c ∷ cs)
  | true ↦ elim (strip_quote cs) [
    | none ↦ err invalid_quoted_identifier
    | some inner ↦ decode_name_loop inner
  ]
]

abbrev pub ok_option : Outcome BadReply Bytes → Option Bytes
ok_option (ok a) = some a
ok_option (err e) = none
ok_option panic = none

unfoldable pub set_table_name : ResultColumn → Bytes → Option ResultColumn
set_table_name col s =
    some record { table_name = col.table_name ++ s; name = col.name; typ = col.typ }

unfoldable pub set_name : ResultColumn → Bytes → Option ResultColumn
unfolding decode_column_name
set_name col s = elim (ok_option (decode_column_name s)) [
  | none ↦ none
  | some decoded ↦
      some record { table_name = col.table_name; name = col.name ++ decoded; typ = col.typ }
]

abbrev pub with_type : ResultColumn → MonetType → ResultColumn
with_type col typ = record { table_name = col.table_name; name = col.name; typ = typ }

unfoldable pub set_type : ResultColumn → Bytes → Option ResultColumn
unfolding from_mapi_code
set_type col s = elim (from_mapi_code s) [ none ↦ none | some typ ↦ some (with_type col typ) ]

-- The number that a type holds is replaced where the type is one that has it.
abbrev pub with_length : MonetType → Bytes → Option MonetType
with_length (varchar n) s = elim (parse_uint (2 ^ 32 - 1) s) [
  | none ↦ none
  | some width ↦ some (varchar width)
]
with_length typ s = some typ

unfoldable pub set_length : ResultColumn → Bytes → Option ResultColumn
set_length col s = elim (with_length col.typ s) [
  | none ↦ none
  | some typ ↦ some (with_type col typ)
]

abbrev pub decimal_of : Option (Bytes × Bytes) → Option MonetType
decimal_of none = none
decimal_of (some (pr, sc)) = elim (parse_uint 255 pr) [
  | none ↦ none
  | some precision ↦ elim (parse_uint 255 sc) [
    | none ↦ none
    | some scale ↦ some (decimal precision scale)
  ]
]

abbrev pub with_typesizes : MonetType → Bytes → Option MonetType
with_typesizes (decimal p q) s = decimal_of (split_once_on (codes " ") s)
with_typesizes typ s = some typ

unfoldable pub set_typesizes : ResultColumn → Bytes → Option ResultColumn
set_typesizes col s = elim (with_typesizes col.typ s) [
  | none ↦ none
  | some typ ↦ some (with_type col typ)
]
