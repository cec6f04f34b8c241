-- ===== src/Cursor/RowSet/Text.antt =====
-- The text of a row, as the server sends it and src/cursor/rowset.rs reads it.
use monetdb_rust.Prelude.{
  ℕ, ◌≡◌, false, List, [], ◌∷◌, ◌++◌, Bytes, codes, same_bytes, Option, none, some,
}
use monetdb_rust.Cursor.Search.{Without, is_byte, is_either}
use monetdb_rust.Cursor.ReplyBuf.Escapes.{Escapes}

-- The text of one field and its value: `NULL`, a bare text that could not be taken for anything else,
-- or a text in quotes.
pub data Cell : Bytes → Option Bytes → Type 0 where
  null : Cell (codes "NULL") none
  bare :
      {c : ℕ} {cs : Bytes}
      → is_either 93 34 c ≡ false
      → Without (is_byte 9) (c ∷ cs)
      → same_bytes (c ∷ cs) (codes "NULL") ≡ false
      → Cell (c ∷ cs) (some (c ∷ cs))
  quoted : {body value : Bytes} → Escapes body value → Cell (34 ∷ (body ++ 34 ∷ [])) (some value)

-- The fields of a row: commas between them, and a tab behind each.
pub data Cells : Bytes → List (Option Bytes) → Type 0 where
  last :
      {text : Bytes} {value : Option Bytes} → Cell text value → Cells (text ++ 9 ∷ []) (value ∷ [])
  more :
      {text texts : Bytes} {value : Option Bytes} {values : List (Option Bytes)}
      → Cell text value
      → Cells texts values
      → Cells (text ++ 44 ∷ 9 ∷ texts) (value ∷ values)
