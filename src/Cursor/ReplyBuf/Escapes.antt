-- ===== src/Cursor/ReplyBuf/Escapes.antt =====
-- What a quoted field of src/cursor/replies.rs stands for: the escapes that a server may write.
use monetdb_rust.Prelude.{ℕ, ◌+◌, ◌*◌, ◌<◌, ◌≡◌, false, [], ◌∷◌, Bytes}
use monetdb_rust.Cursor.Search.{is_either}

-- `\t`, `\n`, `\f`, `\r`, `\\` and `\"`.
pub data Letter : ℕ → ℕ → Type 0 where
  tab : Letter 116 9
  newline : Letter 110 10
  form_feed : Letter 102 12
  carriage_return : Letter 114 13
  backslash : Letter 92 92
  quote : Letter 34 34

-- `Escapes body value`: the text between the quotes, and the bytes it stands for. A byte is written as
-- itself, as a letter, or as three octal digits; quotes and backslashes are not written as themselves.
pub data Escapes : Bytes → Bytes → Type 0 where
  nothing : Escapes [] []
  itself :
      {b : ℕ} {body value : Bytes}
      → is_either 34 92 b ≡ false
      → Escapes body value
      → Escapes (b ∷ body) (b ∷ value)
  letter :
      {c b : ℕ} {body value : Bytes}
      → Letter c b
      → Escapes body value
      → Escapes (92 ∷ c ∷ body) (b ∷ value)
  digits :
      (x y z : ℕ) {body value : Bytes}
      → x < 4
      → y < 8
      → z < 8
      → Escapes body value
      → Escapes (92 ∷ (48 + x) ∷ (48 + y) ∷ (48 + z) ∷ body) ((64 * x + 8 * y + z) ∷ value)
