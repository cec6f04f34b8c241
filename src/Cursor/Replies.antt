-- ===== src/Cursor/Replies.antt =====
-- `ReplyParser` and `ResultSet` of src/cursor/replies.rs.
pub mod Headers
pub mod Columns
pub mod Parse
pub mod Sound
pub mod Stuck
pub mod Parsed
pub mod Accepted
use monetdb_rust.Prelude.{ℕ, Bool, List, Bytes, Option, ℤ}
use monetdb_rust.Cursor.ReplyBuf.{ReplyBuf}
use monetdb_rust.Cursor.RowSet.{RowSet}
use monetdb_rust.Cursor.Types.{MonetType}

pub record ResultColumn : Type 0 where
  pub table_name : Bytes
  pub name : Bytes
  pub typ : MonetType

pub record ResultSet : Type 0 where
  pub result_id : ℕ
  pub prepared : Bool
  pub next_row : ℕ
  pub total_rows : ℕ
  pub rows_included : ℕ
  pub columns : List ResultColumn
  pub row_set : RowSet
  pub stashed : Option RowSet
  pub to_close : Option ℕ

pub data ReplyParser : Type 0 where
  exhausted : Bytes → ReplyParser
  error : ReplyBuf → ReplyParser
  success : ReplyBuf → Option ℤ → ReplyParser
  results : ResultSet → ReplyParser
  tx : ReplyBuf → ReplyParser
