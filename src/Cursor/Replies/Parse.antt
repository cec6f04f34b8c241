-- ===== src/Cursor/Replies/Parse.antt =====
-- The replies of a response, one after the other: `ReplyParser::parse` and `into_next_reply`.
use monetdb_rust.Prelude.{
  ℕ, zero, suc, ◌-◌, ◌*◌, ◌^◌, Bool, true, false, not, ◌&&◌, ltb, leb, ◌==◌, List, [], ◌∷◌,
  if◌then◌else◌, Bytes, codes, length, min, replicate, same_bytes, starts_with, Option, none, some,
  Outcome, ok, err, panic, ◌>>=◌, ◌>>◌, ensure, unwrap, ℤ, pos, parse_i64, parse_uint,
}
use monetdb_rust.Cursor.Search.{Search}
use monetdb_rust.Cursor.ReplyBuf
use monetdb_rust.Cursor.ReplyBuf.{
  ReplyBuf, BadReply, expected_ok, invalid_autocommit, invalid_header, unknown_response,
  too_many_columns, too_many_included_rows, peek, split_str,
}
use monetdb_rust.Cursor.RowSet
use monetdb_rust.Cursor.RowSet.{RowSet, new_noslice, forget_buf, finish}
use monetdb_rust.Cursor.Types.{varchar}
use monetdb_rust.Cursor.Notices.{parse_autocommit_line, is_none}
use monetdb_rust.Cursor.Replies.{
  ResultColumn, ResultSet, ReplyParser, exhausted, error, success, results, tx,
}
use monetdb_rust.Cursor.Replies.Headers.{trim_ascii, parse_header, parse_data_header}
use monetdb_rust.Cursor.Replies.Columns.{
  empty_column, set_table_name, set_name, set_type, set_length, set_typesizes,
}

abbrev pub usize_max : ℕ
usize_max = 2 ^ 64 - 1

-- `take_while(|line| line.starts_with(b"=")).count()`
abbrev pub count_noslice : List Bytes → ℕ
count_noslice [] = 0
count_noslice (line ∷ lines) = if starts_with line (codes "=") then suc (count_noslice lines) else 0

abbrev pub first_line : List Bytes → Option Bytes
first_line [] = none
first_line (line ∷ lines) = some line

-- `fields[0]` of one number.
abbrev pub first_item : List ℤ → Option ℤ
first_item [] = none
first_item (i ∷ is) = some i

unfoldable pub close_later : Bool → ℕ → ℕ → ℕ → Option ℕ
close_later prepared included total result_id =
    if not prepared && ltb included total then some result_id else none

-- `search` and `memmem` are the searches of memchr, `lines` those of the crate bstr, `is_utf8` the
-- check of the standard library, and `reserves` says whether memory for so many columns is there.
module _ (search : Search) (is_utf8 : Bytes → Bool) (lines : Bytes → List Bytes)
    (reserves : ℕ → Bool) where
  unfoldable pub parse_successful_update : ReplyBuf → Outcome BadReply ReplyParser
  unfolding parse_header
  parse_successful_update buf = do
    (fields, buf') ← parse_header search is_utf8 parse_i64 1 buf
    affected ← unwrap (first_item fields)
    ok (success buf' (some affected))

  unfoldable pub parse_successful_other : ReplyBuf → Outcome BadReply ReplyParser
  unfolding parse_header
  parse_successful_other buf = do
    (_, buf') ← parse_header search is_utf8 parse_i64 0 buf
    ok (success buf' none)

  unfoldable pub parse_ok : ReplyBuf → Outcome BadReply ReplyParser
  unfolding split_str
  parse_ok buf = do
    (line, buf') ← forget_buf (split_str search is_utf8 buf 10 (codes "success line"))
    if not (same_bytes line (codes "=OK"))
        then err (invalid_header (expected_ok line))
        else ok (success buf' none)

  unfoldable pub parse_noslice : ReplyBuf → Outcome BadReply ReplyParser
  parse_noslice buf =
      let total_rows = count_noslice (lines (peek buf)) in
      ok (
        results record {
          result_id = 0;
          prepared = false;
          next_row = 0;
          total_rows = total_rows;
          rows_included = total_rows;
          columns = record { table_name = []; name = codes "rel"; typ = varchar 0 } ∷ [];
          row_set = new_noslice buf;
          stashed = none;
          to_close = none;
        })

  unfoldable pub parse_autocommit_status : ReplyBuf → Outcome BadReply ReplyParser
  unfolding split_str parse_autocommit_line
  parse_autocommit_status buf = do
    (line, buf') ← forget_buf (split_str search is_utf8 buf 10 (codes "header line"))
    if is_none (parse_autocommit_line (trim_ascii line))
        then err (invalid_header (invalid_autocommit (trim_ascii line)))
        else ok (tx buf')

  unfoldable pub parse_error : ReplyBuf → Outcome BadReply ReplyParser
  unfolding split_str
  parse_error buf = do
    (_, buf') ← forget_buf (split_str search is_utf8 buf 10 (codes "error header"))
    ok (error buf')

  -- The lines of metadata; that of the type sizes is missing in front of rows that are not cut.
  unfoldable pub parse_typesizes :
      List ResultColumn → ReplyBuf → Outcome BadReply (List ResultColumn × ReplyBuf)
  unfolding parse_data_header
  parse_typesizes columns buf =
      if starts_with (peek buf) (codes "=")
      then ok (columns, buf)
      else parse_data_header search is_utf8 set_typesizes (codes "typesizes") columns buf

  unfoldable pub parse_columns : ℕ → ReplyBuf → Outcome BadReply (List ResultColumn × ReplyBuf)
  unfolding parse_data_header parse_typesizes
  parse_columns ncols buf = do
    (named, buf1) ←
        parse_data_header search is_utf8 set_table_name (codes "table_name")
          (replicate ncols empty_column) buf
    (called, buf2) ← parse_data_header search is_utf8 set_name (codes "name") named buf1
    (typed, buf3) ← parse_data_header search is_utf8 set_type (codes "type") called buf2
    (sized, buf4) ← parse_data_header search is_utf8 set_length (codes "length") typed buf3
    parse_typesizes sized buf4

  unfoldable pub row_set_of : ReplyBuf → ℕ → RowSet
  row_set_of buf ncols =
      if starts_with (peek buf) (codes "=") then new_noslice buf else RowSet.new buf ncols

  -- The reply behind its header line.
  unfoldable pub parse_result : Bool → ℕ → ℕ → ℕ → ℕ → ReplyBuf → Outcome BadReply ReplyParser
  unfolding parse_columns row_set_of close_later
  parse_result prepared result_id rows_total ncols rows_included buf = do
    ensure (leb rows_included rows_total) (too_many_included_rows rows_included rows_total)
    ensure (leb ncols usize_max) (too_many_columns ncols)
    ensure (leb (min ((ncols - 1) * 10) usize_max) (length (peek buf))) (too_many_columns ncols)
    ensure (reserves ncols) (too_many_columns ncols)
    (columns, buf') ← parse_columns ncols buf
    ok (
        results record {
          result_id = result_id;
          prepared = prepared;
          next_row = 0;
          total_rows = rows_total;
          rows_included = rows_included;
          columns = columns;
          row_set = row_set_of buf' (length columns);
          stashed = none;
          to_close = close_later prepared rows_included rows_total result_id;
        })

  -- The four numbers of the header.
  unfoldable pub parse_result_fields : Bool → List ℕ → ReplyBuf → Outcome BadReply ReplyParser
  unfolding parse_result
  parse_result_fields prepared (result_id ∷ rows_total ∷ ncols ∷ rows_included ∷ []) buf =
      parse_result prepared result_id rows_total ncols rows_included buf
  parse_result_fields prepared _ buf = panic

  unfoldable pub parse_data : Bool → ReplyBuf → Outcome BadReply ReplyParser
  unfolding parse_header parse_result_fields
  parse_data prepared buf = do
    (fields, buf') ← parse_header search is_utf8 (parse_uint usize_max) 4 buf
    parse_result_fields prepared fields buf'

  unfoldable pub parse_unknown : Bytes → Outcome BadReply ReplyParser
  parse_unknown ahead = do line ← unwrap (first_line (lines ahead)); err (unknown_response line)

  -- By what the reply begins with.
  unfoldable pub parse : ReplyBuf → Outcome BadReply ReplyParser
  unfolding parse_data parse_successful_update parse_successful_other parse_autocommit_status
      parse_error parse_ok parse_noslice parse_unknown
  parse buf =
      let ahead = peek buf in
      if length ahead == 0
      then ok (exhausted [])
      else if starts_with ahead (codes "&1")
      then parse_data false buf
      else if starts_with ahead (codes "&2")
      then parse_successful_update buf
      else if starts_with ahead (codes "&3")
      then parse_successful_other buf
      else if starts_with ahead (codes "&4")
      then parse_autocommit_status buf
      else if starts_with ahead (codes "&5")
      then parse_data true buf
      else if starts_with ahead (codes "!")
      then parse_error buf
      else if starts_with ahead (61 ∷ 79 ∷ 75 ∷ 10 ∷ [])
      then parse_ok buf
      else if starts_with ahead (codes "=")
      then parse_noslice buf
      else parse_unknown ahead

  unfoldable pub new : Bytes → Outcome BadReply ReplyParser
  unfolding parse
  new vec = parse (ReplyBuf.new vec)

  module _ (memmem : Bytes → Bytes → Option ℕ) where
    abbrev pub rows_left : ResultSet → RowSet
    rows_left rs = elim rs.stashed [ some row_set ↦ row_set | none ↦ rs.row_set ]

    -- The buffer behind a reply, and the result set to be closed at the server.
    unfoldable pub leave : ReplyParser → Outcome BadReply (ReplyBuf × Option ℕ)
    unfolding finish
    leave (exhausted vec) = ok (ReplyBuf.new vec, none)
    leave (error buf) = ok (buf, none)
    leave (success buf _) = ok (buf, none)
    leave (tx buf) = ok (buf, none)
    leave (results rs) = do buf ← finish memmem (rows_left rs); ok (buf, rs.to_close)

    unfoldable pub into_next_reply : ReplyParser → Outcome BadReply (ReplyParser × Option ℕ)
    unfolding leave parse
    into_next_reply self = do
      (buf, return_to_close) ← leave self
      parser ← parse buf
      ok (parser, return_to_close)

  unfoldable pub affected_rows : ReplyParser → Option ℤ
  affected_rows (success _ affected) = affected
  affected_rows (results rs) = if ltb rs.total_rows (2 ^ 63) then some (pos rs.total_rows) else none
  affected_rows _ = none

-- `Cursor::exhaust`: the replies that are left are skipped, and the result sets that they leave open
-- are returned. Each round is one of fuel, and a loop that is not through counts as a panic.
abbrev pub push_close : Option ℕ → List ℕ → List ℕ
push_close none ids = ids
push_close (some id) ids = id ∷ ids

abbrev pub is_exhausted : ReplyParser → Bool
is_exhausted (exhausted _) = true
is_exhausted _ = false

module _ (search : Search) (is_utf8 : Bytes → Bool) (lines : Bytes → List Bytes)
    (reserves : ℕ → Bool) (memmem : Bytes → Bytes → Option ℕ) where
  unfoldable pub exhaust : ℕ → ReplyParser → Outcome BadReply (List ℕ)
  unfolding into_next_reply
  exhaust zero replies = panic
  exhaust (suc fuel) replies = elim (is_exhausted replies) [
    | true ↦ ok []
    | false ↦ do
      (replies', to_close) ← into_next_reply search is_utf8 lines reserves memmem replies
      ids ← exhaust fuel replies'
      ok (push_close to_close ids)
  ]
