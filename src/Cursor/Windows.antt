-- ===== src/Cursor/Windows.antt =====
-- The windows of src/cursor/mod.rs: how many rows the next `Xexport` asks for, and the checks of its answer.
pub mod Progress
use monetdb_rust.Prelude.{
  ℕ, zero, suc, ◌+◌, ◌-◌, ◌*◌, ◌^◌, ◌≤◌, ◌<◌, min, Bool, true, false, not, ◌&&◌, ◌∷◌, ltb, leb,
  ◌==◌, if◌then◌else◌, Option, none, some, Outcome, ok, err, panic, ◌>>=◌, ◌>>◌, ensure, ok_or,
  checked_sub,
}
use monetdb_rust.Cursor.RowSet.{RowSet, has_pending_row}

-- The errors of a result set's rows.
pub data WindowError : Type 0 where
  too_many_rows : (total : ℕ) → WindowError
  empty_export_window : (start requested : ℕ) → WindowError
  result_id_mismatch column_count_mismatch row_count_mismatch row_offset_mismatch :
      (expected actual : ℕ) → WindowError

-- `usize::MAX` and `u64::MAX`
abbrev pub max : ℕ
max = 2 ^ 64 - 1

abbrev pub saturating_mul : ℕ → ℕ → ℕ
saturating_mul a b = min (a * b) max

abbrev pub saturating_add : ℕ → ℕ → ℕ
saturating_add a b = min (a + b) max

unfoldable pub count_row : ℕ → ℕ → Outcome WindowError ℕ
count_row next_row total_rows =
    if leb total_rows next_row then err (too_many_rows total_rows) else ok (next_row + 1)

unfoldable pub next_window_size : ℕ → Option ℕ → ℕ
next_window_size previous (some limit) = min (saturating_mul previous 2) (saturating_add limit 1)
next_window_size previous none = saturating_mul previous 2

unfoldable pub next_fetch_size : ℕ → Option ℕ → ℕ → ℕ
next_fetch_size previous max_prefetch remaining =
    min remaining (next_window_size previous max_prefetch)

-- The numbers of `decide_next_fetch` that depend on the rows: the next row, how many to ask for, and
-- the size of the next window.
unfoldable pub decide_next_fetch :
    (reply_size : ℕ) (max_prefetch : Option ℕ) (next_row total_rows : ℕ)
    → Outcome WindowError (ℕ × ℕ × ℕ)
decide_next_fetch reply_size max_prefetch next_row total_rows = do
  remaining ← ok_or (checked_sub total_rows next_row) (too_many_rows total_rows)
  ok (
    next_row,
    next_fetch_size reply_size max_prefetch remaining,
    next_window_size reply_size max_prefetch,
  )

unfoldable pub validate_fetch_progress : RowSet → ℕ → ℕ → Outcome WindowError (Unit {0})
validate_fetch_progress row_set start requested =
    ensure (not (ltb 0 requested && not (has_pending_row row_set)))
      (empty_export_window start requested)

-- The four numbers of an export header.
pub record ExportHeader : Type 0 where
  pub result_id : ℕ
  pub columns : ℕ
  pub rows : ℕ
  pub offset : ℕ

unfoldable pub validate_export_header :
    ExportHeader → (result_id columns rows offset : ℕ) → Outcome WindowError (Unit {0})
validate_export_header fields result_id columns rows offset = do
  ensure (fields.result_id == result_id) (result_id_mismatch result_id fields.result_id)
  ensure (fields.columns == columns) (column_count_mismatch columns fields.columns)
  ensure (fields.rows == rows) (row_count_mismatch rows fields.rows)
  ensure (fields.offset == offset) (row_offset_mismatch offset fields.offset)
