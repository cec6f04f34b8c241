-- ===== src/Cursor/Windows/Progress.antt =====
-- The windows that the cursor of src/cursor/mod.rs asks for cover a result set, without gaps or overlaps.
use monetdb_rust.Prelude.{
  ℕ, zero, suc, ◌+◌, ◌-◌, ◌≤◌, ◌<◌, min, ◌≡◌, refl, ◌↔◌, true, false, inl, inr, List, [], ◌∷◌,
  arith, leb, if◌then◌else◌, Option, none, some, Outcome, ok, panic, ◌>>=◌, checked_sub-eq,
  Bool-cases,
}
use monetdb_rust.Cursor.Windows.{
  WindowError, max, saturating_add, next_window_size, next_fetch_size, decide_next_fetch,
  ExportHeader, validate_export_header,
}

-- The windows asked for until no row is left, where each is answered in full and used up.
unfoldable pub windows : ℕ → ℕ → Option ℕ → ℕ → ℕ → Outcome WindowError (List (ℕ × ℕ))
windows zero reply_size max_prefetch next_row total_rows =
    if leb total_rows next_row then ok [] else panic
windows (suc fuel) reply_size max_prefetch next_row total_rows = elim (leb total_rows next_row) [
  | true ↦ ok []
  | false ↦ do
    (start, n, next_reply_size) ← decide_next_fetch reply_size max_prefetch next_row total_rows
    rest ← windows fuel next_reply_size max_prefetch (next_row + n) total_rows
    ok ((start, n) ∷ rest)
]

-- One window after the other, none empty and none above the bound, from one row up to another.
abbrev pub Covers : ℕ → ℕ → ℕ → List (ℕ × ℕ) → Type 0
Covers bound next_row total_rows [] = next_row ≡ total_rows
Covers bound next_row total_rows ((start, n) ∷ rest) =
    (start ≡ next_row) × (0 < n) × (n ≤ bound) × Covers bound (next_row + n) total_rows rest

abbrev pub window_bound : Option ℕ → ℕ
window_bound (some limit) = saturating_add limit 1
window_bound none = max

next_window_size_bounds :
    (reply_size : ℕ) (max_prefetch : Option ℕ)
    → 0 < reply_size
    → (0 < next_window_size reply_size max_prefetch)
      × (next_window_size reply_size max_prefetch ≤ window_bound max_prefetch)
unfolding next_window_size
next_window_size_bounds reply_size (some limit) h = (omega arith, omega arith)
next_window_size_bounds reply_size none h = (omega arith, omega arith)

decide_next_fetch-ok :
    (reply_size : ℕ) (max_prefetch : Option ℕ) (next_row total_rows : ℕ)
    → next_row ≤ total_rows
    → decide_next_fetch reply_size max_prefetch next_row total_rows
      ≡ ok (
        next_row,
        min (total_rows - next_row) (next_window_size reply_size max_prefetch),
        next_window_size reply_size max_prefetch,
      )
unfolding decide_next_fetch next_fetch_size
decide_next_fetch-ok reply_size max_prefetch next_row total_rows p =
    rw (checked_sub-eq total_rows next_row (total_rows - next_row) (omega arith)) refl

-- From a reply size that is not zero and a next row up to the total, the windows are made without an
-- error, one for each round and no more rounds than rows: each starts where the one before it ends, none
-- is empty, none is above the prefetch limit and one row (or the largest number without a limit), and
-- the last one ends at the total.
pub windows-Covers :
    (fuel reply_size : ℕ) (max_prefetch : Option ℕ) (next_row total_rows : ℕ)
    → 0 < reply_size
    → next_row ≤ total_rows
    → total_rows ≤ next_row + fuel
    → (ws : List (ℕ × ℕ)) × (windows fuel reply_size max_prefetch next_row total_rows ≡ ok ws)
      × Covers (window_bound max_prefetch) next_row total_rows ws
unfolding windows
windows-Covers zero reply_size max_prefetch next_row total_rows h p f =
    let done : leb total_rows next_row ≡ true = ground arith in ([], rw done refl, omega arith)
windows-Covers (suc fuel) reply_size max_prefetch next_row total_rows h p f =
    elim (Bool-cases (leb total_rows next_row)) [
      | inl done ↦ ([], rw (done, windows) refl, ground arith)
      | inr left ↦
          let more : next_row < total_rows = ground arith in
          let size = next_window_size reply_size max_prefetch in
          let (positive, bounded) = next_window_size_bounds reply_size max_prefetch h in
          let n = min (total_rows - next_row) size in
          let decided = decide_next_fetch-ok reply_size max_prefetch next_row total_rows p in
          let (ws, returns, covers) =
            windows-Covers fuel size max_prefetch (next_row + n) total_rows positive (omega arith)
              (omega arith) in
          (
            (next_row, n) ∷ ws,
            rw (left, windows) (rw decided (rw returns refl)),
            (refl, omega arith, omega arith, covers),
          )
    ]

-- An export header is accepted just when its result, its number of columns and of rows and its offset
-- are those that were asked for.
pub validate_export_header_iff :
    (fields : ExportHeader) (result_id columns rows offset : ℕ)
    → (validate_export_header fields result_id columns rows offset ≡ ok tt)
      ↔ (fields ≡ record { result_id = result_id; columns = columns; rows = rows; offset = offset })
unfolding validate_export_header
validate_export_header_iff fields result_id columns rows offset = ground arith
