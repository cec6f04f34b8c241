-- ===== src/Cursor/Tests.antt =====
-- Runs of the cursor code at concrete inputs, and the properties at inputs that meet their hypotheses.
use monetdb_rust.Prelude.{
  map, false, ◌↔◌, checked_sub, ℕ, ◌≡◌, refl, true, List, [], ◌∷◌, ◌++◌, arith, Bytes, codes,
  Option, none, some, ok, flatten,
}
use monetdb_rust.Cursor.Search.Linear.{linear}
use monetdb_rust.Cursor.ReplyBuf
use monetdb_rust.Cursor.ReplyBuf.{
  convert_backslashes, convert_loop, escaped, octal, unescape_letter, write,
}
use monetdb_rust.Cursor.ReplyBuf.Front.{at}
use monetdb_rust.Cursor.ReplyBuf.Escapes.{Escapes, nothing, itself, letter, digits, quote, newline}
use monetdb_rust.Cursor.ReplyBuf.Convert.{convert_backslashes-Escapes}
use monetdb_rust.Cursor.RowSet
use monetdb_rust.Cursor.RowSet.{RowSet, advance}
use monetdb_rust.Cursor.RowSet.Text.{Cells, null, bare, quoted, last, more}
use monetdb_rust.Cursor.RowSet.Advance.{RowRead, advance-RowRead}
use monetdb_rust.Framing.BlockState
use monetdb_rust.Framing.BlockState.{start, end, from_header}
use monetdb_rust.Framing.BlockState.Automaton.{run}
use monetdb_rust.Cursor.Upload.{write_fragment, writes, slices, block_slices, fragment_header}
use monetdb_rust.Cursor.Upload.Fragment.{write_fragment-run}
use monetdb_rust.Cursor.Windows.{
  ExportHeader, validate_export_header, decide_next_fetch, next_fetch_size, next_window_size,
}
use monetdb_rust.Cursor.Windows.Progress.{
  windows, Covers, windows-Covers, validate_export_header_iff,
}
use monetdb_rust.Framing.Writing.{prepare_reset}
use monetdb_rust.Framing.Writing.RoundTrip.{new-Complete}
use monetdb_rust.Cursor.Delayed
use monetdb_rust.Cursor.Delayed.{DelayedCommands, add_inner, send_delayed}
use monetdb_rust.Cursor.Delayed.Queue.{
  Messages, none_waits, Holds, LineOf, Command, LinesOf, add_each, response_of, add_inner-Holds,
  send_delayed-Messages,
}

-- The text `b\141\"n` for `ba"n`.
abbrev banana : Bytes
banana = 98 ∷ 92 ∷ 49 ∷ 52 ∷ 49 ∷ 92 ∷ 34 ∷ 110 ∷ []

banana-Escapes : Escapes banana (98 ∷ 97 ∷ 34 ∷ 110 ∷ [])
banana-Escapes =
    itself refl
      (digits 1 4 1 (omega arith) (omega arith) (omega arith) (letter quote (itself refl nothing)))

abbrev row : Bytes
row = 52 ∷ 50 ∷ 44 ∷ 9 ∷ 34 ∷ (banana ++ 34 ∷ 44 ∷ 9 ∷ 78 ∷ 85 ∷ 76 ∷ 76 ∷ 9 ∷ [])

abbrev values : List (Option Bytes)
values = some (52 ∷ 50 ∷ []) ∷ some (98 ∷ 97 ∷ 34 ∷ 110 ∷ []) ∷ none ∷ []

row-Cells : Cells row values
row-Cells = more (bare refl (refl, (refl, tt)) refl) (more (quoted banana-Escapes) (last null))

abbrev two_rows : RowSet
two_rows = RowSet.new (ReplyBuf.new (91 ∷ 32 ∷ (row ++ 93 ∷ 10 ∷ codes "[ 1"))) 3

-- The witnesses.
convert_backslashes-Escapes_example :
    (gap : Bytes) × (convert_backslashes (at (34 ∷ []) (98 ∷ (92 ∷ 110 ∷ 34 ∷ codes ",x"))) 1
      ≡ ok (98 ∷ 10 ∷ [], at (34 ∷ 98 ∷ 10 ∷ gap) (codes ",x")))
convert_backslashes-Escapes_example =
    convert_backslashes-Escapes (34 ∷ []) (98 ∷ []) (codes ",x") (letter newline nothing)

advance-RowRead_example : RowRead (codes "[ 1") values (advance linear two_rows)
advance-RowRead_example =
    advance-RowRead linear two_rows [] (codes "[ 1")
      (record { slices = refl; sized = refl; columns = refl }) refl row-Cells

writes_ab : write_fragment (codes "ab") true ≡ ((5 ∷ 0 ∷ []) ∷ codes "ab" ∷ []) ∷ []
unfolding write_fragment writes slices block_slices fragment_header
writes_ab = refl

write_fragment-run_example :
    run start (flatten (flatten (write_fragment (codes "ab") true)))
    ≡ ok (codes "ab", BlockState.new 0 true)
write_fragment-run_example = write_fragment-run (codes "ab") true

three_windows : windows 10 2 (some 6) 3 20 ≡ ok ((3, 4) ∷ (7, 7) ∷ (14, 6) ∷ [])
unfolding windows decide_next_fetch next_fetch_size next_window_size checked_sub
three_windows = refl

windows-Covers_example :
    (ws : List (ℕ × ℕ)) × (windows 17 2 (some 6) 3 20 ≡ ok ws) × Covers 7 3 20 ws
windows-Covers_example = windows-Covers 17 2 (some 6) 3 20 (omega arith) (omega arith) (omega arith)

abbrev export_header : ExportHeader
export_header = record { result_id = 1; columns = 3; rows = 50; offset = 100 }

validate_export_header_iff_example :
    (validate_export_header export_header 1 3 50 100 ≡ ok tt)
    ↔ (export_header ≡ record { result_id = 1; columns = 3; rows = 50; offset = 100 })
validate_export_header_iff_example = validate_export_header_iff export_header 1 3 50 100

new-Holds : Holds Delayed.new []
unfolding prepare_reset
new-Holds = record { sent = []; complete = new-Complete; messages = none_waits }

add_inner-Holds_example :
    (me' : DelayedCommands) × (line : Bytes) × (add_inner Delayed.new []
        (codes "Xclose " ∷ codes "3" ∷ [])
        true
      ≡ ok me')
    × LineOf (codes "Xclose 3") line
    × Holds me' (line ∷ [])
    × (me'.responses ≡ record { description = []; ignore_server_error = true } ∷ [])
add_inner-Holds_example =
    add_inner-Holds Delayed.new [] [] (codes "Xclose " ∷ codes "3" ∷ []) true new-Holds

abbrev two_commands : List Command
two_commands =
    record { descr = codes "close"; cmd = codes "Xclose " ∷ codes "3" ∷ []; ignores = true }
    ∷ record { descr = codes "info"; cmd = codes "Xclientinfo" ∷ (10 ∷ []) ∷ []; ignores = false }
    ∷ []

send_delayed-Messages_example :
    (me' : DelayedCommands) × (me'' : DelayedCommands) × (lines : List Bytes) × (raw : Bytes)
    × (add_each Delayed.new two_commands ≡ ok me')
    × (send_delayed me' ≡ ok (me'', raw))
    × LinesOf two_commands lines
    × Messages raw lines
    × (me''.responses ≡ map response_of two_commands)
    × Holds me'' []
send_delayed-Messages_example = send_delayed-Messages Delayed.new two_commands new-Holds
