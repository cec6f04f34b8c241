-- ===== src/Cursor/Delayed.antt =====
-- `DelayedCommands` of src/cursor/delayed.rs: commands that wait in a buffer for the next message.
pub mod Newline
pub mod Queue
use monetdb_rust.Prelude.{
  ℕ, Bool, true, false, not, List, [], ◌∷◌, ◌++◌, ◌==◌, if◌then◌else◌, Bytes, Outcome, ok, err,
  panic, ◌>>=◌,
}
use monetdb_rust.Framing.Header.{FramingError}
use monetdb_rust.Framing.Writing
use monetdb_rust.Framing.Writing.{MapiBuf, append, append_all, end_message, reset, peek}

pub record ExpectedResponse : Type 0 where
  pub description : Bytes
  pub ignore_server_error : Bool

pub record DelayedCommands : Type 0 where
  pub buffer : MapiBuf
  pub responses : List ExpectedResponse

abbrev pub new : DelayedCommands
new = record { buffer = Writing.new; responses = [] }

-- `ends_with(b"\n")`
unfoldable pub ends_with_newline : Bytes → Bool
ends_with_newline [] = false
ends_with_newline (x ∷ []) = x == 10
ends_with_newline (x ∷ y ∷ ys) = ends_with_newline (y ∷ ys)

unfoldable pub end_line : MapiBuf → Outcome FramingError MapiBuf
end_line buffer =
    if not (ends_with_newline (peek buffer)) then append buffer (10 ∷ []) else ok buffer

-- `add_inner`, on the pieces in which `write!` writes the command.
unfoldable pub add_inner :
    DelayedCommands → Bytes → List Bytes → Bool → Outcome FramingError DelayedCommands
add_inner me descr cmd ignore_server_error = do
  written ← append_all me.buffer cmd
  line ← end_line written
  ended ← end_message line
  ok (record {
    buffer = ended;
    responses =
        me.responses
        ++ record { description = descr; ignore_server_error = ignore_server_error } ∷ [];
  })

-- `send_delayed` up to the write: the bytes to send.
unfoldable pub send_delayed : DelayedCommands → Outcome FramingError (DelayedCommands × Bytes)
send_delayed me = do (buffer, raw) ← reset me.buffer; ok (record me { buffer = buffer }, raw)
