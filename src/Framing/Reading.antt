-- ===== src/Framing/Reading.antt =====
-- `MapiReader` of src/framing/reading.rs: the payload of one message, read from a byte source.

pub mod Body
pub mod Sound
pub mod Complete
pub mod Message
pub mod Total
use monetdb_rust.Prelude.{
  ℕ, zero, suc, ◌+◌, ◌-◌, ◌++◌, Bool, true, false, not, List, [], ◌∷◌, ltb, leb, ◌==◌,
  if◌then◌else◌, Bytes, length, take, drop, min, Outcome, ok, err, panic, ◌>>=◌, ◌>>◌, assert,
}
use monetdb_rust.Framing.Header.{blocksize, too_long}
use monetdb_rust.Framing.BlockState.{
  BlockState, start, partial_header, body, end, Range, skip_headers,
}
use monetdb_rust.Framing.IoError.{
  IoError, simple, unexpected_eof, kind, is_unexpected_eof, lift, framing,
}
use monetdb_rust.Framing.Source.{Source}
use monetdb_rust.Framing.Retry.{retrying}

pub record MapiReader (R : Type 0) : Type 0 where
  pub inner : R
  pub state : BlockState

abbrev pub new : {R : Type 0} → R → MapiReader R
new inner = record { inner = inner; state = start }

-- The message of `read_exact` at the end of the input is replaced.
unfoldable pub plain_eof : {A : Type 0} → Outcome IoError A → Outcome IoError A
unfolding kind is_unexpected_eof
plain_eof (ok a) = ok a
plain_eof (err e) = if is_unexpected_eof (kind e) then err (simple unexpected_eof) else err e
plain_eof panic = panic

-- `matches!(state, BlockState::End)`
unfoldable pub is_end : BlockState → Bool
is_end end = true
is_end _ = false

-- What `read_body` does with the bytes behind the body: (part of) the next header.
unfoldable pub read_ahead : BlockState → Bytes → Outcome IoError BlockState
read_ahead state tail = do
  (next_range, state') ← lift (skip_headers state tail)
  assert (leb next_range.end next_range.start)
  assert (next_range.end == length tail)
  ok state'

unfoldable pub interpret_body :
    {R : Type 0} → R → BlockState → Bytes → Outcome IoError (Bytes × MapiReader R)
unfolding read_ahead
interpret_body inner state buf = do
  (range, state') ← lift (skip_headers state buf)
  assert (range.start == 0)
  state'' ← if ltb range.end (length buf) then read_ahead state' (drop range.end buf) else ok state'
  ok (take range.end buf, record { inner = inner; state = state'' })

module _ (src : Source) where
  open src use {R, read, read_exact}

  -- `n` is the length of the header buffer.
  unfoldable pub read_header : MapiReader R → ℕ → Outcome IoError (MapiReader R)
  unfolding plain_eof
  read_header me n = do
    (buf, inner) ← plain_eof (read_exact me.inner n)
    (_, state) ← lift (skip_headers me.state buf)
    ok (record { inner = inner; state = state })

  unfoldable pub read_some : R → ℕ → Outcome IoError (Bytes × R)
  read_some inner n = do
    (buf, inner') ← read inner n
    if length buf == 0 then err (simple unexpected_eof) else ok (buf, inner')

  unfoldable pub read_body : MapiReader R → ℕ → Bool → ℕ → Outcome IoError (Bytes × MapiReader R)
  read_body me remaining last n = do
    assert (ltb 0 remaining)
    let ideal_read = if last then remaining else remaining + 2
    (buf, inner) ← read_some me.inner (min ideal_read n)
    interpret_body inner me.state buf

  -- The loop of `do_read`: each round but the last reads a byte of a header, so the rounds are
  -- bounded by what the source has left; a loop that is not through by then counts as a panic.
  unfoldable pub read_loop : ℕ → MapiReader R → ℕ → Outcome IoError (Bytes × MapiReader R)
  read_loop zero me n = panic
  read_loop (suc fuel) me n = elim me.state [
    | body remaining last ↦ read_body me remaining last n
    | start ↦ do me' ← read_header me 2; read_loop fuel me' n
    | partial_header _ ↦ do me' ← read_header me 1; read_loop fuel me' n
    | end ↦ ok ([], me)
  ]

  -- `do_read` on a buffer of length `n`; the result holds the bytes that it put there.
  unfoldable pub do_read : ℕ → MapiReader R → ℕ → Outcome IoError (Bytes × MapiReader R)
  unfolding read_loop
  do_read fuel me n = if n == 0 then ok ([], me) else read_loop fuel me n

  -- `skip_to_end`; the flag is the loop's test, and the fuel is that of `do_read`.
  unfoldable pub skip_to_end : ℕ → MapiReader R → Outcome IoError (MapiReader R)
  unfolding is_end
  skip_to_end zero me = if is_end me.state then ok me else panic
  skip_to_end (suc fuel) me = elim (is_end me.state) [
    | true ↦ ok me
    | false ↦ do (_, me') ← do_read (suc fuel) me (blocksize + 2); skip_to_end fuel me'
  ]

  -- `finish`: the source behind the message.
  unfoldable pub finish : ℕ → MapiReader R → Outcome IoError R
  unfolding skip_to_end
  finish fuel me = do me' ← skip_to_end fuel me; ok me'.inner

  -- `read_to_end` of the standard library on `take(limit)`: it reads into buffers of lengths that it
  -- chooses, `room` at each length read so far, until a read returns nothing or the limit is met.
  unfoldable pub take_to_end :
      (room : ℕ → ℕ) → ℕ → ℕ → MapiReader R → Bytes → Outcome IoError (Bytes × MapiReader R)
  take_to_end room fuel zero me out = ok (out, me)
  take_to_end room zero (suc limit) me out = panic
  take_to_end room (suc fuel) (suc limit) me out = do
    (more, me') ← do_read (suc fuel) me (min (room (length out)) (suc limit))
    let rest = take_to_end room fuel (suc limit - length more) me' (out ++ more)
    if length more == 0 then ok (out, me') else rest

  -- Where the payload stopped short of the end of the message, one more byte is too many.
  unfoldable pub check_end : ℕ → MapiReader R → Outcome IoError (MapiReader R)
  unfolding is_end
  check_end fuel reader = if is_end reader.state then ok reader else (do
    (extra, reader') ← do_read fuel reader 1
    if not (length extra == 0) then err (framing too_long) else ok reader')

  unfoldable pub finish_with : ℕ → MapiReader R → Bytes → Outcome IoError (Bytes × R)
  unfolding finish
  finish_with fuel reader buffer = do rd ← finish fuel reader; ok (buffer, rd)

module _ (src : Source) where
  -- `to_limited`: the whole payload of one message, and the source behind it. Only `read_to_end` tries a
  -- read again that was interrupted.
  unfoldable pub to_limited : (room : ℕ → ℕ) → ℕ → src.R → ℕ → Outcome IoError (Bytes × src.R)
  unfolding is_end check_end finish_with take_to_end
  to_limited room fuel rd limit = do
    (buffer, reader) ← take_to_end (retrying src) room fuel limit (new rd) []
    reader' ← check_end src fuel reader
    if is_end reader'.state then finish_with src fuel reader' buffer else err (framing too_long)
