-- ===== src/Framing/Writing.antt =====
-- `MapiBuf` of src/framing/writing.rs: a buffer that frames what is appended into blocks.
pub mod Represents
pub mod Append
pub mod RoundTrip
use monetdb_rust.Prelude.{
  ℕ, zero, suc, ◌+◌, ◌-◌, ◌≤◌, Bool, true, false, List, [], ◌∷◌, ◌++◌, leb, ◌==◌, if◌then◌else◌,
  Bytes, length, take, drop, min, Outcome, ok, err, panic, ◌>>=◌, unwrap, checked_sub,
}
use monetdb_rust.Framing.Header
use monetdb_rust.Framing.Header.{Header, FramingError, blocksize}

pub record MapiBuf : Type 0 where
  pub buffer : Bytes
  pub block_left : ℕ
  pub reset_pending : Bool

-- The dummy that stands where the header of the unfinished block will be written.
abbrev pub dummy : Bytes
dummy = 0xFF ∷ 0xFF ∷ []

-- `with_buf`, `new` and `default`: the vector handed in is cleared.
abbrev pub new : MapiBuf
new = record { buffer = dummy; block_left = blocksize; reset_pending = false }

unfoldable pub prepare_reset : MapiBuf → MapiBuf
prepare_reset me =
    if me.reset_pending then record me { buffer = take 2 me.buffer; reset_pending = false } else me

-- `buffer[at..at + new.len()] = new`, a panic out of bounds.
unfoldable pub write_at : Bytes → ℕ → Bytes → Outcome FramingError Bytes
write_at buffer at new =
    if leb (at + length new) (length buffer)
    then ok (take at buffer ++ (new ++ drop (at + length new) buffer))
    else panic

-- The subtractions on `usize` panic below zero, as `Header::new` and the slice do out of bounds.
unfoldable pub finish_block : MapiBuf → Bool → Outcome FramingError MapiBuf
unfolding write_at
finish_block me last = do
  used ← unwrap (checked_sub blocksize me.block_left)
  header ← Header.new used last
  behind ← unwrap (checked_sub (length me.buffer) used)
  at ← unwrap (checked_sub behind 2)
  buffer ← write_at me.buffer at (Header.as_bytes header)
  ok (record me { buffer = buffer ++ dummy; block_left = blocksize })

-- One round of the loop of `append_long`: a full block is finished first.
unfoldable pub make_room : MapiBuf → Outcome FramingError MapiBuf
unfolding finish_block
make_room me = if me.block_left == 0 then finish_block me false else ok me

-- Each round takes at least one byte, so the length of the input bounds the rounds; a loop that is
-- not through by then counts as a panic.
unfoldable pub append_loop : ℕ → MapiBuf → Bytes → Outcome FramingError MapiBuf
unfolding make_room
append_loop fuel me [] = ok me
append_loop zero me (c ∷ cs) = panic
append_loop (suc fuel) me (c ∷ cs) = do
  me ← make_room me
  let n = min (length (c ∷ cs)) me.block_left
  append_loop fuel
      (record me { buffer = me.buffer ++ take n (c ∷ cs); block_left = me.block_left - n })
      (drop n (c ∷ cs))

unfoldable pub append_long : MapiBuf → Bytes → Outcome FramingError MapiBuf
unfolding append_loop
append_long me input = append_loop (length input) me input

-- The happy path and the long path.
unfoldable pub append : MapiBuf → Bytes → Outcome FramingError MapiBuf
unfolding prepare_reset append_long
append me input =
    let me = prepare_reset me in
    if leb (length input) me.block_left
    then ok (record me { buffer = me.buffer ++ input; block_left = me.block_left - length input })
    else append_long me input

-- `MapiBuf::end`
unfoldable pub end_message : MapiBuf → Outcome FramingError MapiBuf
unfolding prepare_reset finish_block
end_message me = finish_block (prepare_reset me) true

-- `reset` behind its first line: the new state and the bytes to send. The assertion that the message
-- is complete is one of debug builds only and is not made here; a length below two cannot be cut.
unfoldable pub hand_out : MapiBuf → Outcome FramingError (MapiBuf × Bytes)
hand_out me = do
  raw_len ←
      if me.block_left == blocksize
      then unwrap (checked_sub (length me.buffer) 2)
      else ok (length me.buffer)
  ok (record me { block_left = blocksize; reset_pending = true }, take raw_len me.buffer)

unfoldable pub reset : MapiBuf → Outcome FramingError (MapiBuf × Bytes)
unfolding prepare_reset hand_out
reset me = hand_out (prepare_reset me)

unfoldable pub end_reset : MapiBuf → Outcome FramingError (MapiBuf × Bytes)
unfolding end_message reset
end_reset me = do me ← end_message me; reset me

-- `write_reset_plus` up to the write: the extra chunks, the end of the message, the bytes to send.
unfoldable pub append_all : MapiBuf → List Bytes → Outcome FramingError MapiBuf
unfolding append
append_all me [] = ok me
append_all me (chunk ∷ extra) = do me ← append me chunk; append_all me extra

unfoldable pub write_reset_plus : MapiBuf → List Bytes → Outcome FramingError (MapiBuf × Bytes)
unfolding append_all end_reset
write_reset_plus me extra = do me ← append_all me extra; end_reset me

unfoldable pub peek : MapiBuf → Bytes
peek me = if me.reset_pending then [] else me.buffer
