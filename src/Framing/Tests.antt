-- ===== src/Framing/Tests.antt =====
-- Runs of the framing code at concrete inputs, and the properties at inputs that meet their hypotheses.
use monetdb_rust.Prelude.{
  ℕ, ◌≤◌, ◌<◌, ◌≡◌, ◌≢◌, refl, sym, true, List, [], ◌∷◌, ◌++◌, arith, Bytes, codes, length, take,
  drop, take-append-drop, length-take, leb, Bool-cases, inl, inr, if◌then◌else◌, Outcome, ok, err,
  panic, Returns, IsOk, checked_sub,
}
use monetdb_rust.Framing.Header
use monetdb_rust.Framing.Header.{Header, as_bytes, from_slice-new}
use monetdb_rust.Framing.BlockState
use monetdb_rust.Framing.BlockState.{
  from_header, skip_loop, start, partial_header, body, end, skip_headers,
}
use monetdb_rust.Framing.BlockState.Automaton.{run, step, run-append, and_then}
use monetdb_rust.Framing.BlockState.Refines.{Interprets, skip_headers-Interprets}
use monetdb_rust.Framing.IoError.{IoError, simple, unexpected_eof}
use monetdb_rust.Framing.Source.{Source}
use monetdb_rust.Framing.IoError.{kind, is_interrupted}
use monetdb_rust.Framing.Retry.{read_again}
use monetdb_rust.Prelude.{◌<◌}
use monetdb_rust.Framing.Writing.{
  MapiBuf, new, dummy, hand_out, prepare_reset, reset, write_at, finish_block, append, append_all,
  end_message, end_reset, write_reset_plus,
}
use monetdb_rust.Framing.Writing.Append.{Writes, append-Writes}
use monetdb_rust.Framing.Writing.Represents.{Complete, Complete-Represents}
use monetdb_rust.Framing.Writing.RoundTrip.{
  new-Complete, Resets, reset-Resets, Sends, write_reset_plus-Sends, Ends, end_message-Ends,
}
use monetdb_rust.Framing.Reading
use monetdb_rust.Framing.Reading.{
  take_to_end, check_end, finish_with, finish, skip_to_end, is_end, MapiReader, plain_eof,
  read_header, read_some, read_ahead, interpret_body, read_body, read_loop, do_read, to_limited,
}
use monetdb_rust.Framing.Reading.Message.{Message, to_limited-Message}
use monetdb_rust.Framing.Reading.Sound.{Delivers, do_read-Delivers}
use monetdb_rust.Framing.Transport.{Carries, to_limited-write_reset_plus, write_reset_plus-Receives}
use monetdb_rust.Framing.Reading.Complete.{Reliable}
use monetdb_rust.Framing.Reading.Total.{Receives, to_limited-Receives}

-- A source that holds its bytes, as `io::Cursor` does.
abbrev bytes_read : Bytes → ℕ → Outcome IoError (Bytes × Bytes)
bytes_read r n = ok (take n r, drop n r)

abbrev bytes_read_exact : Bytes → ℕ → Outcome IoError (Bytes × Bytes)
bytes_read_exact r n =
    if leb n (length r) then ok (take n r, drop n r) else err (simple unexpected_eof)

bytes_read_takes :
    (r : Bytes) (n : ℕ) (buf r' : Bytes)
    → bytes_read r n ≡ ok (buf, r')
    → (r ≡ buf ++ r') × (length buf ≤ n)
bytes_read_takes r n buf r' e =
    let front : take n r ≡ buf = cc in
    let back : drop n r ≡ r' = cc in
    (
      rw (← front, ← back) (sym (take-append-drop n r)),
      rw (← front) (omega (arith, length-take n r)),
    )

abbrev bytes_unread : Outcome IoError (Bytes × Bytes)
bytes_unread = err (simple unexpected_eof)

refused : {r : Bytes × Bytes} → bytes_unread ≡ ok r → ⊥
refused h = cc

bytes_read_exact_takes :
    (r : Bytes) (n : ℕ) (buf r' : Bytes)
    → bytes_read_exact r n ≡ ok (buf, r')
    → (r ≡ buf ++ r') × (length buf ≡ n)
bytes_read_exact_takes r n buf r' e = elim (Bool-cases (leb n (length r))) [
  | inl fits ↦
      let both : bytes_read r n ≡ ok (buf, r') = rw fits at e in
      let front : take n r ≡ buf = cc in
      ((bytes_read_takes r n buf r' both).0, rw (← front) (ground (arith, length-take n r)))
  | inr short ↦ absurd (refused (rw short at e))
]

bytes_read_exact_returns : (r : Bytes) (n : ℕ) → bytes_read_exact r n ≢ panic
bytes_read_exact_returns r n e = ground arith

bytes_read_returns : (r : Bytes) (n : ℕ) → bytes_read r n ≢ panic
bytes_read_returns r n e = cc

bytes_read_less :
    (r : Bytes) (n : ℕ) (e : IoError)
    → bytes_read r n ≡ err e
    → is_interrupted (kind e) ≡ true
    → 0 < 0
bytes_read_less r n e h i = absurd (cc)

abbrev cursor : Source
cursor = record {
  R = Bytes;
  read = bytes_read;
  read_exact = bytes_read_exact;
  pending = λ r. r;
  read_takes = bytes_read_takes;
  read_exact_takes = bytes_read_exact_takes;
  read_returns = bytes_read_returns;
  read_exact_returns = bytes_read_exact_returns;
  resume = λ r. r;
  interruptions = λ r. 0;
  resume_keeps = λ r. refl;
  resume_less = bytes_read_less;
}

bytes_reads :
    (r : Bytes) (n : ℕ)
    → 0 < n
    → 0 < length r
    → (buf : Bytes) × (r' : Bytes) × (bytes_read r n ≡ ok (buf, r')) × (0 < length buf)
bytes_reads r n h k = (take n r, drop n r, refl, omega (arith, h, k, length-take n r))

bytes_reads_exact : (r : Bytes) (n : ℕ) → n ≤ length r → IsOk (bytes_read_exact r n)
bytes_reads_exact r n h =
    let fits : leb n (length r) ≡ true = ground arith in ((take n r, drop n r), rw fits refl)

cursor_is_reliable : Reliable cursor
cursor_is_reliable = record { reads = bytes_reads; reads_exact = bytes_reads_exact }

abbrev hello : Bytes
hello = codes "sSELECT"

abbrev chunks : List Bytes
chunks = codes "sSEL" ∷ codes "ECT" ∷ []

abbrev hello_wire : Bytes
hello_wire = 15 ∷ 0 ∷ hello

abbrev sent_buffer : MapiBuf
sent_buffer = record { buffer = hello_wire ++ dummy; block_left = 8190; reset_pending = true }

-- Two blocks, of two bytes and of one, and the start of another message.
abbrev two_blocks : Bytes
two_blocks = 4 ∷ 0 ∷ 65 ∷ 66 ∷ 3 ∷ 0 ∷ 67 ∷ []

new_is_empty : Complete [] (prepare_reset new)
unfolding prepare_reset
new_is_empty = new-Complete

sends_hello : write_reset_plus new chunks ≡ ok (sent_buffer, hello_wire)
unfolding write_reset_plus append_all append end_reset end_message reset hand_out finish_block
    write_at prepare_reset checked_sub Header.new
sends_hello = refl

reads_two_blocks :
    to_limited cursor (λ n. 3) 20 (two_blocks ++ hello_wire) 100 ≡ ok (codes "ABC", hello_wire)
unfolding to_limited take_to_end check_end finish_with finish skip_to_end is_end do_read read_loop
    read_body read_some interpret_body read_ahead read_header plain_eof skip_headers skip_loop
    Header.from_slice Header.from_bytes Header.size Header.is_last from_header BlockState.new
    read_again
reads_two_blocks = refl

two_blocks_decode : run start two_blocks ≡ ok (codes "ABC", end)
unfolding run step Header.size Header.is_last from_header BlockState.new read_again
two_blocks_decode = refl

-- The witnesses.
write_reset_plus-Receives_example :
    Receives cursor cursor_is_reliable (λ n. 3) 40 (hello_wire ++ two_blocks) 100 hello two_blocks
write_reset_plus-Receives_example =
    write_reset_plus-Receives cursor cursor_is_reliable new sent_buffer chunks hello_wire
      (hello_wire ++ two_blocks) two_blocks (λ n. 3) 40 100 new_is_empty sends_hello refl
      (λ n. omega arith) (omega arith)

to_limited-Receives_example :
    Receives cursor cursor_is_reliable
      (λ n. 3)
      20
      (two_blocks ++ hello_wire)
      2
      (codes "ABC")
      hello_wire
to_limited-Receives_example =
    to_limited-Receives cursor cursor_is_reliable (λ n. 3) 20 (two_blocks ++ hello_wire) 2
      (codes "ABC") hello_wire (λ n. omega arith) (omega arith)
      (record { message = two_blocks; splits = refl; decodes = two_blocks_decode })

to_limited-write_reset_plus_example :
    Returns
      (Carries cursor hello two_blocks)
      (to_limited cursor (λ n. 3) 40 (hello_wire ++ two_blocks) 100)
to_limited-write_reset_plus_example =
    to_limited-write_reset_plus cursor new sent_buffer chunks hello_wire (hello_wire ++ two_blocks)
      two_blocks (λ n. 3) 40 100 new_is_empty sends_hello refl (λ n. omega arith) (omega arith)

to_limited-Message_example :
    Returns
      (Message cursor (two_blocks ++ hello_wire) 100)
      (to_limited cursor (λ n. 3) 20 (two_blocks ++ hello_wire) 100)
to_limited-Message_example =
    to_limited-Message cursor (λ n. 3) 20 (two_blocks ++ hello_wire) 100 (λ n. omega arith)
      (omega arith)

write_reset_plus-Sends_example : Sends [] hello (write_reset_plus new chunks)
write_reset_plus-Sends_example = write_reset_plus-Sends new chunks new_is_empty

skip_headers-Interprets_example : Interprets 0 start two_blocks (skip_headers start two_blocks)
skip_headers-Interprets_example = skip_headers-Interprets start two_blocks tt

do_read-Delivers_example :
    Returns
      (Delivers cursor (Reading.new two_blocks) 5)
      (do_read cursor 20 (Reading.new two_blocks) 5)
do_read-Delivers_example =
    do_read-Delivers cursor 20 (Reading.new two_blocks) 5 tt (omega arith) (omega arith)

append-Writes_example : Writes [] hello (append new hello)
append-Writes_example = append-Writes new hello (Complete-Represents new_is_empty)

end_message-Ends_example : Ends [] [] (end_message new)
end_message-Ends_example = end_message-Ends new (Complete-Represents new_is_empty)

reset-Resets_example : Resets [] (reset new)
reset-Resets_example = reset-Resets new new_is_empty

run-append_example :
    run start (two_blocks ++ hello_wire) ≡ and_then (run start two_blocks) hello_wire
run-append_example = run-append two_blocks hello_wire start

from_slice-new_example :
    (h : Header) × (Header.new 8190 true ≡ ok h)
    × (Header.from_slice (as_bytes h) ≡ ok h)
    × (Header.size h ≡ 8190)
    × (Header.is_last h ≡ true)
    × (h.lo < 256)
    × (h.hi < 256)
from_slice-new_example = from_slice-new 8190 true (omega arith)
