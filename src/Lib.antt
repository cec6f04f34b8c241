-- ===== src/Lib.antt =====
-- The client library monetdb-rust: the message framing between client and server, the cursor's parsing of
-- replies, its reading of rows and its uploads, the parsing of decimals, a connection's operations and
-- their watchdog, the connection parameters with their validation and their URLs, and parts of the
-- login.
--
-- MAPI messages are sequences of blocks of at most 8190 bytes, each behind a header of two bytes with
-- its size and a flag on the last block of the message. The parts, from the wire up:
--
-- Framing/Header is `Header` of src/framing/blockstate.rs, the block header and its checks.
-- Framing/BlockState is `BlockState` of the same file, and `skip_headers`, which finds the next range
-- of payload in a piece of input. Framing/BlockState/Automaton is the specification that it and
-- everything below is held against: the block structure read one byte at a time.
-- Framing/Writing is `MapiBuf` of src/framing/writing.rs. A buffer is a record of its bytes, the room
-- left in the open block, and the pending reset; its operations return the new buffer, with the
-- bytes to send where the code gives them out.
-- Framing/IoError is `std::io::Error` as far as the code looks into it.
-- Framing/Source is `std::io::Read`, which is not part of this code: a record of `read` and
-- `read_exact`, with what their documentation promises as laws. Code above takes it as a parameter.
-- Framing/Retry is such a source whose reads are tried again when they were interrupted, which happens
-- finitely often in turn: `read_to_end` does that, and nothing else in the reader.
-- Framing/Reading is `MapiReader` of src/framing/reading.rs, over such a source. Framing/Reading/Complete
-- is about sources that give all the bytes they have, `Reliable`.
-- Framing/Transport is the writer and the reader together.
--
-- Cursor/Search is what the crate memchr promises, as a record of searches with laws, a parameter too.
-- Cursor/ReplyBuf is `ReplyBuf` of src/cursor/replies.rs: the bytes of a reply and a position. The
-- decoding of escapes goes through raw pointers there, which are offsets here; a read or a write out
-- of bounds would be a panic. Cursor/ReplyBuf/Escapes says what the escapes mean.
-- Cursor/Notices is what src/cursor/replies.rs finds in a whole response, and Cursor/Types is `MonetType`
-- of src/monettypes.rs.
-- Cursor/Replies is `ReplyParser` of src/cursor/replies.rs: its headers, the metadata of columns, the
-- parsing of one reply, the step to the next, and `exhaust` of src/cursor/mod.rs. The lines that the
-- crate bstr finds, the check for UTF-8 and the allocation of columns are parameters.
-- Cursor/RowSet is `RowSet` of src/cursor/rowset.rs: the fields of a row as places in the reply, which is
-- decoded in place. Cursor/RowSet/Text is the text of a row as a server sends it.
-- Cursor/Upload is `write_fragment` of src/cursor/upload.rs, held against the same block automaton.
-- Cursor/Delayed is `DelayedCommands` of src/cursor/delayed.rs, a queue over the writer of Framing.
-- Cursor/Windows is the arithmetic of `next_row` and `fetch_more_rows` in src/cursor/mod.rs.
-- Convert/RawDecimal is `RawDecimal` of src/convert/raw_decimal.rs for the unsigned types.
-- Conn/Operation is the start and the end of an operation in `run_locked_with_timeouts` of src/conn.rs,
-- with the cancellations and closings of other threads between them as a list of events.
-- Conn/Watchdog is `OperationWatchdog` of src/conn.rs, with the times of its thread's rounds as a list, and
-- what the clock can represent as a parameter, beyond which `arm` panics.
-- Parms/Parm, Parms/Value and Parms/Parameters are the types of these names in
-- src/parms/parameters.rs: the parameters with their names and numbers, the values that they can have,
-- and the table of all values with its flags. A table is a list, and an index out of range would be a
-- panic. Parms/Setters are the typed setters. Parms/Validated is `Validated::new`; what the clock can
-- represent is a parameter of it.
-- Parms/Percent is the percent coding of src/parms/urlparser.rs, and Parms/Urls the parsers of URLs and
-- the printer there; what the crate url finds in a URL is a record, and its parser a parameter.
--
-- Connecting is src/framing/connecting.rs: `Challenge` is the line with which a server opens the login
-- (Connecting/Challenge), `process_redirects` reads the answer, and `apply_redirect` takes up a URL that
-- the server sends the client on to, over Parms. The socket and the server's state are only handed on.
-- Connecting/ClientInfo is what the client tells about itself, `ClientInfo` and `SqlForm`; the name of the
-- library, which the build sets, is a parameter. Connecting/Trims says what trimming and splitting mean, and
-- Connecting/OptionsSound what the options of a challenge mean.
--
-- Rust's results are `Outcome` (Prelude/Results): `ok`, `err` or `panic`. Bytes are numbers, lists of
-- them are `Bytes`, and subtractions on `usize` that would panic are written as checked ones. The loops
-- of the reader run on fuel, where a loop that is not through counts as a panic: each round takes a
-- byte from the source, so the theorems hold with more fuel than bytes that are still to come. The
-- library function `read_to_end`, which reads into buffers of lengths that it chooses, has that choice
-- as a parameter. The decoding of escapes reads a byte in each round, and a fragment is written in at
-- most as many writes as it has blocks, so that both have fuel enough. A number is printed with more fuel
-- than its size. `exhaust` takes a round of fuel for each reply. A 64-bit integer is an integer of
-- Prelude/Int, whose range is checked where the code parses one.
--
-- Not modelled: logging, TLS, the sockets of the operating system, the hash functions, the formatting for
-- debugging, and the texts of error messages where they only repeat the parts of an error. Still to
-- come: the response to a challenge and the loop of logins, the streaming upload, dates and times.
pub mod Prelude
pub mod Framing
pub mod Cursor
pub mod Convert
pub mod Conn
pub mod Parms
pub mod Connecting
