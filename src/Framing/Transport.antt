-- ===== src/Framing/Transport.antt =====
-- From `MapiBuf` to `MapiReader`: what one side appends is what the other side reads.
use monetdb_rust.Prelude.{
  ℕ, ◌<◌, ◌≡◌, sym, ◌∙◌, List, [], ◌++◌, Bytes, length, flatten, ok, Returns, Returns-mono,
}
use monetdb_rust.Framing.BlockState.{start}
use monetdb_rust.Framing.BlockState.Prefix.{run_unique}
use monetdb_rust.Framing.Source.{Source}
use monetdb_rust.Framing.Writing.{MapiBuf, prepare_reset, write_reset_plus}
use monetdb_rust.Framing.Writing.Represents.{Complete}
use monetdb_rust.Framing.Writing.RoundTrip.{write_reset_plus-Sends}
use monetdb_rust.Framing.Reading.{to_limited}
use monetdb_rust.Framing.Reading.Complete.{Reliable}
use monetdb_rust.Framing.Reading.Total.{Receives, to_limited-Receives}
use monetdb_rust.Framing.Reading.Message.{Message, to_limited-Message}

-- The payload is returned, and the source is left at the byte behind the message.
abbrev pub Carries : (src : Source) → Bytes → Bytes → Bytes × src.R → Type 0
Carries src payload rest r = (r.0 ≡ payload) × (src.pending r.1 ≡ rest)

-- Take a buffer that holds nothing, as a new one or one after a reset, the bytes `wire` that
-- `write_reset_plus` sends from it for some chunks, and a source that has these bytes to come, and
-- any others behind them. Read with buffers that are never empty and enough fuel, `to_limited` does
-- not panic, and when it returns, the payload is the chunks, joined, and the source has exactly the
-- other bytes to come.
pub to_limited-write_reset_plus :
    (src : Source) (me me' : MapiBuf) (extra : List Bytes) (wire : Bytes) (rd : src.R)
    (rest : Bytes) (room : ℕ → ℕ) (fuel limit : ℕ)
    → Complete [] (prepare_reset me)
    → write_reset_plus me extra ≡ ok (me', wire)
    → src.pending rd ≡ wire ++ rest
    → ((n : ℕ) → 0 < room n)
    → length (src.pending rd) < fuel
    → Returns (Carries src (flatten extra) rest) (to_limited src room fuel rd limit)
to_limited-write_reset_plus src me me' extra wire rd rest room fuel limit c sent comes rooms f =
    let sends = write_reset_plus-Sends me extra c in
    let wire_is : wire ≡ sends.wire = cc (sends.returns, sent) in
    Returns-mono (Message src rd limit) (Carries src (flatten extra) rest) _
      (to_limited-Message src room fuel rd limit rooms f)
      (λ r m.
        let unique =
          run_unique m.consumed wire (src.pending r.1) rest start (sym m.splits ∙ comes) m.decodes
            (rw wire_is sends.decodes) in
        (unique.1, unique.2))

-- With such a `wire`, and a source that gives the bytes it has: `to_limited` returns, the chunks,
-- joined, with the source at the other bytes, or, if they are more than `limit` bytes, the error
-- that says so. The buffers are never empty, and the fuel is more than the source has bytes.
pub write_reset_plus-Receives :
    (src : Source) (reliable : Reliable src) (me me' : MapiBuf) (extra : List Bytes) (wire : Bytes)
    (rd : src.R) (rest : Bytes) (room : ℕ → ℕ) (fuel limit : ℕ)
    → Complete [] (prepare_reset me)
    → write_reset_plus me extra ≡ ok (me', wire)
    → src.pending rd ≡ wire ++ rest
    → ((n : ℕ) → 0 < room n)
    → length (src.pending rd) < fuel
    → Receives src reliable room fuel rd limit (flatten extra) rest
write_reset_plus-Receives src reliable me me' extra wire rd rest room fuel limit c sent comes rooms
      f =
    let sends = write_reset_plus-Sends me extra c in
    let wire_is : wire ≡ sends.wire = cc (sends.returns, sent) in
    to_limited-Receives src reliable room fuel rd limit (flatten extra) rest rooms f
      (record { message = wire; splits = comes; decodes = rw wire_is sends.decodes })
