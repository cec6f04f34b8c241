-- ===== src/Framing/Writing/Represents.antt =====
-- What a `MapiBuf` stands for: bytes of finished messages, and the payload of the open message.
use monetdb_rust.Prelude.{
  ℕ, ◌+◌, ◌-◌, ◌≤◌, ◌≡◌, refl, sym, ap, ◌∙◌, Bool, true, false, [], ◌++◌, leb, arith, append_assoc,
  append-nil, Bytes, length, drop, length-append, take-append, drop-append, ok, checked_sub-eq,
}
use monetdb_rust.Framing.Header
use monetdb_rust.Framing.Header.{Header, FramingError, blocksize, from_slice-new}
use monetdb_rust.Framing.BlockState
use monetdb_rust.Framing.BlockState.{BlockState, start, end, new, from_header}
use monetdb_rust.Framing.BlockState.Automaton.{run, run-new, run_join}
use monetdb_rust.Framing.Writing.{MapiBuf, dummy, write_at, finish_block}

-- A block on the wire: its header and its chunk read back as the chunk.
pub record Block (n : ℕ) (last : Bool) : Type 0 where
  pub header : Header
  pub made : Header.new n last ≡ ok header
  pub reads :
      (chunk : Bytes)
      → length chunk ≡ n
      → run start (Header.as_bytes header ++ chunk) ≡ ok (chunk, BlockState.new 0 last)

pub block : (n : ℕ) (last : Bool) → n ≤ blocksize → Block n last
unfolding run from_header Header.from_slice
block n last fits =
    let (h, made, accepted, size_is, last_is, _, _) = from_slice-new n last fits in
    record {
      header = h;
      made = made;
      reads = λ chunk e.
          let none : n - length chunk ≡ 0 = omega arith in
          rw accepted (rw (size_is, last_is) (rw (run-new n last chunk (omega arith)) (rw none)));
    }

-- Overwriting in the middle of a buffer.
write_at-append :
    (front old new rest : Bytes) (at : ℕ)
    → at ≡ length front
    → length old ≡ length new
    → write_at (front ++ (old ++ rest)) at new ≡ ok (front ++ (new ++ rest))
unfolding write_at
write_at-append front old new rest at e l =
    let before = take-append at front (old ++ rest) e in
    let to =
      drop-append (at + length new) (front ++ old) rest (omega (arith, length-append front old)) in
    let after : drop (at + length new) (front ++ (old ++ rest)) ≡ rest =
      ap (drop (at + length new)) (sym (append_assoc front old rest)) ∙ to in
    let fits : leb (at + length new) (length (front ++ (old ++ rest))) ≡ true =
      ground (arith, length-append front (old ++ rest), length-append old rest) in
    rw fits (rw (before, after))

-- What stands in the place of the open header is overwritten with the header of its block.
finish_block-layout :
    (me : MapiBuf) (last : Bool) (front mark chunk : Bytes) (h : Header)
    → length mark ≡ 2
    → me.buffer ≡ front ++ (mark ++ chunk)
    → length chunk + me.block_left ≡ blocksize
    → Header.new (length chunk) last ≡ ok h
    → finish_block me last
      ≡ ok (record me {
        buffer = (front ++ (Header.as_bytes h ++ chunk)) ++ dummy;
        block_left = blocksize;
      })
unfolding finish_block
finish_block-layout me last front mark chunk h two layout room made =
    let size : length me.buffer ≡ length chunk + (length front + 2) =
      ap length layout
      ∙ omega (arith, length-append front (mark ++ chunk), length-append mark chunk) in
    let used = checked_sub-eq blocksize me.block_left (length chunk) (omega arith) in
    let behind = checked_sub-eq (length me.buffer) (length chunk) (length front + 2) size in
    let at = checked_sub-eq (length front + 2) 2 (length front) (omega arith) in
    let written = write_at-append front mark (Header.as_bytes h) chunk (length front) refl two in
    rw used (rw made (rw behind (rw at (rw (layout, written)))))

-- Bytes of finished messages, blocks of the open message that are finished, and its open block.
pub record Represents (sent payload : Bytes) (me : MapiBuf) : Type 0 where
  pub front : Bytes
  pub read : Bytes
  pub mark : Bytes
  pub chunk : Bytes
  pub two : length mark ≡ 2
  pub layout : me.buffer ≡ sent ++ (front ++ (mark ++ chunk))
  pub room : length chunk + me.block_left ≡ blocksize
  pub live : me.reset_pending ≡ false
  pub reads : run start front ≡ ok (read, start)
  pub payload_is : payload ≡ read ++ chunk

-- The open message is empty: all that the buffer holds is `sent`.
pub record Complete (sent : Bytes) (me : MapiBuf) : Type 0 where
  pub mark : Bytes
  pub two : length mark ≡ 2
  pub layout : me.buffer ≡ sent ++ mark
  pub empty : me.block_left ≡ blocksize
  pub live : me.reset_pending ≡ false

pub Complete-Represents : {sent : Bytes} {me : MapiBuf} → Complete sent me → Represents sent [] me
unfolding run
Complete-Represents c = record {
  front = [];
  read = [];
  mark = c.mark;
  chunk = [];
  two = c.two;
  layout = rw append-nil c.layout;
  room = omega (arith, c.empty);
  live = c.live;
  reads = refl;
  payload_is = refl;
}

-- A finished block of the open message.
pub finish_block-Represents :
    {sent payload : Bytes} {me : MapiBuf}
    → Represents sent payload me
    → (me' : MapiBuf) × (finish_block me false ≡ ok me')
      × Represents sent payload me'
      × (me'.block_left ≡ blocksize)
unfolding new
finish_block-Represents {sent} {payload} {me} r =
    let b = block (length r.chunk) false (omega (arith, r.room)) in
    let wire = Header.as_bytes b.header ++ r.chunk in
    (
      record me { buffer = ((sent ++ r.front) ++ wire) ++ dummy; block_left = blocksize },
      finish_block-layout me false (sent ++ r.front) r.mark r.chunk b.header r.two
          (rw append_assoc r.layout) r.room b.made,
      record {
        front = r.front ++ wire;
        read = r.read ++ r.chunk;
        mark = dummy;
        chunk = [];
        two = refl;
        layout = simp append_assoc;
        room = refl;
        live = r.live;
        reads = run_join r.front wire start r.reads (b.reads r.chunk refl);
        payload_is = rw append-nil r.payload_is;
      },
      refl,
    )

-- The last block of the open message: the message is `wire`.
pub finish_block-Complete :
    {sent payload : Bytes} {me : MapiBuf}
    → Represents sent payload me
    → (me' : MapiBuf) × (wire : Bytes) × (finish_block me true ≡ ok me')
      × (run start wire ≡ ok (payload, end))
      × Complete (sent ++ wire) me'
unfolding new
finish_block-Complete {sent} {payload} {me} r =
    let b = block (length r.chunk) true (omega (arith, r.room)) in
    let wire = Header.as_bytes b.header ++ r.chunk in
    (
      record me { buffer = ((sent ++ r.front) ++ wire) ++ dummy; block_left = blocksize },
      r.front ++ wire,
      finish_block-layout me true (sent ++ r.front) r.mark r.chunk b.header r.two
          (rw append_assoc r.layout) r.room b.made,
      rw r.payload_is (run_join r.front wire start r.reads (b.reads r.chunk refl)),
      record {
        mark = dummy;
        two = refl;
        layout = ap (λ (z : Bytes). z ++ dummy) (append_assoc sent r.front wire);
        empty = refl;
        live = r.live;
      },
    )
