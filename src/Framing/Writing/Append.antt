-- ===== src/Framing/Writing/Append.antt =====
-- `append` keeps what the buffer stands for, whatever the length of the input.
use monetdb_rust.Prelude.{
  ℕ, zero, suc, ◌-◌, ◌≤◌, ◌<◌, ◌≡◌, refl, ap, ◌∙◌, min, false, List, [], ◌∷◌, ◌++◌, leb, ◌==◌,
  Bool-cases, inl, inr, arith, append_assoc, append-nil, Bytes, length, take, drop, length-append,
  length-take, length-drop, take-append-drop, flatten, subst, Outcome, ok,
}
use monetdb_rust.Framing.Header.{FramingError}
use monetdb_rust.Framing.Writing.{
  MapiBuf, prepare_reset, make_room, append_loop, append_long, append, append_all,
}
use monetdb_rust.Framing.Writing.Represents.{Represents, finish_block-Represents}

-- A result that is there, and stands for these bytes.
record Gives (sent payload : Bytes) (m : Outcome FramingError MapiBuf) : Type 0 where
  result : MapiBuf
  returns : m ≡ ok result
  holds : Represents sent payload result

-- Bytes that fit the open block.
extend :
    {sent payload : Bytes} {me : MapiBuf} (input : Bytes)
    → Represents sent payload me
    → length input ≤ me.block_left
    → Represents sent
        (payload ++ input)
        (record me { buffer = me.buffer ++ input; block_left = me.block_left - length input })
extend {sent} input r fits = record {
  front = r.front;
  read = r.read;
  mark = r.mark;
  chunk = r.chunk ++ input;
  two = r.two;
  layout = rw r.layout (simp append_assoc);
  room = omega (arith, length-append r.chunk input, r.room);
  live = r.live;
  reads = r.reads;
  payload_is = rw r.payload_is (append_assoc r.read r.chunk input);
}

record Roomy (sent payload : Bytes) (me : MapiBuf) : Type 0 where
  roomy : MapiBuf
  made : make_room me ≡ ok roomy
  holds : Represents sent payload roomy
  free : 0 < roomy.block_left

make_room-Roomy :
    {sent payload : Bytes} {me : MapiBuf} → Represents sent payload me → Roomy sent payload me
unfolding make_room
make_room-Roomy {me = me} r = elim (Bool-cases (me.block_left == 0)) [
  | inl full ↦
      let (me', finished, holds, left) = finish_block-Represents r in
      record { roomy = me'; made = rw full finished; holds = holds; free = omega (arith, left) }
  | inr free ↦ record { roomy = me; made = rw free; holds = r; free = ground arith }
]

append_loop-Gives :
    (fuel : ℕ) {sent payload : Bytes} {me : MapiBuf} (input : Bytes)
    → Represents sent payload me
    → length input ≤ fuel
    → Gives sent (payload ++ input) (append_loop fuel me input)
unfolding append_loop
append_loop-Gives zero {me = me} [] r fits = record {
  result = me;
  returns = refl;
  holds = rw append-nil r;
}
append_loop-Gives (suc fuel) {me = me} [] r fits = record {
  result = me;
  returns = refl;
  holds = rw append-nil r;
}
append_loop-Gives zero (c ∷ cs) r fits = absurd (omega arith)
append_loop-Gives (suc fuel) {sent} {payload} {me} (c ∷ cs) r fits =
    let room = make_room-Roomy r in
    let n = min (suc (length cs)) room.roomy.block_left in
    let cut = length-take n (c ∷ cs) in
    let filled = extend (take n (c ∷ cs)) room.holds (omega (arith, cut)) in
    let size : length (take n (c ∷ cs)) ≡ n = omega (arith, cut) in
    let rest =
      append_loop-Gives fuel (drop n (c ∷ cs)) (rw size at filled)
        (omega (arith, length-drop n (c ∷ cs), room.free)) in
    let whole =
      append_assoc payload (take n (c ∷ cs)) (drop n (c ∷ cs))
      ∙ ap (λ (z : Bytes). payload ++ z) (take-append-drop n (c ∷ cs)) in
    rw room.made (record {
      result = rest.result;
      returns = rest.returns;
      holds = subst (λ (z : Bytes). Represents sent z rest.result) whole rest.holds;
    })

pub prepare_reset_live : (me : MapiBuf) → me.reset_pending ≡ false → prepare_reset me ≡ me
unfolding prepare_reset
prepare_reset_live me h = rw h

-- A result that is there, and stands for these bytes once a reset that was put off is done.
pub record Writes (sent payload : Bytes) (m : Outcome FramingError MapiBuf) : Type 0 where
  pub result : MapiBuf
  pub returns : m ≡ ok result
  pub holds : Represents sent payload (prepare_reset result)

Gives-Writes :
    {sent payload : Bytes} {m : Outcome FramingError MapiBuf}
    → Gives sent payload m
    → Writes sent payload m
Gives-Writes g = record {
  result = g.result;
  returns = g.returns;
  holds = rw (prepare_reset_live g.result g.holds.live) g.holds;
}

-- On a buffer that holds finished messages `sent` and an unfinished one with some payload, `append`
-- does not fail, whatever the length of its input: the buffer then holds the same finished messages,
-- and an unfinished one whose payload is the old one followed by the input.
pub append-Writes :
    {sent payload : Bytes} (me : MapiBuf) (input : Bytes)
    → Represents sent payload (prepare_reset me)
    → Writes sent (payload ++ input) (append me input)
unfolding append append_long
append-Writes me input r = elim (Bool-cases (leb (length input) (prepare_reset me).block_left)) [
  | inl fits ↦
      Gives-Writes
        (rw fits (record { result = _; returns = refl; holds = extend input r (ground arith) }))
  | inr long ↦ Gives-Writes (rw long (append_loop-Gives (length input) input r (omega arith)))
]

pub append_all-Writes :
    (extra : List Bytes) {sent payload : Bytes} (me : MapiBuf)
    → Represents sent payload (prepare_reset me)
    → Writes sent (payload ++ flatten extra) (append_all me extra)
unfolding append_all
append_all-Writes [] me r = record { result = me; returns = refl; holds = rw append-nil r }
append_all-Writes (chunk ∷ extra) {sent} {payload} me r =
    let first = append-Writes me chunk r in
    let rest = append_all-Writes extra first.result first.holds in
    rw first.returns (record {
      result = rest.result;
      returns = rest.returns;
      holds = rw append_assoc at rest.holds;
    })
