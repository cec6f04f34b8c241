-- ===== src/Framing/Writing/RoundTrip.antt =====
-- What `MapiBuf` sends is read back by the block automaton as what was appended.
use monetdb_rust.Prelude.{
  ◌+◌, ◌≡◌, refl, ap, ◌∙◌, true, List, [], ◌++◌, ◌==◌, arith, Bytes, length, take, flatten,
  length-append, take-append, length-take, checked_sub-eq, Outcome, ok,
}
use monetdb_rust.Framing.BlockState.{start, end}
use monetdb_rust.Framing.BlockState.Automaton.{run}
use monetdb_rust.Framing.Header.{FramingError, blocksize}
use monetdb_rust.Framing.Writing.{
  MapiBuf, new, prepare_reset, end_message, hand_out, reset, end_reset, write_reset_plus,
}
use monetdb_rust.Framing.Writing.Append.{prepare_reset_live, append_all-Writes}
use monetdb_rust.Framing.Writing.Represents.{
  Represents, Complete, finish_block-Complete, Complete-Represents,
}

pub new-Complete : Complete [] new
new-Complete = record { mark = _; two = refl; layout = refl; empty = refl; live = refl }

-- What `end` gives.
pub record Ends (sent payload : Bytes) (m : Outcome FramingError MapiBuf) : Type 0 where
  pub result : MapiBuf
  pub wire : Bytes
  pub returns : m ≡ ok result
  pub decodes : run start wire ≡ ok (payload, end)
  pub complete : Complete (sent ++ wire) (prepare_reset result)

-- On a buffer that holds finished messages `sent` and an unfinished one with some payload, `end`
-- does not fail: it appends to the finished messages bytes that the block automaton reads as that
-- payload, up to the end, and the buffer then holds finished messages only.
pub end_message-Ends :
    {sent payload : Bytes} (me : MapiBuf)
    → Represents sent payload (prepare_reset me)
    → Ends sent payload (end_message me)
unfolding end_message
end_message-Ends me r =
    let (me', wire, returns, decodes, complete) = finish_block-Complete r in
    record {
      result = me';
      wire = wire;
      returns = returns;
      decodes = decodes;
      complete = rw (prepare_reset_live me' complete.live) complete;
    }

-- What `reset` gives.
pub record Resets (sent : Bytes) (m : Outcome FramingError (MapiBuf × Bytes)) : Type 0 where
  pub result : MapiBuf
  pub returns : m ≡ ok (result, sent)
  pub complete : Complete [] (prepare_reset result)

hand_out-Resets : {sent : Bytes} (me : MapiBuf) → Complete sent me → Resets sent (hand_out me)
unfolding hand_out prepare_reset
hand_out-Resets {sent} me c =
    let total : length me.buffer ≡ 2 + length sent =
      ap length c.layout ∙ omega (arith, length-append sent c.mark, c.two) in
    let full : (me.block_left == blocksize) ≡ true = ground (arith, c.empty) in
    let cut = checked_sub-eq (length me.buffer) 2 (length sent) total in
    rw (full, cut)
      (record {
        result = record me { block_left = blocksize; reset_pending = true };
        returns =
            ap (λ (z : Bytes). ok (record me { block_left = blocksize; reset_pending = true }, z))
              (ap (take (length sent)) c.layout ∙ take-append (length sent) sent c.mark refl);
        complete = record {
          mark = take 2 me.buffer;
          two = omega (arith, length-take 2 me.buffer, total);
          layout = refl;
          empty = refl;
          live = refl;
        };
      })

-- On a buffer that holds finished messages only, `reset` does not fail: it gives out exactly these
-- messages, and leaves a buffer that holds nothing.
pub reset-Resets :
    {sent : Bytes} (me : MapiBuf) → Complete sent (prepare_reset me) → Resets sent (reset me)
unfolding reset
reset-Resets me c = hand_out-Resets (prepare_reset me) c

-- What `write_reset_plus` gives.
pub record Sends (sent payload : Bytes) (m : Outcome FramingError (MapiBuf × Bytes)) : Type 0 where
  pub result : MapiBuf
  pub wire : Bytes
  pub returns : m ≡ ok (result, sent ++ wire)
  pub decodes : run start wire ≡ ok (payload, end)
  pub complete : Complete [] (prepare_reset result)

-- A buffer that is empty, or holds finished messages `sent`, sends after them one message, which
-- the block automaton reads back as the appended chunks, joined; no step panics, and the buffer
-- then stands for nothing.
pub write_reset_plus-Sends :
    {sent : Bytes} (me : MapiBuf) (extra : List Bytes)
    → Complete sent (prepare_reset me)
    → Sends sent (flatten extra) (write_reset_plus me extra)
unfolding write_reset_plus end_reset
write_reset_plus-Sends me extra c =
    let all = append_all-Writes extra me (Complete-Represents c) in
    let ended = end_message-Ends all.result all.holds in
    let out = reset-Resets ended.result ended.complete in
    rw all.returns (
      rw ended.returns (record {
        result = out.result;
        wire = ended.wire;
        returns = out.returns;
        decodes = ended.decodes;
        complete = out.complete;
      }))
