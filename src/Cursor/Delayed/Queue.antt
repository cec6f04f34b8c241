-- ===== src/Cursor/Delayed/Queue.antt =====
-- Each command of src/cursor/delayed.rs is one message, behind those that wait already.
use monetdb_rust.Prelude.{
  ◌≡◌, refl, Bool, true, false, sym, ap, ◌∙◌, ◌≢◌, map, append-nil, append_assoc, Outcome, ◌⊎◌, inl,
  inr, List, [], ◌∷◌, ◌++◌, Bytes, flatten, ok, ◌>>=◌, Bool-cases,
}
use monetdb_rust.Framing.Header.{FramingError}
use monetdb_rust.Cursor.Delayed.Newline.{append_all-ends, ends-split, ends-newline}
use monetdb_rust.Framing.BlockState.{start, end}
use monetdb_rust.Framing.BlockState.Automaton.{run}
use monetdb_rust.Framing.Writing.{MapiBuf, prepare_reset, peek}
use monetdb_rust.Framing.Writing.Represents.{Represents, Complete, Complete-Represents}
use monetdb_rust.Framing.Writing.Append.{append-Writes, append_all-Writes}
use monetdb_rust.Framing.Writing.RoundTrip.{end_message-Ends, reset-Resets}
use monetdb_rust.Cursor.Delayed.{
  DelayedCommands, ExpectedResponse, ends_with_newline, end_line, add_inner, send_delayed,
}

-- The bytes of messages that wait, one for each line.
pub data Messages : Bytes → List Bytes → Type 0 where
  none_waits : Messages [] []
  waits :
      {sent : Bytes} {lines : List Bytes} (wire line : Bytes)
      → Messages sent lines
      → run start wire ≡ ok (line, end)
      → Messages (sent ++ wire) (lines ++ line ∷ [])

-- The queue holds just these messages.
pub record Holds (me : DelayedCommands) (lines : List Bytes) : Type 0 where
  pub sent : Bytes
  pub complete : Complete sent (prepare_reset me.buffer)
  pub messages : Messages sent lines

-- The line that a command is sent as: the command itself, if that ends with a newline, and else the
-- command and a newline. Nothing is said of which it is for an empty command.
abbrev pub LineOf : Bytes → Bytes → Type 0
LineOf cmd line =
    ((line ≡ cmd) × ((cmd ≡ []) ⊎ ((front : Bytes) × (cmd ≡ front ++ 10 ∷ []))))
    ⊎ ((line ≡ cmd ++ 10 ∷ []) × ((front : Bytes) → cmd ≢ front ++ 10 ∷ []))
    ⊎ ((line ≡ 10 ∷ []) × (cmd ≡ []))

LineOf-ended :
    (cmd : Bytes) (ends : Bool)
    → ends ≡ true
    → (cmd ≡ []) ⊎ (ends ≡ ends_with_newline cmd)
    → LineOf cmd cmd
LineOf-ended cmd ends h (inl e) = inl (refl, inl e)
LineOf-ended cmd ends h (inr e) = inl (refl, inr (ends-split cmd (sym e ∙ h)))

LineOf-open :
    (cmd : Bytes) (ends : Bool)
    → ends ≡ false
    → (cmd ≡ []) ⊎ (ends ≡ ends_with_newline cmd)
    → LineOf cmd (cmd ++ 10 ∷ [])
LineOf-open cmd ends h (inl e) = inr (inr (rw e refl, e))
LineOf-open cmd ends h (inr e) = inr (
    inl (
      refl,
      λ front shape.
          let wrong = sym (ends-newline front) ∙ ap ends_with_newline (sym shape) ∙ (sym e ∙ h) in
          cc,
    ))

end_line-Represents :
    (buffer : MapiBuf) {sent payload : Bytes}
    → Represents sent payload (prepare_reset buffer)
    → (payload ≡ []) ⊎ (ends_with_newline (peek buffer) ≡ ends_with_newline payload)
    → (buffer' : MapiBuf) × (line : Bytes) × (end_line buffer ≡ ok buffer')
      × Represents sent line (prepare_reset buffer')
      × LineOf payload line
unfolding end_line
end_line-Represents buffer {sent} {payload} r known =
    elim (Bool-cases (ends_with_newline (peek buffer))) [
      | inl ends ↦ (buffer, payload, rw ends refl, r, LineOf-ended payload _ ends known)
      | inr goes_on ↦
          let w = append-Writes buffer (10 ∷ []) r in
          (
            w.result,
            payload ++ 10 ∷ [],
            rw goes_on w.returns,
            w.holds,
            LineOf-open payload _ goes_on known,
          )
    ]

-- On a queue that holds messages, `add_inner` does not fail: it appends one message and one expected
-- response. The message's payload is the command, with a newline behind it unless it ends with one; of
-- an empty command it is empty or a newline.
pub add_inner-Holds :
    (me : DelayedCommands) (lines : List Bytes) (descr : Bytes) (cmd : List Bytes)
    (ignore_server_error : Bool)
    → Holds me lines
    → (me' : DelayedCommands) × (line : Bytes) × (add_inner me descr cmd ignore_server_error
        ≡ ok me')
      × LineOf (flatten cmd) line
      × Holds me' (lines ++ line ∷ [])
      × (me'.responses
          ≡ me.responses
            ++ record { description = descr; ignore_server_error = ignore_server_error } ∷ [])
unfolding add_inner
add_inner-Holds me lines descr cmd ignore_server_error h =
    let all = append_all-Writes cmd me.buffer (Complete-Represents h.complete) in
    let (buffer, line, written, r, is_line) =
      end_line-Represents all.result all.holds
        (append_all-ends cmd me.buffer all.result all.returns) in
    let ended = end_message-Ends buffer r in
    (
      _,
      line,
      rw all.returns (rw (written, ◌>>=◌) (rw (ended.returns, ◌>>=◌) refl)),
      is_line,
      record {
        sent = h.sent ++ ended.wire;
        complete = ended.complete;
        messages = waits ended.wire line h.messages ended.decodes;
      },
      refl,
    )

-- A call of `add_inner`.
pub record Command : Type 0 where
  pub descr : Bytes
  pub cmd : List Bytes
  pub ignores : Bool

abbrev pub add_each : DelayedCommands → List Command → Outcome FramingError DelayedCommands
add_each me [] = ok me
add_each me (c ∷ cs) = do me' ← add_inner me c.descr c.cmd c.ignores; add_each me' cs

abbrev pub response_of : Command → ExpectedResponse
response_of c = record { description = c.descr; ignore_server_error = c.ignores }

abbrev pub LinesOf : List Command → List Bytes → Type 0
LinesOf [] [] = Unit
LinesOf (c ∷ cs) (line ∷ lines) = LineOf (flatten c.cmd) line × LinesOf cs lines
LinesOf _ _ = ⊥

-- The queue after the commands.
record Queued (me : DelayedCommands) (before : List Bytes) (commands : List Command) : Type 0 where
  result : DelayedCommands
  lines : List Bytes
  returns : add_each me commands ≡ ok result
  of_commands : LinesOf commands lines
  holds : Holds result (before ++ lines)
  expected : result.responses ≡ me.responses ++ map response_of commands

add_each-Queued :
    (commands : List Command) (me : DelayedCommands) (before : List Bytes)
    → Holds me before
    → Queued me before commands
add_each-Queued [] me before h = record {
  result = me;
  lines = [];
  returns = refl;
  of_commands = tt;
  holds = rw append-nil h;
  expected = rw append-nil refl;
}
add_each-Queued (c ∷ cs) me before h =
    let (me', line, e, is_line, h', r) = add_inner-Holds me before c.descr c.cmd c.ignores h in
    let q = add_each-Queued cs me' (before ++ line ∷ []) h' in
    record {
      result = q.result;
      lines = line ∷ q.lines;
      returns = rw e q.returns;
      of_commands = (is_line, q.of_commands);
      holds = rw append_assoc at q.holds;
      expected =
          q.expected
          ∙ ap (λ (z : List ExpectedResponse). z ++ map response_of cs) r
          ∙ append_assoc me.responses (response_of c ∷ []) (map response_of cs);
    }

-- Let a queue hold no messages. Commands that are added to it in turn and then sent with `send_delayed`
-- do not fail. What is sent is one message for each command, in their order, with the command's line as
-- its payload; the expected responses are those that the queue had and then one for each command, and
-- sending keeps them; the buffer then holds no messages.
pub send_delayed-Messages :
    (me : DelayedCommands) (commands : List Command)
    → Holds me []
    → (me' : DelayedCommands) × (me'' : DelayedCommands) × (lines : List Bytes) × (raw : Bytes)
      × (add_each me commands ≡ ok me')
      × (send_delayed me' ≡ ok (me'', raw))
      × LinesOf commands lines
      × Messages raw lines
      × (me''.responses ≡ me.responses ++ map response_of commands)
      × Holds me'' []
unfolding send_delayed
send_delayed-Messages me commands h =
    let q = add_each-Queued commands me [] h in
    let out = reset-Resets q.result.buffer q.holds.complete in
    (
      q.result,
      record q.result { buffer = out.result },
      q.lines,
      q.holds.sent,
      q.returns,
      rw (out.returns, ◌>>=◌) refl,
      q.of_commands,
      q.holds.messages,
      q.expected,
      record { sent = []; complete = out.complete; messages = none_waits },
    )
