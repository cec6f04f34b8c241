-- ===== src/Conn/Operation/Verdict.antt =====
-- How an operation of src/conn.rs ends, and whether the connection can be used behind it.
use monetdb_rust.Prelude.{
  ◌≡◌, refl, Bool, true, false, ◌||◌, List, [], ◌∷◌, if◌then◌else◌, none, some, Outcome, ok, err,
  panic,
}
use monetdb_rust.Conn.Operation.{
  CursorError, poisoned, closed, cancelled, timeout, OperationState, idle, active, Conn, Event,
  cancel, close, begin, cancel_operation, close_connection, meanwhile, final_error,
  conclude_operation, end_operation,
}

abbrev pub any_cancel : List Event → Bool
any_cancel [] = false
any_cancel (cancel ∷ events) = true
any_cancel (close ∷ events) = any_cancel events

abbrev pub any_close : List Event → Bool
any_close [] = false
any_close (close ∷ events) = true
any_close (cancel ∷ events) = any_close events

abbrev state_after : Bool → OperationState
state_after c = if c then cancelled else active

module _ {S : Type 0} where
  -- A connection on which an operation can start, with its socket.
  pub record Ready (me : Conn S) (sock : S) : Type 0 where
    pub sound : me.poisoned ≡ false
    pub is_open : me.closing ≡ false
    pub is_idle : me.operation_state ≡ idle
    pub present : me.sock ≡ some sock

  -- What the caller is told: a cancellation comes first, then the operation's time, then its result, and
  -- a socket is refused if the connection was closed meanwhile.
  abbrev pub verdict :
      (was_cancelled was_closed timed_out : Bool)
      → Outcome CursorError S
      → Outcome CursorError (Unit {0})
  verdict c d t panic = panic
  verdict true d t result = err cancelled
  verdict false d true result = err timeout
  verdict false d false (err e) = err (final_error e)
  verdict false true false (ok sock) = err closed
  verdict false false false (ok sock) = ok tt

  -- Behind the operation: ready again with the operation's socket, or refusing every other one.
  abbrev pub After : Conn S → Outcome CursorError S → Outcome CursorError (Unit {0}) → Type 0
  After me (ok sock) (ok _) = Ready me sock
  After me result (ok _) = ⊥
  After me result (err e) = (begin me).0 ≡ err closed
  After me result panic = (begin me).0 ≡ err poisoned

  -- The connection while the operation runs.
  record Running (c d : Bool) (me : Conn S) : Type 0 where
    sound : me.poisoned ≡ false
    closing_is : me.closing ≡ d
    state_is : me.operation_state ≡ state_after c
    taken : me.sock ≡ none

  meanwhile-Running :
      (events : List Event) (c d : Bool) (me : Conn S)
      → Running c d me
      → Running (c || any_cancel events) (d || any_close events) (meanwhile me events)
  unfolding meanwhile cancel_operation close_connection
  meanwhile-Running [] true true me r = r
  meanwhile-Running [] true false me r = r
  meanwhile-Running [] false true me r = r
  meanwhile-Running [] false false me r = r
  meanwhile-Running (cancel ∷ events) true d me r = rw r.state_is (
      meanwhile-Running events true d _
        (record { sound = r.sound; closing_is = r.closing_is; state_is = refl; taken = r.taken }))
  meanwhile-Running (cancel ∷ events) false d me r = rw r.state_is (
      meanwhile-Running events true d _
        (record { sound = r.sound; closing_is = r.closing_is; state_is = refl; taken = r.taken }))
  meanwhile-Running (close ∷ events) c true me r =
      meanwhile-Running events c true _
        (record { sound = r.sound; closing_is = refl; state_is = r.state_is; taken = r.taken })
  meanwhile-Running (close ∷ events) c false me r =
      meanwhile-Running events c true _
        (record { sound = r.sound; closing_is = refl; state_is = r.state_is; taken = r.taken })

  end_operation-verdict :
      (c d timed_out : Bool) (me : Conn S) (result : Outcome CursorError S)
      → Running c d me
      → ((end_operation me timed_out result).0 ≡ verdict c d timed_out result)
        × After (end_operation me timed_out result).1 result (verdict c d timed_out result)
  unfolding end_operation conclude_operation begin
  end_operation-verdict c d timed_out me panic r = (refl, refl)
  end_operation-verdict true d timed_out me (ok sock) r = rw (r.state_is, r.sound) (refl, refl)
  end_operation-verdict true d timed_out me (err e) r = rw (r.state_is, r.sound) (refl, refl)
  end_operation-verdict false d true me (ok sock) r = rw (r.state_is, r.sound) (refl, refl)
  end_operation-verdict false d true me (err e) r = rw (r.state_is, r.sound) (refl, refl)
  end_operation-verdict false d false me (err e) r = rw (r.state_is, r.sound) (refl, refl)
  end_operation-verdict false true false me (ok sock) r =
      rw (r.state_is, r.closing_is, r.sound) (refl, refl)
  end_operation-verdict false false false me (ok sock) r =
      rw (r.state_is, r.closing_is)
        (refl, record { sound = r.sound; is_open = refl; is_idle = refl; present = refl })

  -- An operation on a connection that is ready, with what other threads do meanwhile, the watchdog's
  -- answer and the operation's own result: it gets the socket, and the caller is told of a cancellation
  -- if there was one, else of a timeout, else of the operation's error, else of a closed connection, and
  -- of success only if there was none of these. Behind a success the connection is ready again, with the
  -- socket that the operation returned. Behind everything else it starts no operation any more: the next
  -- one is refused as closed, or as poisoned if the operation panicked.
  pub operation-verdict :
      (me : Conn S) (sock : S) (events : List Event) (timed_out : Bool)
      (result : Outcome CursorError S)
      → Ready me sock
      → (told : Outcome CursorError (Unit {0})) × (me' : Conn S) × ((begin me).0 ≡ ok sock)
        × (end_operation (meanwhile (begin me).1 events) timed_out result ≡ (told, me'))
        × (told ≡ verdict (any_cancel events) (any_close events) timed_out result)
        × After me' result told
  unfolding begin
  operation-verdict me sock events timed_out result ready =
      let started : Running false false (begin me).1 =
        rw (ready.sound, ready.is_open, ready.present, ready.is_idle)
          (record {
            sound = ready.sound;
            closing_is = ready.is_open;
            state_is = refl;
            taken = refl;
          }) in
      let ended =
        end_operation-verdict (any_cancel events) (any_close events) timed_out
          (meanwhile (begin me).1 events) result
          (meanwhile-Running events false false (begin me).1 started) in
      (
        _,
        _,
        rw (ready.sound, ready.is_open, ready.present, ready.is_idle) refl,
        refl,
        ended.0,
        rw ended.0 ended.1,
      )
