-- ===== src/Conn/Operation.antt =====
-- `run_locked_with_timeouts` and `cancel` of src/conn.rs: an operation takes the socket, other threads may
-- cancel it or close the connection meanwhile, and its end decides whether the socket is kept.
pub mod Verdict
use monetdb_rust.Prelude.{
  ℕ, suc, ◌+◌, Bool, true, false, List, [], ◌∷◌, if◌then◌else◌, Option, none, some, Outcome, ok,
  err, panic,
}

-- The errors that the end of an operation tells apart; the others are numbered.
pub data CursorError : Type 0 where
  poisoned closed cancelled timeout io_timed_out : CursorError
  other : ℕ → CursorError

-- The three values of `operation_state`.
pub data OperationState : Type 0 where
  idle active cancelled : OperationState

-- `locked` is poisoned if a thread panicked under it; the calls of `control.shutdown` are counted.
pub record Conn (S : Type 0) : Type 0 where
  pub poisoned : Bool
  pub closing : Bool
  pub operation_state : OperationState
  pub sock : Option S
  pub shutdowns : ℕ

-- What other threads do while an operation holds the lock.
pub data Event : Type 0 where
  cancel close : Event

-- The error that an operation ends with, for the error that it returned.
unfoldable pub final_error : CursorError → CursorError
final_error io_timed_out = timeout
final_error e = e

module _ {S : Type 0} where
  abbrev pub shut_down : Conn S → Conn S
  shut_down me = record me { closing = true; shutdowns = me.shutdowns + 1 }

  -- From the lock to the call of the operation, which gets the socket.
  unfoldable pub begin : Conn S → Outcome CursorError S × Conn S
  begin me =
      if me.poisoned
      then (err poisoned, shut_down me)
      else if me.closing
      then (err closed, record me { sock = none; shutdowns = me.shutdowns + 1 })
      else (elim me.sock [
        | none ↦ (err closed, me)
        | some sock ↦ elim me.operation_state [
          | idle ↦ (ok sock, record me { sock = none; operation_state = active })
          | active ↦ (err poisoned, shut_down (record me { sock = none }))
          | cancelled ↦ (err poisoned, shut_down (record me { sock = none }))
        ]
      ])

  -- `cancel`
  unfoldable pub cancel_operation : Conn S → Conn S
  cancel_operation me = elim me.operation_state [
    | active ↦ record me { operation_state = cancelled; shutdowns = me.shutdowns + 1 }
    | idle ↦ me
    | cancelled ↦ me
  ]

  -- `close_connection` while the lock is held.
  unfoldable pub close_connection : Conn S → Conn S
  close_connection me = shut_down me

  unfoldable pub meanwhile : Conn S → List Event → Conn S
  meanwhile me [] = me
  meanwhile me (cancel ∷ events) = meanwhile (cancel_operation me) events
  meanwhile me (close ∷ events) = meanwhile (close_connection me) events

  -- The end of an operation that was not cancelled; `me` is idle again.
  unfoldable pub conclude_operation :
      Conn S → Bool → Outcome CursorError S → Outcome CursorError (Unit {0}) × Conn S
  conclude_operation me timed_out panic = (panic, me)
  conclude_operation me true result = (err timeout, shut_down me)
  conclude_operation me false (ok sock) =
      if me.closing then (err closed, me) else (ok tt, record me { sock = some sock })
  conclude_operation me false (err e) = (err (final_error e), shut_down me)

  -- From the operation's result on. A panic of the operation unwinds past all this, poisons the lock
  -- and leaves the state as it is.
  unfoldable pub end_operation :
      Conn S → Bool → Outcome CursorError S → Outcome CursorError (Unit {0}) × Conn S
  end_operation me timed_out panic = (panic, record me { poisoned = true })
  end_operation me timed_out result = elim me.operation_state [
    | cancelled ↦ (err cancelled, record me { operation_state = idle; closing = true })
    | active ↦ conclude_operation (record me { operation_state = idle }) timed_out result
    | idle ↦ conclude_operation (record me { operation_state = idle }) timed_out result
  ]
