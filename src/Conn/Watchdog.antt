-- ===== src/Conn/Watchdog.antt =====
-- `OperationWatchdog` of src/conn.rs: a thread that shuts the socket down when an operation takes too long.
-- All its state stands under one lock, so that its operations are atomic; times are numbers.
pub mod Deadline
use monetdb_rust.Prelude.{
  ℕ, zero, suc, ◌+◌, ◌%◌, ◌^◌, Bool, true, false, List, [], ◌∷◌, ltb, ◌==◌, if◌then◌else◌, Option,
  none, some, Outcome, ok, panic,
}

pub record WatchdogState : Type 0 where
  pub active : Option (ℕ × ℕ)
  pub fired_token : ℕ
  pub next_token : ℕ
  pub stopped : Bool

abbrev pub default : WatchdogState
default = record { active = none; fired_token = 0; next_token = 0; stopped = false }

-- `next_token.wrapping_add(1)`, which passes over zero.
unfoldable pub advance_token : ℕ → ℕ
advance_token token = let next = (token + 1) % 2 ^ 64 in if next == 0 then 1 else next

-- `Instant::checked_add` refuses a time that is out of reach of the clock, and `expect` then panics.
unfoldable pub arm :
    (in_reach : ℕ → Bool)
    → WatchdogState
    → Option ℕ
    → (now : ℕ) → Outcome (Unit {0}) (Option ℕ × WatchdogState)
arm in_reach state none now = ok (none, state)
arm in_reach state (some timeout) now =
    let token = advance_token state.next_token in
    let deadline = now + timeout in
    if in_reach deadline
    then ok (
      some token,
      record state { next_token = token; active = some (token, deadline); fired_token = 0 },
    )
    else panic

-- Whether the operation with the token is the active one.
unfoldable pub is_active : Option (ℕ × ℕ) → ℕ → Bool
is_active none token = false
is_active (some (active, deadline)) token = active == token

-- The answer is whether the operation has timed out.
unfoldable pub disarm : WatchdogState → Option ℕ → Bool × WatchdogState
disarm state none = (false, state)
disarm state (some token) =
    if is_active state.active token
    then (false, record state { active = none })
    else (state.fired_token == token, state)

-- One round of the thread, at a time: the state that it leaves, and whether it shuts the socket down.
unfoldable pub round : WatchdogState → ℕ → WatchdogState × Bool
round state now = if state.stopped then (state, false) else (elim state.active [
  | none ↦ (state, false)
  | some (token, deadline) ↦
      if ltb now deadline
      then (state, false)
      else (record state { active = none; fired_token = token }, true)
])

-- The rounds of the thread at some times, and how often it shuts the socket down.
unfoldable pub rounds : WatchdogState → List ℕ → WatchdogState × ℕ
rounds state [] = (state, 0)
rounds state (now ∷ times) =
    let (state', fires) = round state now in
    let (last, count) = rounds state' times in (last, (if fires then 1 else 0) + count)

-- `drop`
unfoldable pub stop : WatchdogState → WatchdogState
stop state = record state { stopped = true }
