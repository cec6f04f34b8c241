-- ===== src/Conn/Watchdog/Deadline.antt =====
-- The watchdog of src/conn.rs fires once, for the operation that it watches, and only behind its deadline.
use monetdb_rust.Prelude.{
  ℕ, ◌+◌, ◌≡◌, ◌≢◌, refl, Bool, true, false, inl, inr, List, [], ◌∷◌, arith, ltb, ◌==◌,
  if◌then◌else◌, none, some, ok, Bool-cases,
}
use monetdb_rust.Conn.Watchdog.{WatchdogState, advance_token, arm, disarm, is_active, round, rounds}

-- Whether one of the times is not before the deadline.
abbrev pub expired : ℕ → List ℕ → Bool
expired deadline [] = false
expired deadline (now ∷ times) = if ltb now deadline then expired deadline times else true

-- A state that watches an operation, and one that has fired for it.
abbrev pub watching : ℕ → ℕ → WatchdogState
watching token deadline = record {
  active = some (token, deadline);
  fired_token = 0;
  next_token = token;
  stopped = false;
}

abbrev pub fired : ℕ → WatchdogState
fired token = record { active = none; fired_token = token; next_token = token; stopped = false }

rounds-fired : (token : ℕ) (times : List ℕ) → rounds (fired token) times ≡ (fired token, 0)
unfolding rounds round
rounds-fired token [] = refl
rounds-fired token (now ∷ times) = rw (rounds-fired token times) refl

rounds-watching :
    (token deadline : ℕ) (times : List ℕ)
    → rounds (watching token deadline) times
      ≡ (if expired deadline times then (fired token, 1) else (watching token deadline, 0))
unfolding rounds round
rounds-watching token deadline [] = refl
rounds-watching token deadline (now ∷ times) = elim (Bool-cases (ltb now deadline)) [
  | inl before ↦ rw before (
      rw (rounds-watching token deadline times) (elim (Bool-cases (expired deadline times)) [
        | inl late ↦ rw late refl
        | inr early ↦ rw early refl
      ]))
  | inr behind ↦ rw behind (rw (rounds-fired token times) refl)
]

advance_token_nonzero : (token : ℕ) → advance_token token ≢ 0
unfolding advance_token
advance_token_nonzero token h = ground arith

-- On a watchdog that is not stopped, and for a deadline within reach of the clock, `arm` does not panic
-- and gives a token for the operation, which is not zero. Let the
-- thread then go through its rounds at any times: it shuts the socket down once if one of these times is
-- not before the deadline, and else never, and `disarm` says just whether it did. Nothing is then watched.
pub disarm-rounds :
    (in_reach : ℕ → Bool) (state : WatchdogState) (now timeout : ℕ) (times : List ℕ)
    → state.stopped ≡ false
    → in_reach (now + timeout) ≡ true
    → (token : ℕ) × (armed : WatchdogState) × (arm in_reach state (some timeout) now
        ≡ ok (some token, armed))
      × (token ≢ 0)
      × ((rounds armed times).1 ≡ (if expired (now + timeout) times then 1 else 0))
      × ((disarm (rounds armed times).0 (some token)).0 ≡ expired (now + timeout) times)
      × ((disarm (rounds armed times).0 (some token)).1.active ≡ none)
unfolding arm disarm is_active
disarm-rounds in_reach state now timeout times live reached =
    let token = advance_token state.next_token in
    let armed = watching token (now + timeout) in
    let after = rounds-watching token (now + timeout) times in
    let self : (token == token) ≡ true = ground arith in
    (
      token,
      armed,
      rw (live, reached) refl,
      advance_token_nonzero state.next_token,
      rw after (elim (Bool-cases (expired (now + timeout) times)) [
        | inl late ↦ rw late (refl)
        | inr early ↦ rw early (refl)
      ]),
      rw after (elim (Bool-cases (expired (now + timeout) times)) [
        | inl late ↦ rw late (rw self refl)
        | inr early ↦ rw early (rw self refl)
      ]),
      rw after (elim (Bool-cases (expired (now + timeout) times)) [
        | inl late ↦ rw late (refl)
        | inr early ↦ rw early (rw self refl)
      ]),
    )
