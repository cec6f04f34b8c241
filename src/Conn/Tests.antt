-- ===== src/Conn/Tests.antt =====
-- Runs of the connection code at concrete inputs, and the properties at inputs that meet their hypotheses.
use monetdb_rust.Prelude.{
  ℕ, Bool, ltb, panic, ◌≡◌, ◌≢◌, refl, true, false, [], ◌∷◌, some, none, Outcome, ok,
}
use monetdb_rust.Conn.Watchdog.{WatchdogState, default, arm, disarm, rounds, round, advance_token}
use monetdb_rust.Conn.Watchdog.Deadline.{disarm-rounds}
use monetdb_rust.Conn.Operation.{
  CursorError, Conn, idle, cancel, close, begin, meanwhile, end_operation,
}
use monetdb_rust.Conn.Operation.Verdict.{After, verdict, operation-verdict}

-- A clock that ends.
abbrev before_1000 : ℕ → Bool
before_1000 time = ltb time 1000

refuses_far : arm before_1000 default (some 10) 995 ≡ panic
unfolding arm advance_token
refuses_far = refl

arms_token :
    arm before_1000 default (some 10) 100
    ≡ ok (
      some 1,
      record { active = some (1, 110); fired_token = 0; next_token = 1; stopped = false },
    )
unfolding arm advance_token
arms_token = refl

fires_late :
    rounds
      (record { active = some (1, 110); fired_token = 0; next_token = 1; stopped = false })
      (105 ∷ 110 ∷ 120 ∷ [])
    ≡ (record { active = none; fired_token = 1; next_token = 1; stopped = false }, 1)
unfolding rounds round
fires_late = refl

disarm-rounds_example :
    (token : ℕ) × (armed : WatchdogState) × (arm before_1000 default (some 10) 100
      ≡ ok (some token, armed))
    × (token ≢ 0)
    × ((rounds armed (105 ∷ 110 ∷ [])).1 ≡ 1)
    × ((disarm (rounds armed (105 ∷ 110 ∷ [])).0 (some token)).0 ≡ true)
    × ((disarm (rounds armed (105 ∷ 110 ∷ [])).0 (some token)).1.active ≡ none)
disarm-rounds_example = disarm-rounds before_1000 default 100 10 (105 ∷ 110 ∷ []) refl refl

-- A connection whose socket is a number.
abbrev fresh : Conn ℕ
fresh = record {
  poisoned = false;
  closing = false;
  operation_state = idle;
  sock = some 7;
  shutdowns = 0;
}

operation-verdict_example :
    (told : Outcome CursorError (Unit {0})) × (me' : Conn ℕ) × ((begin fresh).0 ≡ ok 7)
    × (end_operation (meanwhile (begin fresh).1 (close ∷ cancel ∷ [])) false (ok 8) ≡ (told, me'))
    × (told ≡ verdict {S = ℕ} true true false (ok 8))
    × After me' (ok 8) told
operation-verdict_example =
    operation-verdict fresh 7 (close ∷ cancel ∷ []) false (ok 8)
      (record { sound = refl; is_open = refl; is_idle = refl; present = refl })
