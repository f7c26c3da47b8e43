-- ===== src/Agents/Turns/Tests.antt =====
-- Runs of agents/app/session_manager.py.
use funnelmanager.Prelude.{
  List, String, Text, [], codes, none, refl, some, text_eq, ℕ, ◌++◌, ◌∷◌, ◌≡◌,
}
use funnelmanager.Prelude.Dicts
use funnelmanager.Prelude.Dicts.{Dict}
use funnelmanager.Runtime.Json.{Json, text}
use funnelmanager.Agents.Turns.{
  TurnBuffer, active_turn_for_session, active_status, complete, find_turn, latest_turn_for_session,
  new, paused, pop_where, publish, finish, schedule_expiry, set_nth, start_turn, buffered, expire,
  drop_turn,
}
use funnelmanager.Agents.Turns.Serial.{
  Op, act, run, run_serial, starts, publishes, finishes, expires,
}

abbrev event : String → Dict (Json ℕ)
event t = (codes "type", text (codes t)) ∷ []

-- A turn ends, and the next one of its session waits for an approval.
abbrev ops : List (Op ℕ)
ops =
    starts 0 (codes "s") (codes "a")
    ∷ finishes 10 (codes "a") complete
    ∷ starts 20 (codes "s") (codes "b")
    ∷ starts 25 (codes "s") (codes "c")
    ∷ publishes (codes "b") (event "approval_required")
    ∷ expires 90010 (codes "a")
    ∷ []

abbrev pausing : TurnBuffer ℕ
pausing = record {
  turn_id = codes "b";
  session_id = codes "s";
  status = paused;
  history = event "approval_required" ∷ [];
  created_at = 20;
  finished_at = none;
  subscribers = 0;
  cleanup_handle = some 90020;
}

run_found : find_turn (run ops new) (codes "b") ≡ some (1, pausing)
unfolding run act new find_turn start_turn buffered publish finish schedule_expiry set_nth pop_where
    Dicts.get Dicts.put Dicts.pop Dicts.has text_eq expire drop_turn
run_found = refl

run_serial_example :
    (codes "b" ≡ codes "b")
    × ((active_turn_for_session (codes "s") (run ops new) ≡ some (codes "b"))
        × ((now : ℕ) (v : Text) → start_turn now (codes "s") v (run ops new) ≡ none))
run_serial_example =
    run_serial ops (codes "b") (codes "b") 1 1 pausing pausing run_found refl run_found refl refl

-- A finished turn stays for a subscriber that comes back, and is dropped when its time is over.
abbrev ended : List (Op ℕ)
ended =
    starts 0 (codes "s") (codes "a")
    ∷ publishes (codes "a") (event "text_delta")
    ∷ finishes 10 (codes "a") complete
    ∷ []

lingers :
    latest_turn_for_session (codes "s") (run (ended ++ expires 90009 (codes "a") ∷ []) new)
    ≡ some (codes "a")
unfolding run act new find_turn start_turn buffered publish finish schedule_expiry set_nth pop_where
    Dicts.get Dicts.put Dicts.pop Dicts.has text_eq expire drop_turn
lingers = refl

dropped :
    latest_turn_for_session (codes "s") (run (ended ++ expires 90010 (codes "a") ∷ []) new) ≡ none
unfolding run act new find_turn start_turn buffered publish finish schedule_expiry set_nth pop_where
    Dicts.get Dicts.put Dicts.pop Dicts.has text_eq expire drop_turn
dropped = refl

-- A turn that streams for longer than the window, while nobody reads it, is dropped as it runs.
running_dropped :
    active_status (codes "s") (
      run
        (starts 0 (codes "s") (codes "a")
          ∷ publishes (codes "a") (event "text_delta")
          ∷ expires 90000 (codes "a")
          ∷ [])
        new)
    ≡ none
unfolding run act new find_turn start_turn buffered publish finish schedule_expiry set_nth pop_where
    Dicts.get Dicts.put Dicts.pop Dicts.has text_eq expire drop_turn active_status
running_dropped = refl
