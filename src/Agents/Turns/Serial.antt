-- ===== src/Agents/Turns/Serial.antt =====
-- The turns of a session are serial (agents/app/session_manager.py), over any operations of the turn
-- manager in any order.
use funnelmanager.Prelude.{
  List, Option-cases, Text, [], ap, arith, inl, inr, none, refl, some, sym, ℕ, ◌∙◌, ◌∷◌, ◌≡◌,
}
use funnelmanager.Prelude.Dicts
use funnelmanager.Prelude.Dicts.{Dict}
use funnelmanager.Runtime.Json.{Json}
use funnelmanager.Agents.Turns.{
  SessionTurnManager, TurnBuffer, TurnStatus, active_turn_for_session, buffered, close, expire,
  find_turn, finish, fire, new, publish, start_turn, subscribe,
}
use funnelmanager.Agents.Turns.Buffers.{found}
use funnelmanager.Agents.Turns.Invariant.{IsSerial, found-IsSerial, new-IsSerial}
use funnelmanager.Agents.Turns.Starts.{started-IsSerial}
use funnelmanager.Agents.Turns.Ends.{
  close-IsSerial, expire-IsSerial, finish-IsSerial, fire-IsSerial, publish-IsSerial,
}

-- The operations, each with what its caller gives it; `starts` leaves the state where it raises.
pub data Op (N : Type 0) : Type 0 where
  starts : ℕ → Text → Text → Op N
  publishes : Text → Dict (Json N) → Op N
  finishes : ℕ → Text → TurnStatus → Op N
  subscribes : Text → Op N
  closes fires : ℕ → ℕ → Op N
  expires : ℕ → Text → Op N

text_some : {s t : Text} → some s ≡ some t → s ≡ t
text_some h = cc

module _ {N : Type 0} where
  unfoldable pub act : Op N → SessionTurnManager N → SessionTurnManager N
  act (starts now session_id turn_id) m = elim (start_turn now session_id turn_id m) [
    | none ↦ m
    | some m' ↦ m'
  ]
  act (publishes turn_id event) m = publish turn_id event m
  act (finishes now turn_id status) m = finish now turn_id status m
  act (subscribes turn_id) m = elim (subscribe turn_id m) [ none ↦ m | some (m', s) ↦ m' ]
  act (closes now n) m = close now n m
  act (fires now n) m = fire n m
  act (expires now turn_id) m = expire now turn_id m

  unfoldable pub run : List (Op N) → SessionTurnManager N → SessionTurnManager N
  run [] m = m
  run (op ∷ ops) m = run ops (act op m)

  act-IsSerial : (op : Op N) (m : SessionTurnManager N) → IsSerial m → IsSerial (act op m)
  unfolding act start_turn subscribe
  act-IsSerial (starts now s t) m v = elim (Option-cases (active_turn_for_session s m)) [
    | inl q ↦ rw (act, start_turn, q) (started-IsSerial now s t m q v)
    | inr (x, q) ↦ rw (act, start_turn, q) v
  ]
  act-IsSerial (publishes t e) m v = publish-IsSerial t e m v
  act-IsSerial (finishes now t s) m v = finish-IsSerial now t s m v
  act-IsSerial (subscribes t) m v = elim (Option-cases (find_turn m t)) [
    | inl q ↦ rw (act, subscribe, q) v
    | inr ((n, b), q) ↦
        rw (act, subscribe, q)
          (found-IsSerial m t n b _ q
            (record { same_turn = refl; same_session = refl; same_finish = λ u. u }) v)
  ]
  act-IsSerial (closes now n) m v = close-IsSerial now n m v
  act-IsSerial (fires now n) m v = fire-IsSerial n m v
  act-IsSerial (expires now t) m v = expire-IsSerial now t m v

  run-IsSerial : (ops : List (Op N)) (m : SessionTurnManager N) → IsSerial m → IsSerial (run ops m)
  unfolding run
  run-IsSerial [] m v = v
  run-IsSerial (op ∷ ops) m v = run-IsSerial ops (act op m) (act-IsSerial op m v)

  active_is :
      (m : SessionTurnManager N) (s t : Text) (n : ℕ) (b : TurnBuffer N)
      → Dicts.get m.active s ≡ some t
      → find_turn m t ≡ some (n, b)
      → active_turn_for_session s m ≡ some t
  unfolding buffered
  active_is m s t n b a f = ground (arith, a, (found m t n b f).0, Dicts.has-get m.turns t)

  -- After any operations on a new manager, in any order and at any times, a turn that is buffered and
  -- not finished is its session's active turn, no other one of that session is, and every start of a
  -- turn of that session is refused.
  pub run_serial :
      (ops : List (Op N)) (t u : Text) (n k : ℕ) (b c : TurnBuffer N)
      → find_turn (run ops new) t ≡ some (n, b)
      → b.finished_at ≡ none
      → find_turn (run ops new) u ≡ some (k, c)
      → c.finished_at ≡ none
      → b.session_id ≡ c.session_id
      → (t ≡ u)
        × ((active_turn_for_session b.session_id (run ops new) ≡ some t)
            × ((now : ℕ) (v : Text) → start_turn now b.session_id v (run ops new) ≡ none))
  unfolding start_turn
  run_serial ops t u n k b c f x g y e =
      let m = run ops new in
      let v = run-IsSerial ops new new-IsSerial in
      let a = v.serial t n b f x in
      let active : active_turn_for_session b.session_id m ≡ some t =
        active_is m b.session_id t n b a f in
      (
        text_some (sym a ∙ ap (λ s. Dicts.get m.active s) e ∙ v.serial u k c g y),
        (active, λ now w. rw (start_turn, active) refl),
      )
