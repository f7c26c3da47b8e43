-- ===== src/Agents/Turns/Ends.antt =====
-- The events of a turn, its end and its expiry (agents/app/session_manager.py) keep the invariant of
-- the manager.
use funnelmanager.Prelude.{
  Bool-cases, Option, Option-cases, Text, [], ap, arith, inl, inr, ltb, none, nth, refl, some, sym,
  ℕ, ◌-◌, ◌≡◌,
}
use funnelmanager.Prelude.Dicts
use funnelmanager.Prelude.Dicts.{Dict}
use funnelmanager.Runtime.Json.{Json}
use funnelmanager.Agents.Turns.{
  SessionTurnManager, TurnBuffer, TurnStatus, close, closed, drop_time, drop_turn, expire,
  find_turn, finish, fire, pop_where, post_turn_ttl, publish, schedule_expiry, set_buffer,
}
use funnelmanager.Agents.Turns.Buffers.{found, found_same, found-set_buffer}
use funnelmanager.Agents.Turns.Invariant.{
  Alike, IsSerial, found-IsSerial, not_found, popped-IsSerial, recent-IsSerial, set_buffer-IsSerial,
  unbuffered-IsSerial,
}

module _ {N : Type 0} where
  pub closed-Alike :
      (now k : ℕ) (b : TurnBuffer N) → Alike b (closed now (record b { subscribers = k }))
  unfolding schedule_expiry
  closed-Alike now k b = record {
    same_turn = ground arith;
    same_session = ground arith;
    same_finish = λ u. ground (arith, u);
  }

  pub close-IsSerial :
      (now n : ℕ) (m : SessionTurnManager N) → IsSerial m → IsSerial (close now n m)
  unfolding close schedule_expiry
  close-IsSerial now n m v = elim (Option-cases (nth m.store n)) [
    | inl q ↦ rw (close, q) v
    | inr (b, q) ↦
        rw (close, q)
          (set_buffer-IsSerial m n b (closed now (record b { subscribers = b.subscribers - 1 })) q
            (closed-Alike now (b.subscribers - 1) b) v)
  ]

  pub fire-IsSerial : (n : ℕ) (m : SessionTurnManager N) → IsSerial m → IsSerial (fire n m)
  unfolding fire
  fire-IsSerial n m v = elim (Option-cases (nth m.store n)) [
    | inl q ↦ rw (fire, q) v
    | inr (b, q) ↦
        rw (fire, q)
          (set_buffer-IsSerial m n b (record b { cleanup_handle = none }) q
            (record { same_turn = refl; same_session = refl; same_finish = λ u. u }) v)
  ]

  pub publish-IsSerial :
      (t : Text) (e : Dict (Json N)) (m : SessionTurnManager N)
      → IsSerial m
      → IsSerial (publish t e m)
  unfolding publish
  publish-IsSerial t e m v = elim (Option-cases (find_turn m t)) [
    | inl q ↦ rw (publish, q) v
    | inr ((n, b), q) ↦
        rw (publish, q)
          (found-IsSerial m t n b _ q
            (record { same_turn = refl; same_session = refl; same_finish = λ u. u }) v)
  ]

  pub drop_turn-IsSerial :
      (m : SessionTurnManager N) (t : Text) (n : ℕ) (b : TurnBuffer N)
      → find_turn m t ≡ some (n, b)
      → IsSerial m
      → IsSerial (drop_turn n b m)
  unfolding drop_turn
  drop_turn-IsSerial m t n b f v =
      let b' : TurnBuffer N = record b { cleanup_handle = none; history = [] } in
      let w =
        found-IsSerial m t n b b' f
          (record { same_turn = refl; same_session = refl; same_finish = λ u. u }) v in
      let m1 : SessionTurnManager N = set_buffer n b' m in
      let m2 : SessionTurnManager N = record m1 { turns = Dicts.pop m.turns b.turn_id } in
      recent-IsSerial (record m2 { active = pop_where m.active b.session_id b.turn_id })
        (pop_where m.recent b.session_id b.turn_id)
        (popped-IsSerial m2 b.session_id b.turn_id (λ k c g u. not_found m1 b.turn_id k c g)
          (unbuffered-IsSerial m1 b.turn_id w))

  pub expire-IsSerial :
      (now : ℕ) (t : Text) (m : SessionTurnManager N) → IsSerial m → IsSerial (expire now t m)
  unfolding expire schedule_expiry
  expire-IsSerial now t m v = elim (Option-cases (find_turn m t)) [
    | inl q ↦ rw (expire, q) v
    | inr ((n, b), q) ↦
        let l : (d : Option ℕ) → Alike b (schedule_expiry now d b) =
          λ d. record { same_turn = refl; same_session = refl; same_finish = λ u. u } in
        elim (Bool-cases (ltb 0 b.subscribers)) [
          | inl e ↦ rw (expire, q, e) (found-IsSerial m t n b _ q (l (some post_turn_ttl)) v)
          | inr e ↦ elim (Bool-cases (ltb now (drop_time b))) [
            | inl r ↦ rw (expire, q, e, r) (found-IsSerial m t n b _ q (l none) v)
            | inr r ↦ rw (expire, q, e, r) (drop_turn-IsSerial m t n b q v)
          ]
        ]
  ]

  finished_turn-IsSerial :
      (now : ℕ) (t : Text) (s : TurnStatus) (m : SessionTurnManager N) (n : ℕ) (a : TurnBuffer N)
      → find_turn m t ≡ some (n, a)
      → IsSerial m
      → IsSerial (
          set_buffer n
            (schedule_expiry now none (record a { status = s; finished_at = some now }))
            (record m { active = pop_where m.active a.session_id t }))
  unfolding schedule_expiry
  finished_turn-IsSerial now t s m n a q v =
      let b : TurnBuffer N =
        schedule_expiry now none (record a { status = s; finished_at = some now }) in
      let w =
        found-IsSerial m t n a b q
          (record { same_turn = refl; same_session = refl; same_finish = λ u. ground (arith, u) })
          v in
      popped-IsSerial (set_buffer n b m) a.session_id t
        (λ k c f u. elim (found-set_buffer m n a b t k c (found m t n a q).1 f) [
          | inl (kn, (cb, g)) ↦ ground (arith, ap (λ x. x.finished_at) cb, u)
          | inr (ne, g) ↦ ne (sym (found_same m t n k a c q g).0)
        ])
        w

  pub finish-IsSerial :
      (now : ℕ) (t : Text) (s : TurnStatus) (m : SessionTurnManager N)
      → IsSerial m
      → IsSerial (finish now t s m)
  unfolding finish schedule_expiry
  finish-IsSerial now t s m v = elim (Option-cases (find_turn m t)) [
    | inl q ↦ rw (finish, q) v
    | inr ((n, b), q) ↦ rw (finish, q) (finished_turn-IsSerial now t s m n b q v)
  ]
