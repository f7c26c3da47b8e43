-- ===== src/Agents/Turns/Starts.antt =====
-- The start of a turn (agents/app/session_manager.py) keeps the invariant of the manager.
use funnelmanager.Prelude.{
  Bool-cases, Text, ap, arith, inl, inr, length, none, some, text_eq, text_eq_iff, ℕ, ◌∙◌, ◌≡◌, ◌≢◌,
  ◌⊎◌,
}
use funnelmanager.Prelude.Dicts
use funnelmanager.Prelude.Dicts.{Dict}
use funnelmanager.Agents.Turns.{
  SessionTurnManager, TurnBuffer, active_turn_for_session, buffered, find_turn, new_buffer,
  post_turn_ttl, schedule_expiry, started,
}
use funnelmanager.Agents.Turns.Buffers.{found, found_by, nth-append, length-append_one}
use funnelmanager.Agents.Turns.Invariant.{IsSerial}

module _ {N : Type 0} where
  -- A lookup after a start: the new turn's buffer, or what it found before under another id.
  found-started :
      (now : ℕ) (s t : Text) (m : SessionTurnManager N) (k : Text) (n : ℕ) (b : TurnBuffer N)
      → IsSerial m
      → find_turn (started now s t m) k ≡ some (n, b)
      → ((t ≡ k) × (b ≡ schedule_expiry now (some post_turn_ttl) (new_buffer now s t)))
        ⊎ ((t ≢ k) × (find_turn m k ≡ some (n, b)))
  found-started now s t m k n b v f =
      let g = found (started now s t m) k n b f in
      let q = Dicts.get-put m.turns t k (length m.store) in
      let a =
        nth-append m.store (schedule_expiry now (some post_turn_ttl) (new_buffer now s t)) n in
      elim (Bool-cases (text_eq t k)) [
        | inl e ↦ inl ((text_eq_iff t k).0 e, ground (arith, g.0, g.1, q, a, e))
        | inr e ↦
            let i : Dicts.get m.turns k ≡ some n = ground (arith, g.0, q, e) in
            inr (
              (λ p. ground (arith, text_eq_iff t k, p, e)),
              found_by m k n b i (ground (arith, a, g.1, v.numbered k n i)),
            )
      ]

  theirs :
      (now : ℕ) (s t : Text) (m : SessionTurnManager N)
      → active_turn_for_session s m ≡ none
      → IsSerial m
      → (k : Text) (n : ℕ) (b : TurnBuffer N) → find_turn m k ≡ some (n, b)
      → b.finished_at ≡ none
      → Dicts.get (Dicts.put m.active s t) b.session_id ≡ some k
  unfolding buffered
  theirs now s t m h v k n b g u =
      let a = v.serial k n b g u in
      elim (Bool-cases (text_eq s b.session_id)) [
        | inl e ↦
            let mine : Dicts.get m.active s ≡ some k =
              ap (λ x. Dicts.get m.active x) ((text_eq_iff s b.session_id).0 e) ∙ a in
            ground (arith, h, mine, Dicts.has-get m.turns k, (found m k n b g).0)
        | inr e ↦ ground (arith, e, a, Dicts.get-put m.active s b.session_id t)
      ]

  pub started-IsSerial :
      (now : ℕ) (s t : Text) (m : SessionTurnManager N)
      → active_turn_for_session s m ≡ none
      → IsSerial m
      → IsSerial (started now s t m)
  unfolding schedule_expiry buffered
  started-IsSerial now s t m h v = record {
    numbered = λ k n g. ground (
      arith,
      Dicts.get-put m.turns t k (length m.store),
      v.numbered k n,
      length-append_one m.store (schedule_expiry now (some post_turn_ttl) (new_buffer now s t)),
    );
    keyed = λ k n b f. elim (found-started now s t m k n b v f) [
      | inl (tk, e) ↦ ap (λ x. x.turn_id) e ∙ tk
      | inr (tk, g) ↦ v.keyed k n b g
    ];
    serial = λ k n b f u. elim (found-started now s t m k n b v f) [
      | inl (tk, e) ↦
          ap (λ x. Dicts.get (Dicts.put m.active s t) x) (ap (λ x. x.session_id) e)
          ∙ (Dicts.get-put_self m.active s t ∙ ap some tk)
      | inr (tk, g) ↦ theirs now s t m h v k n b g u
    ];
  }
