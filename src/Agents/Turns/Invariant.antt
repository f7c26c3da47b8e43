-- ===== src/Agents/Turns/Invariant.antt =====
-- What holds of the turn manager between two operations (agents/app/session_manager.py), and the
-- changes of a state that it allows.
use funnelmanager.Prelude.{
  Text, ap, arith, inl, inr, length, none, nth, some, sym, text_eq_refl, ℕ, ◌<◌, ◌∙◌, ◌≡◌,
}
use funnelmanager.Prelude.Dicts
use funnelmanager.Prelude.Dicts.{Dict}
use funnelmanager.Agents.Turns.{
  SessionTurnManager, TurnBuffer, find_turn, new, pop_where, set_buffer,
}
use funnelmanager.Agents.Turns.Buffers.{found, found-set_buffer, get-pop_where, length-set_nth}

module _ {N : Type 0} where
  -- What a lookup finds has the turn's id, and while it is not finished it is its session's active turn.
  pub record IsSerial (m : SessionTurnManager N) : Type 0 where
    pub numbered : (t : Text) (n : ℕ) → Dicts.get m.turns t ≡ some n → n < length m.store
    pub keyed : (t : Text) (n : ℕ) (b : TurnBuffer N) → find_turn m t ≡ some (n, b) → b.turn_id ≡ t
    pub serial :
        (t : Text) (n : ℕ) (b : TurnBuffer N)
        → find_turn m t ≡ some (n, b)
        → b.finished_at ≡ none
        → Dicts.get m.active b.session_id ≡ some t

  -- An assignment that leaves what the invariant reads.
  pub record Alike (a b : TurnBuffer N) : Type 0 where
    pub same_turn : b.turn_id ≡ a.turn_id
    pub same_session : b.session_id ≡ a.session_id
    pub same_finish : b.finished_at ≡ none → a.finished_at ≡ none

  pub set_buffer-IsSerial :
      (m : SessionTurnManager N) (n : ℕ) (a b : TurnBuffer N)
      → nth m.store n ≡ some a
      → Alike a b
      → IsSerial m
      → IsSerial (set_buffer n b m)
  set_buffer-IsSerial m n a b h l v = record {
    numbered = λ t k g. ground (arith, length-set_nth m.store n b, v.numbered t k g);
    keyed = λ t k c f. elim (found-set_buffer m n a b t k c h f) [
      | inl (kn, (cb, g)) ↦ ap (λ x. x.turn_id) cb ∙ l.same_turn ∙ v.keyed t n a g
      | inr (ne, g) ↦ v.keyed t k c g
    ];
    serial = λ t k c f u. elim (found-set_buffer m n a b t k c h f) [
      | inl (kn, (cb, g)) ↦
          ap (λ x. Dicts.get m.active x) (ap (λ x. x.session_id) cb ∙ l.same_session)
          ∙ v.serial t n a g (l.same_finish (sym (ap (λ x. x.finished_at) cb) ∙ u))
      | inr (ne, g) ↦ v.serial t k c g u
    ];
  }

  -- Popping the active entry of a turn that no lookup finds unfinished.
  pub popped-IsSerial :
      (m : SessionTurnManager N) (s t : Text)
      → ((n : ℕ) (b : TurnBuffer N) → find_turn m t ≡ some (n, b) → b.finished_at ≡ none → ⊥)
      → IsSerial m
      → IsSerial (record m { active = pop_where m.active s t })
  unfolding find_turn
  popped-IsSerial m s t x v = record {
    numbered = λ k n g. v.numbered k n g;
    keyed = λ k n b f. v.keyed k n b f;
    serial = λ k n b f u.
        get-pop_where m.active s t b.session_id (λ e.
          let kt : k ≡ t = ground (arith, e, v.serial k n b f u) in
          x n b (ap (find_turn m) (sym kt) ∙ f) u)
        ∙ v.serial k n b f u;
  }

  pub unbuffered-IsSerial :
      (m : SessionTurnManager N) (t : Text)
      → IsSerial m
      → IsSerial (record m { turns = Dicts.pop m.turns t })
  unfolding find_turn
  unbuffered-IsSerial m t v =
      let kept : (k : Text) (n : ℕ) (b : TurnBuffer N)
          → find_turn (record m { turns = Dicts.pop m.turns t }) k ≡ some (n, b)
          → find_turn m k ≡ some (n, b) =
        λ k n b f. ground (arith, f, Dicts.get-pop m.turns t k) in
      record {
        numbered = λ k n g. ground (arith, Dicts.get-pop m.turns t k, v.numbered k n);
        keyed = λ k n b f. v.keyed k n b (kept k n b f);
        serial = λ k n b f u. v.serial k n b (kept k n b f) u;
      }

  -- An assignment to the buffer of a turn.
  pub found-IsSerial :
      (m : SessionTurnManager N) (t : Text) (n : ℕ) (a b : TurnBuffer N)
      → find_turn m t ≡ some (n, a)
      → Alike a b
      → IsSerial m
      → IsSerial (set_buffer n b m)
  found-IsSerial m t n a b f l v = set_buffer-IsSerial m n a b (found m t n a f).1 l v

  pub recent-IsSerial :
      (m : SessionTurnManager N) (r : Dict Text) → IsSerial m → IsSerial (record m { recent = r })
  unfolding find_turn
  recent-IsSerial m r v = record {
    numbered = λ k n g. v.numbered k n g;
    keyed = λ k n b f. v.keyed k n b f;
    serial = λ k n b f u. v.serial k n b f u;
  }

  pub not_found :
      (m : SessionTurnManager N) (t : Text) (n : ℕ) (b : TurnBuffer N)
      → find_turn (record m { turns = Dicts.pop m.turns t }) t ≡ some (n, b)
      → ⊥
  not_found m t n b f =
      ground (arith, (found _ t n b f).0, Dicts.get-pop m.turns t t, text_eq_refl t)

  pub new-IsSerial : IsSerial new
  unfolding new find_turn Dicts.get
  new-IsSerial = record { numbered = λ t n g. cc; keyed = λ t n b f. cc; serial = λ t n b f u. cc }
