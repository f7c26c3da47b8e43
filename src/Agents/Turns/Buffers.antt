-- ===== src/Agents/Turns/Buffers.antt =====
-- Lookups of a turn's buffer (agents/app/session_manager.py) after the operations that change the
-- store and the dictionary of the turns.
use funnelmanager.Prelude.{
  Bool-cases, List, Option-cases, Text, [], ap, arith, if◌then◌else◌, inl, inr, length, nth, refl,
  some, suc, text_eq, text_eq_iff, zero, ℕ, ◌++◌, ◌==◌, ◌∙◌, ◌∷◌, ◌≡◌, ◌≢◌, ◌⊎◌,
}
use funnelmanager.Prelude.Dicts
use funnelmanager.Prelude.Dicts.{Dict}
use funnelmanager.Agents.Turns.{
  SessionTurnManager, TurnBuffer, set_nth, set_buffer, find_turn, pop_where,
}

pub get-pop_where :
    (d : Dict Text) (k v j : Text)
    → (Dicts.get d j ≡ some v → ⊥)
    → Dicts.get (pop_where d k v) j ≡ Dicts.get d j
unfolding pop_where
get-pop_where d k v j h = elim (Option-cases (Dicts.get d k)) [
  | inl q ↦ ground (arith, q)
  | inr (w, q) ↦ elim (Bool-cases (text_eq w v)) [
    | inl e ↦ elim (Bool-cases (text_eq k j)) [
      | inl r ↦ elim (h (ground (arith, q, text_eq_iff k j, text_eq_iff w v))) [ ]
      | inr r ↦ ground (arith, q, e, Dicts.get-pop d k j)
    ]
    | inr e ↦ ground (arith, q, e)
  ]
]

module _ {N : Type 0} where
  pub nth-set_nth :
      (bs : List (TurnBuffer N)) (n : ℕ) (a b : TurnBuffer N) (k : ℕ)
      → nth bs n ≡ some a
      → nth (set_nth bs n b) k ≡ (if k == n then some b else nth bs k)
  unfolding set_nth
  nth-set_nth [] n a b k h = cc
  nth-set_nth (c ∷ bs) zero a b zero h = ground arith
  nth-set_nth (c ∷ bs) zero a b (suc k) h = ground arith
  nth-set_nth (c ∷ bs) (suc n) a b zero h = ground arith
  nth-set_nth (c ∷ bs) (suc n) a b (suc k) h = ground (arith, nth-set_nth bs n a b k h)

  pub length-set_nth :
      (bs : List (TurnBuffer N)) (n : ℕ) (b : TurnBuffer N) → length (set_nth bs n b) ≡ length bs
  unfolding set_nth
  length-set_nth [] n b = refl
  length-set_nth (c ∷ bs) zero b = refl
  length-set_nth (c ∷ bs) (suc n) b = ap suc (length-set_nth bs n b)

  pub length-append_one :
      (bs : List (TurnBuffer N)) (b : TurnBuffer N) → length (bs ++ b ∷ []) ≡ suc (length bs)
  length-append_one [] b = refl
  length-append_one (c ∷ bs) b = ap suc (length-append_one bs b)

  pub nth-append :
      (bs : List (TurnBuffer N)) (b : TurnBuffer N) (k : ℕ)
      → nth (bs ++ b ∷ []) k ≡ (if k == length bs then some b else nth bs k)
  nth-append [] b zero = ground arith
  nth-append [] b (suc k) = ground arith
  nth-append (c ∷ bs) b zero = ground arith
  nth-append (c ∷ bs) b (suc k) = ground (arith, nth-append bs b k)

  pub found :
      (m : SessionTurnManager N) (t : Text) (n : ℕ) (b : TurnBuffer N)
      → find_turn m t ≡ some (n, b)
      → (Dicts.get m.turns t ≡ some n) × (nth m.store n ≡ some b)
  unfolding find_turn
  found m t n b h = elim (Option-cases (Dicts.get m.turns t)) [
    | inl q ↦ ground (arith, q)
    | inr (k, q) ↦ elim (Option-cases (nth m.store k)) [
      | inl r ↦ ground (arith, q, r)
      | inr (c, r) ↦ ground (arith, q, r)
    ]
  ]

  pub found_by :
      (m : SessionTurnManager N) (t : Text) (n : ℕ) (b : TurnBuffer N)
      → Dicts.get m.turns t ≡ some n
      → nth m.store n ≡ some b
      → find_turn m t ≡ some (n, b)
  unfolding find_turn
  found_by m t n b g h = ground (arith, g, h)

  pub found_same :
      (m : SessionTurnManager N) (t : Text) (n k : ℕ) (a b : TurnBuffer N)
      → find_turn m t ≡ some (n, a)
      → find_turn m t ≡ some (k, b)
      → (n ≡ k) × (a ≡ b)
  found_same m t n k a b h g = ground (arith)

  -- What a turn's lookup finds after an assignment to a buffer: that buffer, or what it found before.
  pub found-set_buffer :
      (m : SessionTurnManager N) (n : ℕ) (a b : TurnBuffer N) (t : Text) (k : ℕ) (c : TurnBuffer N)
      → nth m.store n ≡ some a
      → find_turn (set_buffer n b m) t ≡ some (k, c)
      → ((k ≡ n) × ((c ≡ b) × (find_turn m t ≡ some (n, a))))
        ⊎ ((k ≢ n) × (find_turn m t ≡ some (k, c)))
  found-set_buffer m n a b t k c h f =
      let f' = found (set_buffer n b m) t k c f in
      let q = nth-set_nth m.store n a b k h in
      elim (Bool-cases (k == n)) [
        | inl e ↦
            let kn : k ≡ n = ground (arith, e) in
            let cb : c ≡ b = ground (arith, q, f'.1, e) in
            inl (kn, (cb, found_by m t n a (f'.0 ∙ ap some kn) h))
        | inr e ↦
            inr ((λ p. ground (arith, p, e)), found_by m t k c f'.0 (ground (arith, q, f'.1, e)))
      ]
