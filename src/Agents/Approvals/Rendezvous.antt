-- ===== src/Agents/Approvals/Rendezvous.antt =====
-- A decision reaches the turn that waits for it, once (`ApprovalCoordinator` of approvals.py), under
-- any interleaving of the turns and the requests that share the coordinator.
use funnelmanager.Prelude.{
  Bool-cases, List, Option-cases, Text, [], ap, arith, false, inl, inr, refl, some, suc, sym, true,
  zero, ℕ, ◌++◌, ◌∙◌, ◌∷◌, ◌≡◌, ◌≢◌, ◌⊎◌,
}
use mathlib.Core.Bool.{false≢true}
use funnelmanager.Prelude.Dicts
use funnelmanager.Agents.Approvals.{
  ApprovalDecision, Waiter, ApprovalCoordinator, fresh, waiter_at, set_waiter, register, resolve,
  decided, wait_end, discard,
}

-- What a coroutine does to the coordinator: waiting changes nothing.
pub data Step : ApprovalCoordinator → ApprovalCoordinator → Type 0 where
  registers : (approval_id : Text) (s : ApprovalCoordinator) → Step s (register approval_id s)
  resolves :
      (approval_id : Text) (d : ApprovalDecision) (s : ApprovalCoordinator)
      → Step s (resolve approval_id d s).0
  discards : (approval_id : Text) (s : ApprovalCoordinator) → Step s (discard approval_id s)

pub data Reach (s : ApprovalCoordinator) : ApprovalCoordinator → Type 0 where
  here : Reach s s
  next : {t u : ApprovalCoordinator} → Reach s t → Step t u → Reach s u

waiter_at-append :
    (ws vs : List Waiter) (n : ℕ) (w : Waiter)
    → waiter_at ws n ≡ some w
    → waiter_at (ws ++ vs) n ≡ some w
unfolding waiter_at
waiter_at-append [] vs n w h = cc
waiter_at-append (v ∷ ws) vs zero w h = h
waiter_at-append (v ∷ ws) vs (suc n) w h = waiter_at-append ws vs n w h

waiter_at-set_waiter_self :
    (ws : List Waiter) (n : ℕ) (v w : Waiter)
    → waiter_at ws n ≡ some w
    → waiter_at (set_waiter ws n v) n ≡ some v
unfolding waiter_at set_waiter
waiter_at-set_waiter_self [] n v w h = cc
waiter_at-set_waiter_self (u ∷ ws) zero v w h = refl
waiter_at-set_waiter_self (u ∷ ws) (suc n) v w h = waiter_at-set_waiter_self ws n v w h

waiter_at-set_waiter_ne :
    (ws : List Waiter) (m n : ℕ) (v : Waiter)
    → m ≢ n
    → waiter_at (set_waiter ws m v) n ≡ waiter_at ws n
unfolding waiter_at set_waiter
waiter_at-set_waiter_ne [] m n v h = refl
waiter_at-set_waiter_ne (u ∷ ws) zero zero v h = absurd (h refl)
waiter_at-set_waiter_ne (u ∷ ws) zero (suc n) v h = refl
waiter_at-set_waiter_ne (u ∷ ws) (suc m) zero v h = refl
waiter_at-set_waiter_ne (u ∷ ws) (suc m) (suc n) v h =
    waiter_at-set_waiter_ne ws m n v (omega arith)

-- What `resolve` does to the store: nothing, or a waiter that is not decided is.
resolve-store :
    (approval_id : Text) (d : ApprovalDecision) (s : ApprovalCoordinator)
    → ((resolve approval_id d s ≡ (s, false))
        × ((n : ℕ)
            → Dicts.get s.waiters approval_id ≡ some n
            → (w : Waiter) → waiter_at s.store n ≡ some w
            → w.is_set ≡ true))
      ⊎ ((n : ℕ) × (w : Waiter) × (Dicts.get s.waiters approval_id ≡ some n)
          × (waiter_at s.store n ≡ some w)
          × (w.is_set ≡ false)
          × (resolve approval_id d s
              ≡ (record s { store = set_waiter s.store n (decided d) }, true)))
unfolding resolve
resolve-store approval_id d s = elim (Option-cases (Dicts.get s.waiters approval_id)) [
  | inl q ↦ inl (rw (q, resolve) refl, λ n h w k. cc)
  | inr (n, q) ↦ elim (Option-cases (waiter_at s.store n)) [
    | inl r ↦ inl (rw (q, r, resolve) refl, λ m h w k. ground arith)
    | inr (w, r) ↦ elim (Bool-cases w.is_set) [
      | inl t ↦ inl (rw (q, r, t, resolve) refl, λ m h v k. ground arith)
      | inr f ↦ inr (n, w, q, r, f, rw (q, r, f, resolve) refl)
    ]
  ]
]

-- A waiter that is decided stays as it is.
Step-decided :
    {s t : ApprovalCoordinator}
    → Step s t
    → (n : ℕ) (w : Waiter) → waiter_at s.store n ≡ some w
    → w.is_set ≡ true
    → waiter_at t.store n ≡ some w
unfolding register discard
Step-decided (registers approval_id s) n w h i = waiter_at-append s.store (fresh ∷ []) n w h
Step-decided (discards approval_id s) n w h i = h
Step-decided (resolves approval_id d s) n w h i = elim (resolve-store approval_id d s) [
  | inl (q, _) ↦ rw q h
  | inr (m, v, g, at, f, q) ↦
      let ne : m ≢ n = λ e. ground arith in
      rw q (waiter_at-set_waiter_ne s.store m n (decided d) ne ∙ h)
]

Reach-decided :
    {s t : ApprovalCoordinator}
    → Reach s t
    → (n : ℕ) (w : Waiter) → waiter_at s.store n ≡ some w
    → w.is_set ≡ true
    → waiter_at t.store n ≡ some w
Reach-decided here n w h i = h
Reach-decided (next r st) n w h i = Step-decided st n w (Reach-decided r n w h i) i

-- A decision that `resolve` takes is the one that the turn gets which waits on the approval's waiter,
-- whatever is registered, resolved or discarded in between; and as long as the approval has that
-- waiter, no other decision is taken.
pub resolve_delivers :
    (approval_id : Text) (d : ApprovalDecision) (s t : ApprovalCoordinator) (n : ℕ)
    → Dicts.get s.waiters approval_id ≡ some n
    → (resolve approval_id d s).1 ≡ true
    → Reach (resolve approval_id d s).0 t
    → (wait_end n t ≡ some d)
      × (Dicts.get t.waiters approval_id ≡ some n
          → (d' : ApprovalDecision) → resolve approval_id d' t ≡ (t, false))
unfolding wait_end
resolve_delivers approval_id d s t n g k r = elim (resolve-store approval_id d s) [
  | inl (q, _) ↦ absurd (false≢true (sym (ap (λ x. x.1) q) ∙ k))
  | inr (m, v, g', at, f, q) ↦
      let same : m ≡ n = ground arith in
      let set : waiter_at (resolve approval_id d s).0.store n ≡ some (decided d) =
        rw (q, sym same) (waiter_at-set_waiter_self s.store m (decided d) v at) in
      let later = Reach-decided r n (decided d) set refl in
      (
        rw (later, wait_end) refl,
        λ h d'. elim (resolve-store approval_id d' t) [
          | inl (p, _) ↦ p
          | inr (m', v', g'', at', f', p) ↦ absurd (ground arith)
        ],
      )
]
