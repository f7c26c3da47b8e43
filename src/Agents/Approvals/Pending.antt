-- ===== src/Agents/Approvals/Pending.antt =====
-- A decided approval stays decided (the rows of approvals.py), whatever is created, decided or expired.
use funnelmanager.Prelude.{
  Bool-cases, List, Option, Option-cases, Text, [], arith, codes, false, inl, inr, none, refl, some,
  text_eq, text_eq_iff, ◌∷◌, ◌≡◌,
}
use funnelmanager.Prelude.Dicts
use funnelmanager.Prelude.Dicts.{Dict}
use funnelmanager.Calendar.{DateTime}
use funnelmanager.Agents.Approvals.{
  PendingApproval, is_pending, create_pending_approval, mark_decided, expired,
  expire_pending_for_turn,
}

pub data Write (N : Type 0) : Type 0 where
  creates : PendingApproval N → Write N
  decides : DateTime → Text → Text → Text → Write N
  expires : Text → Text → Write N

module _ {N : Type 0} where
  -- A row that exists is left as it is where the insert raises.
  abbrev created :
      Dict (PendingApproval N) → Option (Dict (PendingApproval N)) → Dict (PendingApproval N)
  created t none = t
  created t (some t') = t'

  unfoldable pub write : Dict (PendingApproval N) → Write N → Dict (PendingApproval N)
  write t (creates row) = created t (create_pending_approval row t)
  write t (decides now approval_id status decided_by) =
      mark_decided now approval_id status decided_by t
  write t (expires session_id turn_id) = expire_pending_for_turn session_id turn_id t

  unfoldable pub writes : Dict (PendingApproval N) → List (Write N) → Dict (PendingApproval N)
  writes t [] = t
  writes t (op ∷ ops) = writes (write t op) ops

  get-expire_pending_for_turn :
      (session_id turn_id : Text) (t : Dict (PendingApproval N)) (k : Text)
      → Dicts.get (expire_pending_for_turn session_id turn_id t) k
        ≡ elim (Dicts.get t k) [ none ↦ none | some row ↦ some (expired session_id turn_id row) ]
  unfolding expire_pending_for_turn Dicts.get
  get-expire_pending_for_turn session_id turn_id [] k = refl
  get-expire_pending_for_turn session_id turn_id ((j, row) ∷ t) k =
      ground (arith, get-expire_pending_for_turn session_id turn_id t k)

  write_settled :
      (t : Dict (PendingApproval N)) (op : Write N) (k : Text) (row : PendingApproval N)
      → Dicts.get t k ≡ some row
      → is_pending row.status ≡ false
      → Dicts.get (write t op) k ≡ some row
  unfolding write create_pending_approval mark_decided
  write_settled t (creates new) k row h p = ground (
    arith,
    Dicts.has-get t new.id,
    text_eq_iff new.id k,
    Dicts.get-put t new.id k
        (record new { status = codes "pending"; decided_by = none; decided_at = none }),
  )
  write_settled t (decides now id status by) k row h p = elim (Option-cases (Dicts.get t id)) [
    | inl q ↦ rw (q, mark_decided) h
    | inr (old, q) ↦ elim (Bool-cases (is_pending old.status)) [
      | inr n ↦ rw (q, n, mark_decided) h
      | inl y ↦
          let other : text_eq id k ≡ false = ground (arith, text_eq_iff id k) in
          rw
            (
              q,
              y,
              mark_decided,
              Dicts.get-put t id k
                  (record old { status = status; decided_by = some by; decided_at = some now }),
              other,
            )
            h
    ]
  ]
  write_settled t (expires session_id turn_id) k row h p =
      rw (get-expire_pending_for_turn session_id turn_id t k, h, p) (ground arith)

  -- After any writes, an approval that is decided or expired is as it was.
  pub writes_settled :
      (ops : List (Write N)) (t : Dict (PendingApproval N)) (k : Text) (row : PendingApproval N)
      → Dicts.get t k ≡ some row
      → is_pending row.status ≡ false
      → Dicts.get (writes t ops) k ≡ some row
  unfolding writes
  writes_settled [] t k row h p = h
  writes_settled (op ∷ ops) t k row h p =
      writes_settled ops (write t op) k row (write_settled t op k row h p) p
