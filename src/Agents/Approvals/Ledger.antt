-- ===== src/Agents/Approvals/Ledger.antt =====
-- The calls that race for one reference in the ledger (`mark_ref_consumed` of approvals.py).
use funnelmanager.Prelude.{
  Bool, List, Text, [], arith, false, if◌then◌else◌, non_empty, not, text_eq, text_eq_iff, ℕ, ◌&&◌,
  ◌+◌, ◌||◌, ◌∷◌, ◌≡◌,
}
use funnelmanager.Prelude.Dicts
use funnelmanager.Prelude.Dicts.{Dict}
use funnelmanager.Agents.Approvals.{ConsumedApproval, is_ref_consumed, mark_ref_consumed}

abbrev pub wins : List Bool → ℕ
wins [] = 0
wins (b ∷ bs) = (if b then 1 else 0) + wins bs

module _ {N : Type 0} where
  -- Whether a call is for the reference.
  abbrev pub among : Text → List (Text × ConsumedApproval N) → Bool
  among r [] = false
  among r ((k, row) ∷ calls) = text_eq k r || among r calls

  -- Calls of `mark_ref_consumed` in their order, with what each returns for the reference `r`: `false`
  -- stands for the calls for other references too.
  unfoldable pub marks :
      Text
      → List (Text × ConsumedApproval N)
      → Dict (ConsumedApproval N)
      → Dict (ConsumedApproval N) × List Bool
  marks r [] ledger = (ledger, [])
  marks r ((k, row) ∷ calls) ledger =
      let (ledger', won) = mark_ref_consumed k row ledger in
      let (ledger'', results) = marks r calls ledger' in (ledger'', (won && text_eq k r) ∷ results)

  has-mark_ref_consumed :
      (k r : Text) (row : ConsumedApproval N) (ledger : Dict (ConsumedApproval N))
      → Dicts.has (mark_ref_consumed k row ledger).0 r
        ≡ (text_eq k r && non_empty r || Dicts.has ledger r)
  unfolding mark_ref_consumed
  has-mark_ref_consumed k r row ledger =
      ground (arith, Dicts.has-put ledger k r row, text_eq_iff k r)

  won_first :
      (k r : Text) (row : ConsumedApproval N) (ledger : Dict (ConsumedApproval N))
      → ((mark_ref_consumed k row ledger).1 && text_eq k r)
        ≡ (text_eq k r && (non_empty r && not (Dicts.has ledger r)))
  unfolding mark_ref_consumed
  won_first k r row ledger = ground (arith, text_eq_iff k r)

  -- Over any calls, for any references in any order, a reference that is not empty and not in the
  -- ledger is won by exactly one call if there is one for it, and one that is in the ledger, or empty, by
  -- none; at the end, what is not empty is consumed exactly if it was in the ledger or a call was for it,
  -- and the empty reference never is.
  pub marks_once :
      (r : Text) (calls : List (Text × ConsumedApproval N)) (ledger : Dict (ConsumedApproval N))
      → (wins (marks r calls ledger).1
          ≡ (if Dicts.has ledger r then 0 else if non_empty r && among r calls then 1 else 0))
        × (is_ref_consumed (marks r calls ledger).0 r
            ≡ (non_empty r && (Dicts.has ledger r || among r calls)))
  unfolding marks is_ref_consumed
  marks_once r [] ledger = (ground arith, ground arith)
  marks_once r ((k, row) ∷ calls) ledger =
      let (w, u) = marks_once r calls (mark_ref_consumed k row ledger).0 in
      let a = has-mark_ref_consumed k r row ledger in
      let b = won_first k r row ledger in (ground arith, ground arith)
