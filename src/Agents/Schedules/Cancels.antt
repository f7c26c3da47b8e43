-- ===== src/Agents/Schedules/Cancels.antt =====
-- A cancel that is not interleaved (`cancel_schedule` of agents/app/schedules.py) is a guarded UPDATE.
use funnelmanager.Prelude.{Bool-cases, Option-cases, Text, inl, inr, refl, ◌≡◌}
use funnelmanager.Prelude.Dicts
use funnelmanager.Agents.Schedules.{
  Table, cancel_commit, cancel_schedule, canceled, is_scheduled, stopped, update_where,
}

module _ {N : Type 0} where
  pub cancel_schedule-guarded :
      (id : Text) (t : Table N)
      → cancel_schedule id t ≡ update_where (λ r. is_scheduled r.status) (stopped canceled) id t
  unfolding cancel_schedule cancel_commit update_where
  cancel_schedule-guarded id t = elim (Option-cases (Dicts.get t id)) [
    | inl q ↦ rw (q, cancel_schedule, update_where) refl
    | inr (row, q) ↦ elim (Bool-cases (is_scheduled row.status)) [
      | inl y ↦ rw (q, y, cancel_schedule, update_where) (rw (cancel_commit, q, update_where) refl)
      | inr n ↦ rw (q, n, cancel_schedule, update_where) refl
    ]
  ]
