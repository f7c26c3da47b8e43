-- ===== src/Agents/Schedules/Writes.antt =====
-- The table of schedules under its statements, one after the other (agents/app/schedules.py): a cancel
-- and a re-arming are whole, with no other statement between their read and their commit.
use funnelmanager.Prelude.{
  Bool, Bool-cases, List, Option, Result, Text, [], ap, arith, err, inl, inr, ok, refl, sym, true,
  ℕ, ◌∷◌, ◌≡◌, ◌⊎◌,
}
use mathlib.Core.Path.{subst}
use funnelmanager.Prelude.Dicts
use funnelmanager.Agents.Schedules.Cancels.{cancel_schedule-guarded}
use funnelmanager.Agents.Schedules.{
  AgentSchedule, NextError, Table, cancel_schedule, canceled, claim_due_schedule, claimed,
  create_schedule, is_active, is_due, is_scheduled, new_schedule, pause_for_reauth, paused,
  rearm_paused, scheduled, stopped,
}
use funnelmanager.Agents.Schedules.Steps.{
  Kept, Kept-refl, Kept-trans, Step, claimed-IsArmed, claimed-Step, due_step, put-Kept,
  rearm_paused-Kept, update_where-Kept,
}

-- A statement on the table, by any pod, or a cancel or a re-arming as a whole.
pub data Write (N : Type 0) : Type 0 where
  creates : AgentSchedule N → ℕ → Write N
  claims : Text → ℕ → Bool → Option ℕ → Write N
  pauses cancels : Text → Write N
  rearms : Text → ℕ → Write N

module _ {N : Type 0} where
  -- What raises is rolled back.
  abbrev committed : {E : Type 0} → Table N → Result E (Table N) → Table N
  committed t (err e) = t
  committed t (ok t') = t'

  unfoldable pub write : Table N → Write N → Table N
  unfolding create_schedule claim_due_schedule pause_for_reauth cancel_schedule rearm_paused
  write t (creates row next_run_at) = create_schedule row next_run_at t
  write t (claims id now recurring next_run_at) =
      (claim_due_schedule id now recurring next_run_at t).0
  write t (pauses id) = (pause_for_reauth id t).0
  write t (cancels id) = (cancel_schedule id t).0
  write t (rearms session_id now) = committed t (rearm_paused session_id now t)

  unfoldable pub writes : Table N → List (Write N) → Table N
  unfolding write
  writes t [] = t
  writes t (op ∷ ops) = writes (write t op) ops

  Result-cases_table :
      (r : Result NextError (Table N))
      → ((e : NextError) × (r ≡ err e)) ⊎ ((t : Table N) × (r ≡ ok t))
  Result-cases_table (err e) = inl (e, refl)
  Result-cases_table (ok t) = inr (t, refl)

  is_due_scheduled :
      (now : ℕ) (row : AgentSchedule N) → is_due now row ≡ true → row.status ≡ scheduled
  is_due_scheduled now row h = due_step row.status (ground arith)

  write-Kept : (t : Table N) (op : Write N) → Kept t (write t op)
  unfolding write create_schedule claim_due_schedule pause_for_reauth cancel_schedule
  write-Kept t (creates row next_run_at) = elim (Bool-cases (Dicts.has t row.id)) [
    | inl y ↦ rw y (Kept-refl t)
    | inr n ↦ rw n (
        put-Kept t row.id (new_schedule row next_run_at)
          (λ r h. ground (arith, Dicts.get-none t row.id n)) (λ h. refl))
  ]
  write-Kept t (claims id now recurring next_run_at) =
      update_where-Kept (is_due now) (claimed now recurring next_run_at) id t
        (λ row h. ap is_active (is_due_scheduled now row h))
        (λ row h. claimed-Step now recurring next_run_at row (is_due_scheduled now row h))
        (λ row. claimed-IsArmed now recurring next_run_at row)
  write-Kept t (pauses id) =
      update_where-Kept (λ r. is_scheduled r.status) (stopped paused) id t
        (λ row h. ap is_active (due_step row.status h))
        (λ row h. subst (λ s. Step s paused) (sym (due_step row.status h)) Step.pause) (λ row. refl)
  write-Kept t (cancels id) =
      subst (λ r. Kept t r.0) (sym (cancel_schedule-guarded id t))
        (update_where-Kept (λ r. is_scheduled r.status) (stopped canceled) id t
          (λ row h. ap is_active (due_step row.status h))
          (λ row h. subst (λ s. Step s canceled) (sym (due_step row.status h)) Step.cancel)
          (λ row. refl))
  write-Kept t (rearms session_id now) = elim (Result-cases_table (rearm_paused session_id now t)) [
    | inl (e, q) ↦ rw (q, committed) (Kept-refl t)
    | inr (u, q) ↦ rw (q, committed) (rearm_paused-Kept session_id now t u q)
  ]

  -- Over any creations, claims, pauses, cancels and re-armings, one after the other, where no cancel or
  -- re-arming has another between its read and its commit and no session is deleted, a schedule that is
  -- there stays there, its state goes along the steps of the machine, one that is completed or canceled
  -- stays as it is, and where every schedule has a next run exactly while it is scheduled, that is so
  -- at the end.
  pub writes-Kept : (t : Table N) (ops : List (Write N)) → Kept t (writes t ops)
  unfolding writes
  writes-Kept t [] = Kept-refl t
  writes-Kept t (op ∷ ops) = Kept-trans (write-Kept t op) (writes-Kept (write t op) ops)
