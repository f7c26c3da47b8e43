-- ===== src/Agents/Schedules/Claims.antt =====
-- Each firing is claimed once (`claim_due_schedule` of agents/app/schedules.py).
use funnelmanager.Prelude.{
  All, Bool, Bool-cases, List, Option, Text, [], ap, arith, false, if◌then◌else◌, inl, inr, none,
  refl, some, suc, true, ℕ, ◌<◌, ◌∙◌, ◌∷◌, ◌≡◌, ◌≤◌,
}
use funnelmanager.Prelude.Dicts
use funnelmanager.Agents.Schedules.Cancels.{cancel_schedule-guarded}
use funnelmanager.Agents.Schedules.{
  AgentSchedule, Table, canceled, claim_due_schedule, claimed, cancel_schedule, has_come, is_due,
  is_scheduled, pause_for_reauth, paused, stopped, update_where,
}

-- What a pod may do to a schedule: claim it at a time, with the next run that it has computed, or pause
-- or cancel it.
pub data Attempt : Type 0 where
  claims : ℕ → Bool → Option ℕ → Attempt
  pauses cancels : Attempt

is_win {ℓ} : {A : Type ℓ} → Option A → Bool
is_win none = false
is_win (some a) = true

module _ {N : Type 0} (id : Text) where
  -- The table after an attempt, and whether it is a claim that wins.
  unfoldable pub attempt : Attempt → Table N → Table N × Bool
  unfolding claim_due_schedule pause_for_reauth cancel_schedule is_win
  attempt (claims now recurring next_run_at) t =
      let (t', won) = claim_due_schedule id now recurring next_run_at t in (t', is_win won)
  attempt pauses t = ((pause_for_reauth id t).0, false)
  attempt cancels t = ((cancel_schedule id t).0, false)

  -- The claims that win.
  unfoldable pub wins : List Attempt → Table N → ℕ
  unfolding attempt
  wins [] t = 0
  wins (a ∷ rest) t =
      let (t', won) = attempt a t in let later = wins rest t' in if won then suc later else later

-- Whether a claim is the first attempt to find a schedule that is due at some time.
unfoldable pub claim_first : List Attempt → Option ℕ → Bool
claim_first [] due = false
claim_first (claims now recurring next_run_at ∷ rest) due =
    let later = claim_first rest due in if has_come due now then true else later
claim_first (pauses ∷ rest) due = false
claim_first (cancels ∷ rest) due = false

-- Attempts before the next firing: a claim is not later than a time `end`, and its next run is.
abbrev pub IsBefore : ℕ → Attempt → Type 0
IsBefore end (claims now recurring none) = now ≤ end
IsBefore end (claims now recurring (some next)) = (now ≤ end) × (end < next)
IsBefore end _ = Unit

before_now :
    (end now : ℕ) (r : Bool) (next : Option ℕ) → IsBefore end (claims now r next) → now ≤ end
before_now end now r none b = b
before_now end now r (some t) b = b.0

module _ {N : Type 0} where
  get-update_where :
      (guard : AgentSchedule N → Bool) (f : AgentSchedule N → AgentSchedule N) (k : Text)
      (t : Table N) (row : AgentSchedule N)
      → Dicts.get t k ≡ some row
      → Dicts.get (update_where guard f k t).0 k ≡ some (if guard row then f row else row)
  unfolding update_where
  get-update_where guard f k t row h = elim (Bool-cases (guard row)) [
    | inl y ↦ rw (h, y, update_where) (Dicts.get-put_self t k (f row))
    | inr n ↦ rw (h, n, update_where) h
  ]

  won-update_where :
      (guard : AgentSchedule N → Bool) (f : AgentSchedule N → AgentSchedule N) (k : Text)
      (t : Table N) (row : AgentSchedule N)
      → Dicts.get t k ≡ some row
      → (update_where guard f k t).1 ≡ (if guard row then some (f row) else none)
  unfolding update_where
  won-update_where guard f k t row h = elim (Bool-cases (guard row)) [
    | inl y ↦ rw (h, y, update_where) refl
    | inr n ↦ rw (h, n, update_where) refl
  ]

  get-cancel_schedule :
      (id : Text) (t : Table N) (row : AgentSchedule N)
      → Dicts.get t id ≡ some row
      → Dicts.get (cancel_schedule id t).0 id
        ≡ some (if is_scheduled row.status then stopped canceled row else row)
  get-cancel_schedule id t row g =
      ap (λ r. Dicts.get r.0 id) (cancel_schedule-guarded id t)
      ∙ get-update_where (λ r. is_scheduled r.status) (stopped canceled) id t row g

  -- A row that no claim until a time finds due.
  abbrev Idle : ℕ → AgentSchedule N → Type 0
  Idle end row = (now : ℕ) → now ≤ end → is_due now row ≡ false

  stopped-Idle :
      (end : ℕ) (row : AgentSchedule N) (b : Bool)
      → Idle end row
      → Idle end (if b then stopped paused row else row)
  stopped-Idle end row true h = λ now l. refl
  stopped-Idle end row false h = h

  canceled-Idle :
      (end : ℕ) (row : AgentSchedule N) (b : Bool)
      → Idle end row
      → Idle end (if b then stopped canceled row else row)
  canceled-Idle end row true h = λ now l. refl
  canceled-Idle end row false h = h

  claimed-Idle :
      (end now : ℕ) (r : Bool) (next : Option ℕ) (row : AgentSchedule N)
      → IsBefore end (claims now r next)
      → Idle end (claimed now r next row)
  claimed-Idle end now r none row b = λ at l. refl
  claimed-Idle end now false (some t) row b = λ at l. refl
  claimed-Idle end now true (some t) row b = λ at l. ground (arith, b.1)

  Idle-wins :
      (id : Text) (end : ℕ) (ops : List Attempt) (t : Table N) (row : AgentSchedule N)
      → Dicts.get t id ≡ some row
      → Idle end row
      → All (IsBefore end) ops
      → wins id ops t ≡ 0
  unfolding wins attempt claim_due_schedule pause_for_reauth cancel_schedule is_win
  Idle-wins id end [] t row g i b = refl
  Idle-wins id end (claims now r next ∷ ops) t row g i b =
      let n = i now (before_now end now r next b.0) in
      let won = won-update_where (is_due now) (claimed now r next) id t row g in
      let got = get-update_where (is_due now) (claimed now r next) id t row g in
      let rest =
        Idle-wins id end ops (claim_due_schedule id now r next t).0 row (got ∙ rw n refl) i b.1 in
      rw (won, n) rest
  Idle-wins id end (pauses ∷ ops) t row g i b =
      Idle-wins id end ops _ _
        (get-update_where (λ r. is_scheduled r.status) (stopped paused) id t row g)
        (stopped-Idle end row (is_scheduled row.status) i) b.1
  Idle-wins id end (cancels ∷ ops) t row g i b =
      Idle-wins id end ops _ _ (get-cancel_schedule id t row g)
        (canceled-Idle end row (is_scheduled row.status) i) b.1

  -- Over any attempts of any pods on a schedule that is scheduled, all before its next firing, exactly
  -- one claim wins where the first attempt that finds it due, or stops it, is a claim, and none where it
  -- is stopped first or never found due.
  pub claims_once :
      (id : Text) (end : ℕ) (ops : List Attempt) (t : Table N) (row : AgentSchedule N)
      → Dicts.get t id ≡ some row
      → is_scheduled row.status ≡ true
      → All (IsBefore end) ops
      → wins id ops t ≡ (if claim_first ops row.next_run_at then 1 else 0)
  unfolding wins attempt claim_due_schedule pause_for_reauth cancel_schedule is_win claim_first
  claims_once id end [] t row g s b = refl
  claims_once id end (claims now r next ∷ ops) t row g s b =
      let won = won-update_where (is_due now) (claimed now r next) id t row g in
      let got = get-update_where (is_due now) (claimed now r next) id t row g in
      elim (Bool-cases (has_come row.next_run_at now)) [
        | inl y ↦
            let d : is_due now row ≡ true = rw (s, y) refl in
            rw (won, d, y)
              (ap suc (
                Idle-wins id end ops (claim_due_schedule id now r next t).0 (claimed now r next row)
                  (got ∙ rw d refl) (claimed-Idle end now r next row b.0) b.1))
        | inr n ↦
            let d : is_due now row ≡ false = rw (s, n) refl in
            rw (won, d, n)
              (claims_once id end ops (claim_due_schedule id now r next t).0 row (got ∙ rw d refl) s
                b.1)
      ]
  claims_once id end (pauses ∷ ops) t row g s b =
      Idle-wins id end ops _ _
        (get-update_where (λ r. is_scheduled r.status) (stopped paused) id t row g)
        (rw s (λ now l. refl)) b.1
  claims_once id end (cancels ∷ ops) t row g s b =
      Idle-wins id end ops _ _ (get-cancel_schedule id t row g) (rw s (λ now l. refl)) b.1
