-- ===== src/Agents/Schedules/Steps.antt =====
-- The table of schedules refines the machine of a schedule's states (agents/app/schedules.py).
use funnelmanager.Prelude.{
  Bool, Bool-cases, Option, Option-cases, Result, Text, [], and_true, ap, arith, err, false, inl,
  inr, none, ok, refl, some, sym, text_eq, text_eq_iff, true, ℕ, ◌>>=◌, ◌∙◌, ◌∷◌, ◌≡◌,
}
use mathlib.Core.Path.{subst}
use funnelmanager.Prelude.Dicts
use funnelmanager.Agents.Schedules.{
  AgentSchedule, NextError, ScheduleStatus, Table, canceled, claimed, completed, is_active,
  is_paused_of, is_recurring, is_scheduled, next_of_spec, paused, rearm_paused, rearm_row, rearmed,
  rearmed_at, scheduled, update_where,
}

-- The machine of a schedule: `completed` and `canceled` are never left.
pub data Step : ScheduleStatus → ScheduleStatus → Type 0 where
  stay : (s : ScheduleStatus) → Step s s
  complete : (s : ScheduleStatus) → is_active s ≡ true → Step s completed
  pause : Step scheduled paused
  cancel : Step scheduled canceled
  rearm : Step paused scheduled

pub data Steps : ScheduleStatus → ScheduleStatus → Type 0 where
  none_left : {s : ScheduleStatus} → Steps s s
  then_step : {a b c : ScheduleStatus} → Steps a b → Step b c → Steps a c

Steps-trans : {a b c : ScheduleStatus} → Steps a b → Steps b c → Steps a c
Steps-trans p Steps.none_left = p
Steps-trans p (Steps.then_step q m) = Steps.then_step (Steps-trans p q) m

abbrev has_next : Option ℕ → Bool
has_next none = false
has_next (some t) = true

pub due_step : (s : ScheduleStatus) → is_scheduled s ≡ true → s ≡ scheduled
due_step scheduled h = refl
due_step _ h = cc

bind_ok {ℓ κ} :
    {E : Type 0} {A : Type ℓ} {B : Type κ} (r : Result E A) (k : A → Result E B) (b : B)
    → (r >>= k) ≡ ok b
    → (a : A) × (r ≡ ok a) × (k a ≡ ok b)
bind_ok (err e) k b h = cc
bind_ok (ok a) k b h = (a, refl, h)

module _ {N : Type 0} where
  -- A schedule has a next run exactly while it is scheduled.
  abbrev pub IsArmed : AgentSchedule N → Type 0
  IsArmed row = is_scheduled row.status ≡ has_next row.next_run_at

  -- What becomes of a row: its state goes along the machine, and one that is over stays as it is.
  pub record Became (row row' : AgentSchedule N) : Type 0 where
    pub steps : Steps row.status row'.status
    pub over : is_active row.status ≡ false → row' ≡ row

  -- What becomes of a table.
  pub record Kept (t t' : Table N) : Type 0 where
    pub rows :
        (k : Text) (row : AgentSchedule N)
        → Dicts.get t k ≡ some row
        → (row' : AgentSchedule N) × (Dicts.get t' k ≡ some row') × Became row row'
    pub armed :
        ((k : Text) (row : AgentSchedule N) → Dicts.get t k ≡ some row → IsArmed row)
        → (k : Text) (row : AgentSchedule N) → Dicts.get t' k ≡ some row
        → IsArmed row

  Became-refl : (row : AgentSchedule N) → Became row row
  Became-refl row = record { steps = Steps.none_left; over = λ h. refl }

  pub Kept-refl : (t : Table N) → Kept t t
  Kept-refl t = record { rows = λ k row h. (row, h, Became-refl row); armed = λ h. h }

  pub Kept-trans : {t u w : Table N} → Kept t u → Kept u w → Kept t w
  Kept-trans p q = record {
    rows = λ k row h.
        let (a, g, l) = p.rows k row h in
        let (b, g', l') = q.rows k a g in
        (
          b,
          g',
          record {
            steps = Steps-trans l.steps l'.steps;
            over = λ o. let e = l.over o in l'.over (ap (λ r. is_active r.status) e ∙ o) ∙ e;
          },
        );
    armed = λ h. q.armed (p.armed h);
  }

  -- A row that is put at its key.
  pub put-Kept :
      (t : Table N) (k : Text) (new : AgentSchedule N)
      → ((row : AgentSchedule N) → Dicts.get t k ≡ some row → Became row new)
      → (((j : Text) (row : AgentSchedule N) → Dicts.get t j ≡ some row → IsArmed row)
          → IsArmed new)
      → Kept t (Dicts.put t k new)
  put-Kept t k new b a = record {
    rows = λ j row h. elim (Bool-cases (text_eq k j)) [
      | inl y ↦ (new, Dicts.get-put t k j new ∙ rw y refl, b row (ground (arith, text_eq_iff k j)))
      | inr n ↦ (row, Dicts.get-put t k j new ∙ rw n h, Became-refl row)
    ];
    armed = λ h j row g. elim (Bool-cases (text_eq k j)) [
      | inl y ↦ let e : new ≡ row = ground (arith, Dicts.get-put t k j new) in subst IsArmed e (a h)
      | inr n ↦ h j row (ground (arith, Dicts.get-put t k j new))
    ];
  }

  pub update_where-Kept :
      (guard : AgentSchedule N → Bool) (f : AgentSchedule N → AgentSchedule N) (k : Text)
      (t : Table N)
      → ((row : AgentSchedule N) → guard row ≡ true → is_active row.status ≡ true)
      → ((row : AgentSchedule N) → guard row ≡ true → Step row.status (f row).status)
      → ((row : AgentSchedule N) → IsArmed (f row))
      → Kept t (update_where guard f k t).0
  unfolding update_where
  update_where-Kept guard f k t g s a = elim (Option-cases (Dicts.get t k)) [
    | inl n ↦ rw (n, update_where) (Kept-refl t)
    | inr (row, q) ↦ elim (Bool-cases (guard row)) [
      | inr n ↦ rw (q, n, update_where) (Kept-refl t)
      | inl y ↦
          rw (q, y, update_where)
            (put-Kept t k (f row)
              (λ r h.
                let e : row ≡ r = ground arith in
                subst (λ x. Became x (f row)) e
                  (record {
                    steps = Steps.then_step Steps.none_left (s row y);
                    over = λ o. ground (arith, g row y);
                  }))
              (λ h. a row))
    ]
  ]

  pub claimed-Step :
      (now : ℕ) (r : Bool) (next : Option ℕ) (row : AgentSchedule N)
      → row.status ≡ scheduled
      → Step row.status (claimed now r next row).status
  claimed-Step now r none row h = Step.complete row.status (ap is_active h)
  claimed-Step now false (some t) row h = Step.complete row.status (ap is_active h)
  claimed-Step now true (some t) row h = subst (λ s. Step s scheduled) (sym h) (Step.stay scheduled)

  pub claimed-IsArmed :
      (now : ℕ) (r : Bool) (next : Option ℕ) (row : AgentSchedule N)
      → IsArmed (claimed now r next row)
  claimed-IsArmed now r none row = refl
  claimed-IsArmed now false (some t) row = refl
  claimed-IsArmed now true (some t) row = refl

  -- A row committed a rearming that does not raise.
  unfoldable after_rearm : Text → ℕ → AgentSchedule N → AgentSchedule N
  after_rearm session_id now row = elim (rearm_row session_id now row) [
    | err e ↦ row
    | ok row' ↦ row'
  ]

  get-rearm_paused :
      (session_id : Text) (now : ℕ) (t t' : Table N) (k : Text)
      → rearm_paused session_id now t ≡ ok t'
      → Dicts.get t' k
        ≡ elim (Dicts.get t k) [ none ↦ none | some row ↦ some (after_rearm session_id now row) ]
  unfolding rearm_paused after_rearm Dicts.get
  get-rearm_paused session_id now [] t' k h =
      let e : [] ≡ t' = cc in subst (λ t. Dicts.get t k ≡ none) e refl
  get-rearm_paused session_id now ((j, row) ∷ t) t' k h =
      let (row', q, h1) =
        bind_ok (rearm_row session_id now row)
          (λ r. rearm_paused session_id now t >>= (λ u. ok ((j, r) ∷ u))) t' h in
      let (u, r, h2) = bind_ok (rearm_paused session_id now t) (λ u. ok ((j, row') ∷ u)) t' h1 in
      let e : (j, row') ∷ u ≡ t' = cc in
      let same : after_rearm session_id now row ≡ row' = rw (q, after_rearm) refl in
      subst
        (λ t'. Dicts.get t' k ≡ elim (Dicts.get ((j, row) ∷ t) k) [
          | none ↦ none
          | some row ↦ some (after_rearm session_id now row)
        ])
        e (ground (arith, get-rearm_paused session_id now t u k r))

  paused_of :
      (session_id : Text) (row : AgentSchedule N)
      → is_paused_of session_id row ≡ true
      → row.status ≡ paused
  paused_of session_id row h = go row.status (and_true _ _ h).1
    where
      go : (s : ScheduleStatus) → elim s [ paused ↦ true | _ ↦ false ] ≡ true → s ≡ paused
      go paused h = refl
      go _ h = cc

  rearmed_at-Step :
      (row : AgentSchedule N) (next : Option ℕ)
      → row.status ≡ paused
      → Step row.status (rearmed_at row next).status × IsArmed (rearmed_at row next)
  rearmed_at-Step row none p = (Step.complete row.status (ap is_active p), refl)
  rearmed_at-Step row (some t) p = (subst (λ s. Step s scheduled) (sym p) Step.rearm, refl)

  rearmed-Step :
      (now : ℕ) (row row' : AgentSchedule N)
      → row.status ≡ paused
      → rearmed now row ≡ ok row'
      → Step row.status row'.status × IsArmed row'
  unfolding rearmed
  rearmed-Step now row row' p h = elim (Bool-cases (is_recurring row.spec)) [
    | inr n ↦
        let same : rearmed now row ≡ ok (rearmed_at row (some now)) = rw (n, rearmed) refl in
        let e : rearmed_at row (some now) ≡ row' = cc (sym same ∙ h) in
        subst (λ r. Step row.status r.status × IsArmed r) e (rearmed_at-Step row (some now) p)
    | inl y ↦
        let same : rearmed now row
            ≡ (next_of_spec row.spec now >>= (λ next. ok (rearmed_at row next))) =
          rw (y, rearmed) refl in
        let (next, q, g) =
          bind_ok (next_of_spec row.spec now) (λ next. ok (rearmed_at row next)) row'
            (sym same ∙ h) in
        let e : rearmed_at row next ≡ row' = cc g in
        subst (λ r. Step row.status r.status × IsArmed r) e (rearmed_at-Step row next p)
  ]

  after_rearm-Became :
      (session_id : Text) (now : ℕ) (row : AgentSchedule N)
      → Became row (after_rearm session_id now row)
        × (IsArmed row → IsArmed (after_rearm session_id now row))
  unfolding after_rearm rearm_row
  after_rearm-Became session_id now row = elim (Bool-cases (is_paused_of session_id row)) [
    | inr n ↦ rw (n, after_rearm) (Became-refl row, λ a. a)
    | inl y ↦ rw (y, after_rearm) (go (paused_of session_id row y) (rearmed now row) refl)
  ]
    where
      go :
          row.status ≡ paused
          → (o : Result NextError (AgentSchedule N)) → rearmed now row ≡ o
          → Became row (elim o [ err e ↦ row | ok r ↦ r ])
            × (IsArmed row → IsArmed (elim o [ err e ↦ row | ok r ↦ r ]))
      go p (err e) q = (Became-refl row, λ a. a)
      go p (ok r) q =
          let (m, a) = rearmed-Step now row r p q in
          (
            record {
              steps = Steps.then_step Steps.none_left m;
              over = λ o. ground (arith, ap is_active p);
            },
            λ b. a,
          )

  pub rearm_paused-Kept :
      (session_id : Text) (now : ℕ) (t t' : Table N)
      → rearm_paused session_id now t ≡ ok t'
      → Kept t t'
  rearm_paused-Kept session_id now t t' h = record {
    rows = λ k row q. (
      after_rearm session_id now row,
      get-rearm_paused session_id now t t' k h ∙ rw q refl,
      (after_rearm-Became session_id now row).0,
    );
    armed = λ a k row q. elim (Option-cases (Dicts.get t k)) [
      | inl n ↦ ground (arith, get-rearm_paused session_id now t t' k h)
      | inr (r, g) ↦
          let e : after_rearm session_id now r ≡ row =
            ground (arith, get-rearm_paused session_id now t t' k h) in
          subst IsArmed e ((after_rearm-Became session_id now r).1 (a k r g))
    ];
  }
