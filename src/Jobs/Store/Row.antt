-- ===== src/Jobs/Store/Row.antt =====
-- One row under an event (`apply_event` of jobs/app/store.py, after the query).
use funnelmanager.Prelude.{
  Bool, Option, Option-cases, Text, ap, arith, false, if◌then◌else◌, inl, inr, non_empty, none, not,
  refl, some, sym, true, ◌&&◌, ◌∙◌, ◌≡◌, ◌≢◌, ◌≤◌, ◌⊎◌,
}
use funnelmanager.Runtime.Event.{JobEvent, JobStatus, queued, status_value, status_of, is_terminal}
use funnelmanager.Runtime.Event.Words.{status_of-status_value}
use funnelmanager.Calendar.{DateTime, instant}
use funnelmanager.Jobs.Store.{
  Job, Guard, admit, ignore, raise, applied, dropped, is_waiting, or_now, order_guard, guards,
  assign, apply_row,
}

abbrev pub Guard-cases : (g : Guard) → (g ≡ admit) ⊎ (g ≡ ignore) ⊎ (g ≡ raise)
Guard-cases admit = inl refl
Guard-cases ignore = inr (inl refl)
Guard-cases raise = inr (inr refl)

-- A stored word that names a terminal status.
abbrev pub is_final : Text → Bool
is_final w = elim (status_of w) [ some s ↦ is_terminal s | none ↦ false ]

is_final-status_value : (s : JobStatus) → is_final (status_value s) ≡ is_terminal s
is_final-status_value s = rw (status_of-status_value s, is_final)

-- An event that guard 2 admits is not older than the newest applied.
order_guard_newer :
    (now : DateTime) (ts last : Option DateTime) (s : DateTime)
    → order_guard ts last ≡ admit
    → last ≡ some s
    → instant s ≤ instant (or_now ts now)
unfolding order_guard
order_guard_newer now ts none s h q = cc
order_guard_newer now none (some x) s h q = cc
order_guard_newer now (some t) (some x) s h q = ground arith

order_guard_total : (ts last : Option DateTime) → order_guard ts last ≢ raise
unfolding order_guard
order_guard_total ts none h = cc
order_guard_total none (some x) h = cc
order_guard_total (some t) (some x) h = ground arith

non_empty-status_value : (s : JobStatus) → non_empty (status_value s) ≡ true
non_empty-status_value queued = refl
non_empty-status_value _ = refl

module _ {N : Type 0} where
  -- What the service's writes keep of a row: its status is a word of `JobStatus`, a row past waiting
  -- has a start, and a terminal one an end.
  pub record IsValid (job : Job N) : Type 0 where
    pub status : JobStatus
    pub worded : job.status ≡ status_value status
    pub started : is_waiting status ≡ false → job.started_at ≢ none
    pub ended : is_terminal status ≡ true → job.ended_at ≢ none

  pub assign-IsValid : (at : DateTime) (e : JobEvent N) (job : Job N) → IsValid (assign at e job)
  unfolding assign
  assign-IsValid at e job = record {
    status = e.status;
    worded = refl;
    started = λ w. elim (Option-cases job.started_at) [
      | inl n ↦ ground arith
      | inr (x, q) ↦ ground arith
    ];
    ended =
        λ t. elim (Option-cases job.ended_at) [ inl n ↦ ground arith | inr (x, q) ↦ ground arith ];
  }

  -- The guards on a row whose status is a word, by cases: they never raise.
  pub guards_worded :
      (ts : Option DateTime) (s stored : JobStatus) (job : Job N)
      → job.status ≡ status_value stored
      → guards ts s job ≡ (
          if is_terminal stored && not (is_terminal s)
          then ignore
          else order_guard ts job.last_event_at)
  unfolding guards
  guards_worded ts s stored job h =
      rw h (rw (status_of-status_value stored, guards) (rw (non_empty-status_value stored)))

  guards_valid :
      (ts : Option DateTime) (s : JobStatus) (job : Job N) (v : IsValid job)
      → guards ts s job ≡ (
          if is_terminal v.status && not (is_terminal s)
          then ignore
          else order_guard ts job.last_event_at)
  guards_valid ts s job v = guards_worded ts s v.status job v.worded

  -- What may become of a row: it keeps its key, a start or an end that it has, and a final status,
  -- and the time of its newest event does not go back.
  pub record Later (job row : Job N) : Type 0 where
    pub same_app : row.app ≡ job.app
    pub same_id : row.external_job_id ≡ job.external_job_id
    pub final : is_final job.status ≡ true → is_final row.status ≡ true
    pub start : (x : DateTime) → job.started_at ≡ some x → row.started_at ≡ some x
    pub stop : (x : DateTime) → job.ended_at ≡ some x → row.ended_at ≡ some x
    pub newer :
        (s : DateTime)
        → job.last_event_at ≡ some s
        → (t : DateTime) × (row.last_event_at ≡ some t) × (instant s ≤ instant t)

  pub Later-refl : (job : Job N) → Later job job
  Later-refl job = record {
    same_app = refl;
    same_id = refl;
    final = λ h. h;
    start = λ x h. h;
    stop = λ x h. h;
    newer = λ s h. (s, h, omega arith);
  }

  pub Later-trans : {a b c : Job N} → Later a b → Later b c → Later a c
  Later-trans p q = record {
    same_app = q.same_app ∙ p.same_app;
    same_id = q.same_id ∙ p.same_id;
    final = λ h. q.final (p.final h);
    start = λ x h. q.start x (p.start x h);
    stop = λ x h. q.stop x (p.stop x h);
    newer =
        λ s h. let (t, e, l) = p.newer s h in let (u, f, m) = q.newer t e in (u, f, omega arith);
  }

  module _ (ts : Option DateTime) (e : JobEvent N) (job : Job N) (v : IsValid job) where
    order_admits : guards ts e.status job ≡ admit → order_guard ts job.last_event_at ≡ admit
    order_admits h = ground (arith, guards_valid ts e.status job v)

    final_admits :
        guards ts e.status job ≡ admit → is_final job.status ≡ true → is_terminal e.status ≡ true
    final_admits h f =
        let w : is_terminal v.status ≡ true =
          sym (ap is_final v.worded ∙ is_final-status_value v.status) ∙ f in
        ground (arith, guards_valid ts e.status job v)

    pub assign-Later :
        (now : DateTime) → guards ts e.status job ≡ admit → Later job (assign (or_now ts now) e job)
    unfolding assign
    assign-Later now h = record {
      same_app = refl;
      same_id = refl;
      final = λ f. is_final-status_value e.status ∙ final_admits h f;
      start = λ x q. ground arith;
      stop = λ x q. ground arith;
      newer = λ s q.
          (or_now ts now, refl, order_guard_newer now ts job.last_event_at s (order_admits h) q);
    }

    guards_total : guards ts e.status job ≢ raise
    guards_total r =
        ground (arith, guards_valid ts e.status job v, order_guard_total ts job.last_event_at)

    -- The row that `apply_event` leaves, whether it applies the event or drops it.
    pub apply_row-IsValid :
        (now : DateTime) (app : Text)
        → ((row : Job N) × (apply_row now ts app e (some job) ≡ applied row)
            × IsValid row
            × Later job row)
          ⊎ (apply_row now ts app e (some job) ≡ dropped)
    unfolding apply_row
    apply_row-IsValid now app = elim (Guard-cases (guards ts e.status job)) [
      | inl a ↦ inl (
        assign (or_now ts now) e job,
        rw (a, apply_row),
        assign-IsValid (or_now ts now) e job,
        assign-Later now a,
      )
      | inr (inl i) ↦ inr (rw (i, apply_row))
      | inr (inr r) ↦ absurd (guards_total r)
    ]
