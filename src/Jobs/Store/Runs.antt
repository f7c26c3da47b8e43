-- ===== src/Jobs/Store/Runs.antt =====
-- The table under any sequence of events (`apply_event` of jobs/app/store.py).
use funnelmanager.Prelude.{
  Bool-cases, List, Option, Text, [], arith, inl, inr, non_empty, none, refl, some, sym,
  text_eq_iff, ◌∙◌, ◌∷◌, ◌≡◌,
}
use mathlib.Core.Path.{subst}
use funnelmanager.Runtime.Event.{JobEvent}
use funnelmanager.Calendar.{DateTime}
use funnelmanager.Jobs.Store.{
  Job, Table, is_row, find, save, applied, commit, apply_row, apply_event, assign, new_row, or_now,
  parse_ts, run, guards,
}
use funnelmanager.Jobs.Store.Row.{
  IsValid, assign-IsValid, Later, Later-refl, Later-trans, assign-Later, Guard-cases,
}
use funnelmanager.Jobs.Store.Rows.{find-save, find_key}

module _ {N : Type 0} where
  -- Every row that a query finds is valid.
  pub record AllValid (t : Table N) : Type 0 where
    pub at : (a i : Text) (job : Job N) → find t a i ≡ some job → IsValid job

  pub save-AllValid : (t : Table N) (row : Job N) → AllValid t → IsValid row → AllValid (save t row)
  save-AllValid t row h v = record {
    at = λ a i job q.
        let r = sym (find-save t row a i) ∙ q in
        elim (Bool-cases (is_row a i row)) [
          | inl e ↦ let same : row ≡ job = ground arith in subst IsValid same v
          | inr e ↦ h.at a i job (ground arith)
        ];
  }

  apply_row_new :
      (now : DateTime) (ts : Option DateTime) (app : Text) (e : JobEvent N)
      → apply_row now ts app e none ≡ applied (assign (or_now ts now) e (new_row app e.job_id))
  unfolding apply_row
  apply_row_new now ts app e = refl

  -- What one event leaves of a table, at every key.
  pub record Keeps (t u : Table N) : Type 0 where
    pub valid : AllValid t → AllValid u
    pub later :
        AllValid t
        → (a i : Text) (job : Job N) → find t a i ≡ some job
        → (row : Job N) × (find u a i ≡ some row) × Later job row

  Keeps-refl : (t : Table N) → Keeps t t
  Keeps-refl t = record { valid = λ h. h; later = λ h a i job q. (job, q, Later-refl job) }

  Keeps-trans : {t u w : Table N} → Keeps t u → Keeps u w → Keeps t w
  Keeps-trans p q = record {
    valid = λ h. q.valid (p.valid h);
    later = λ h a i job f.
        let (row, g, l) = p.later h a i job f in
        let (row', g', l') = q.later (p.valid h) a i row g in (row', g', Later-trans l l');
  }

  -- A row may be saved that is valid and comes later than the one at its key.
  save-Keeps :
      (t : Table N) (row : Job N)
      → (AllValid t → IsValid row)
      → (AllValid t → (job : Job N) → find t row.app row.external_job_id ≡ some job → Later job row)
      → Keeps t (save t row)
  save-Keeps t row v l = record {
    valid = λ h. save-AllValid t row h (v h);
    later = λ h a i job q. elim (Bool-cases (is_row a i row)) [
      | inl e ↦ (
        row,
        find-save t row a i ∙ ground arith,
        l h job (ground (arith, text_eq_iff row.app a, text_eq_iff row.external_job_id i)),
      )
      | inr e ↦ (job, find-save t row a i ∙ ground arith, Later-refl job)
    ];
  }

  module _ (fromisoformat : Text → Option DateTime) where
    -- One event, on every branch of `apply_event`.
    apply_row-Keeps :
        (now : DateTime) (ts : Option DateTime) (t : Table N) (app : Text) (e : JobEvent N)
        (o : Option (Job N))
        → find t app e.job_id ≡ o
        → Keeps t (commit t (apply_row now ts app e o))
    unfolding apply_row assign new_row
    apply_row-Keeps now ts t app e none q =
        save-Keeps t _ (λ h. assign-IsValid (or_now ts now) e (new_row app e.job_id))
          (λ h job f. cc (q, f))
    apply_row-Keeps now ts t app e (some job) q = elim (Guard-cases (guards ts e.status job)) [
      | inl a ↦
          rw (a, apply_row)
            (save-Keeps t _ (λ h. assign-IsValid (or_now ts now) e job)
              (λ h job' f.
                let same : job ≡ job' = ground (arith, find_key t app e.job_id job q) in
                subst (λ x. Later x (assign (or_now ts now) e job)) same
                  (assign-Later ts e job (h.at app e.job_id job q) now a)))
      | inr (inl i) ↦ rw (i, apply_row) (Keeps-refl t)
      | inr (inr r) ↦ rw (r, apply_row) (Keeps-refl t)
    ]

    pub apply_event-Keeps :
        (now : DateTime) (t : Table N) (app : Text) (e : JobEvent N)
        → Keeps t (apply_event fromisoformat now t app e).0
    unfolding apply_event
    apply_event-Keeps now t app e = elim (Bool-cases (non_empty e.job_id)) [
      | inl h ↦ rw h (apply_row-Keeps now (parse_ts fromisoformat e.ts) t app e _ refl)
      | inr h ↦ rw h (Keeps-refl t)
    ]

    -- After any calls of the subscribers.
    pub run-Keeps :
        (t : Table N) (calls : List (DateTime × Text × JobEvent N))
        → Keeps t (run fromisoformat t calls)
    unfolding run
    run-Keeps t [] = Keeps-refl t
    run-Keeps t ((now, app, e) ∷ calls) =
        Keeps-trans (apply_event-Keeps now t app e)
          (run-Keeps (apply_event fromisoformat now t app e).0 calls)

  module _ (fromisoformat : Text → Option DateTime) where
    -- From a table of valid rows, after any events of any producers in any order, each with any clock
    -- and some of them dropped or raising: every job that was there is there, its row is valid, and it
    -- keeps a final status, a start and an end that it has, and a newest event's time that does not go
    -- back.
    pub run-Later :
        (t : Table N) (calls : List (DateTime × Text × JobEvent N)) (a i : Text) (job : Job N)
        → AllValid t
        → find t a i ≡ some job
        → (row : Job N) × (find (run fromisoformat t calls) a i ≡ some row)
          × IsValid row
          × Later job row
    run-Later t calls a i job h q =
        let k = run-Keeps fromisoformat t calls in
        let (row, f, l) = k.later h a i job q in (row, f, (k.valid h).at a i row f, l)

  pub nil-AllValid : AllValid []
  unfolding find
  nil-AllValid = record { at = λ a i job q. cc }
