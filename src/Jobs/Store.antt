-- ===== src/Jobs/Store.antt =====
-- jobs/app/store.py: the upsert of a job's row from an event, with its two guards. The table is the
-- list of rows (jobs/app/models.py), unique in the app and the job id by its constraint.
pub mod Rows
pub mod Row
pub mod Replay
pub mod Runs
pub mod Tests
use funnelmanager.Prelude.{
  Bool, List, Option, Text, [], codes, false, if◌then◌else◌, ltb, non_empty, none, not, or_text,
  some, text_eq, true, ◌&&◌, ◌∷◌,
}
use funnelmanager.Prelude.Dicts
use funnelmanager.Prelude.Dicts.{Dict}
use funnelmanager.Calendar.{DateTime, naive, aware, instant}
use funnelmanager.Runtime.Json.{Json}
use funnelmanager.Runtime.Event.{
  JobEvent, JobStatus, queued, scheduled, status_value, status_of, is_terminal,
}

-- A row. The columns that have a default start at it (the ORM fills it in at the insert where the
-- attribute is `None`), and `meta` is `none` until the first event sets it.
pub record Job (N : Type 0) : Type 0 where
  pub app : Text
  pub external_job_id : Text
  pub type : Text
  pub user : Text
  pub origin : Text
  pub actor : Text
  pub status : Text
  pub progress : Option N
  pub exit_status : Option Text
  pub started_at : Option DateTime
  pub ended_at : Option DateTime
  pub last_event_at : Option DateTime
  pub meta : Option (Dict (Json N))

-- What the guards say: go on, drop the event, or the ValueError of a stored word that is no status.
pub data Guard : Type 0 where
  admit ignore raise : Guard

-- The outcome of `apply_event` on one row: the row as it stands then, or no change.
pub data Outcome (N : Type 0) : Type 0 where
  applied : Job N → Outcome N
  dropped : Outcome N
  raised : Outcome N

abbrev pub or_else {ℓ} : {A : Type ℓ} → Option A → Option A → Option A
or_else (some a) b = some a
or_else none b = b

abbrev pub is_waiting : JobStatus → Bool
is_waiting queued = true
is_waiting scheduled = true
is_waiting _ = false

abbrev pub or_now : Option DateTime → DateTime → DateTime
or_now (some t) now = t
or_now none now = now

abbrev pub Table : Type 0 → Type 0
Table N = List (Job N)

-- Guard 2: an event older than the newest applied is dropped, one without a time always, unless none
-- was applied.
unfoldable pub order_guard : Option DateTime → Option DateTime → Guard
order_guard event_ts none = admit
order_guard none (some stored) = ignore
order_guard (some t) (some stored) = if ltb (instant t) (instant stored) then ignore else admit

module _ {N : Type 0} where
  unfoldable pub new_row : Text → Text → Job N
  new_row app external_job_id = record {
    app = app;
    external_job_id = external_job_id;
    type = [];
    user = [];
    origin = codes "user";
    actor = [];
    status = codes "queued";
    progress = none;
    exit_status = none;
    started_at = none;
    ended_at = none;
    last_event_at = none;
    meta = none;
  }

  -- Guard 1, a terminal status is left for no other, then guard 2.
  unfoldable pub guards : Option DateTime → JobStatus → Job N → Guard
  guards event_ts status job =
      if non_empty job.status
      then elim (status_of job.status) [
        | none ↦ raise
        | some stored ↦
            if is_terminal stored && not (is_terminal status)
            then ignore
            else order_guard event_ts job.last_event_at
      ]
      else order_guard event_ts job.last_event_at

  abbrev pub some_meta : Option (Dict (Json N)) → Dict (Json N)
  some_meta none = []
  some_meta (some m) = m

  -- `if event.meta: … elif job.meta is None: …`
  unfoldable pub merge_meta : Option (Dict (Json N)) → Dict (Json N) → Option (Dict (Json N))
  merge_meta meta [] = some (some_meta meta)
  merge_meta meta (kv ∷ d) = some (Dicts.update (some_meta meta) (kv ∷ d))

  -- The assignments of an event that passed the guards.
  unfoldable pub assign : DateTime → JobEvent N → Job N → Job N
  assign applied_ts event job = record job {
    type = or_text event.type job.type;
    user = or_text event.user job.user;
    origin = or_text event.origin job.origin;
    actor = or_text event.actor job.actor;
    status = status_value event.status;
    progress = or_else event.progress job.progress;
    exit_status = or_else event.exit_status job.exit_status;
    meta = merge_meta job.meta event.meta;
    started_at =
        if is_waiting event.status
        then job.started_at
        else or_else job.started_at (some applied_ts);
    ended_at =
        if is_terminal event.status then or_else job.ended_at (some applied_ts) else job.ended_at;
    last_event_at = some applied_ts;
  }

  -- `apply_event` from the row that the query found: `event_ts` is what `_parse_ts` read, `now` the
  -- clock where that is `none`.
  unfoldable pub apply_row :
      DateTime → Option DateTime → Text → JobEvent N → Option (Job N) → Outcome N
  apply_row now event_ts app event none =
      applied (assign (or_now event_ts now) event (new_row app event.job_id))
  apply_row now event_ts app event (some job) = elim (guards event_ts event.status job) [
    | admit ↦ applied (assign (or_now event_ts now) event job)
    | ignore ↦ dropped
    | raise ↦ raised
  ]

  abbrev pub is_row : Text → Text → Job N → Bool
  is_row app external_job_id job =
      text_eq job.app app && text_eq job.external_job_id external_job_id

  -- `select(Job).where(…)` and `scalar_one_or_none`
  unfoldable pub find : Table N → Text → Text → Option (Job N)
  find [] app external_job_id = none
  find (job ∷ t) app external_job_id =
      if is_row app external_job_id job then some job else find t app external_job_id

  -- The commit of a row: in place where it was loaded, behind the others where it is new.
  unfoldable pub save : Table N → Job N → Table N
  save [] row = row ∷ []
  save (job ∷ t) row =
      let rest = save t row in
      if is_row row.app row.external_job_id job then row ∷ t else job ∷ rest

  abbrev pub commit : Table N → Outcome N → Table N
  commit t (applied row) = save t row
  commit t dropped = t
  commit t raised = t

-- `_parse_ts`, over the standard library's `datetime.fromisoformat`.
unfoldable pub parse_ts : (Text → Option DateTime) → Text → Option DateTime
parse_ts fromisoformat raw = elim (fromisoformat raw) [
  | none ↦ none
  | some (naive n) ↦ some (aware n)
  | some (aware n) ↦ some (aware n)
]

module _ {N : Type 0} (fromisoformat : Text → Option DateTime) where
  -- `apply_event`: the outcome, and the table after it.
  unfoldable pub apply_event : DateTime → Table N → Text → JobEvent N → Table N × Outcome N
  apply_event now t app event =
      let o = apply_row now (parse_ts fromisoformat event.ts) app event (find t app event.job_id) in
      if non_empty event.job_id then (commit t o, o) else (t, dropped)

  -- The subscribers' calls in some order, each with its clock: what one raises is logged and dropped.
  unfoldable pub run : Table N → List (DateTime × Text × JobEvent N) → Table N
  run t [] = t
  run t ((now, app, event) ∷ calls) = run (apply_event now t app event).0 calls
