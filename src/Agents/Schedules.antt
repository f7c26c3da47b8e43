-- ===== src/Agents/Schedules.antt =====
-- agents/app/schedules.py: the table of schedules, from which several pods of the service fire. A function
-- here is one statement or one transaction on the table. Times are in microseconds.
pub mod Cancels
pub mod Claims
pub mod Steps
pub mod Writes
pub mod Events
pub mod Tests
use funnelmanager.Prelude.{
  Bool, List, Option, Result, Text, [], codes, err, false, if◌then◌else◌, leb, length, none, ok,
  some, starts_with, suc, text_eq, true, zero, ℕ, ◌&&◌, ◌++◌, ◌>>=◌, ◌∷◌,
}
use funnelmanager.Prelude.Dicts
use funnelmanager.Prelude.Dicts.{Dict}
use funnelmanager.Runtime.Json.{Json, text}
use funnelmanager.Agents.Cron.{next_from, parse_cron}
use funnelmanager.Agents.Cron.Field.{CronError}

-- The status of a schedule, with the words of agents/app/models.py.
pub data ScheduleStatus : Type 0 where
  scheduled canceled completed paused : ScheduleStatus

pub record AgentSchedule (N : Type 0) : Type 0 where
  pub id : Text
  pub session_id : Text
  pub owner : Text
  pub origin : Text
  pub actor : Text
  pub spec : Dict (Json N)
  pub prompt : Text
  pub status : ScheduleStatus
  pub next_run_at : Option ℕ
  pub last_run_at : Option ℕ

-- What `cron_next(spec["cron"], now)` raises.
pub data NextError : Type 0 where
  no_text : NextError
  bad_cron : CronError → NextError

-- The table by its primary key, in the order of creation.
abbrev pub Table : Type 0 → Type 0
Table N = Dict (AgentSchedule N)

abbrev pub schedule_job_prefix : Text
schedule_job_prefix = codes "sched-"

unfoldable pub schedule_job_id : Text → Text
schedule_job_id schedule_id = schedule_job_prefix ++ schedule_id

-- `s[n:]`
abbrev pub drop : ℕ → Text → Text
drop zero s = s
drop (suc n) [] = []
drop (suc n) (c ∷ s) = drop n s

unfoldable pub schedule_id_from_job : Text → Option Text
unfolding starts_with
schedule_id_from_job job_id =
    if starts_with job_id schedule_job_prefix
    then some (drop (length schedule_job_prefix) job_id)
    else none

abbrev pub is_scheduled : ScheduleStatus → Bool
is_scheduled scheduled = true
is_scheduled _ = false

abbrev pub is_active : ScheduleStatus → Bool
is_active scheduled = true
is_active paused = true
is_active _ = false

-- `next_run_at IS NOT NULL AND next_run_at <= now`
abbrev pub has_come : Option ℕ → ℕ → Bool
has_come none now = false
has_come (some t) now = leb t now

-- `a <= b` of the order by `next_run_at`, where NULL is last
abbrev pub is_before : Option ℕ → Option ℕ → Bool
is_before none none = true
is_before none (some b) = false
is_before (some a) none = true
is_before (some a) (some b) = leb a b

module _ {N : Type 0} where
  unfoldable pub is_recurring : Dict (Json N) → Bool
  unfolding Dicts.has
  is_recurring spec = Dicts.has spec (codes "cron")

  abbrev pub is_due : ℕ → AgentSchedule N → Bool
  is_due now row = is_scheduled row.status && has_come row.next_run_at now

  -- The rows of a table, and those that pass a test.
  unfoldable pub rows_of : (AgentSchedule N → Bool) → Table N → List (AgentSchedule N)
  rows_of p [] = []
  rows_of p ((k, row) ∷ t) = let rest = rows_of p t in if p row then row ∷ rest else rest

  unfoldable pub insert_row : AgentSchedule N → List (AgentSchedule N) → List (AgentSchedule N)
  insert_row row [] = row ∷ []
  insert_row row (r ∷ rs) =
      let rest = insert_row row rs in
      if is_before row.next_run_at r.next_run_at then row ∷ r ∷ rs else r ∷ rest

  -- `ORDER BY next_run_at`
  unfoldable pub by_next_run : List (AgentSchedule N) → List (AgentSchedule N)
  unfolding insert_row
  by_next_run [] = []
  by_next_run (r ∷ rs) = insert_row r (by_next_run rs)

  unfoldable pub list_due_schedules : ℕ → Table N → List (AgentSchedule N)
  unfolding rows_of by_next_run
  list_due_schedules now t = by_next_run (rows_of (is_due now) t)

  unfoldable pub list_scheduled : Table N → List (AgentSchedule N)
  unfolding rows_of by_next_run
  list_scheduled t = by_next_run (rows_of (λ r. is_scheduled r.status) t)

  unfoldable pub list_scheduled_for_session : Text → Table N → List (AgentSchedule N)
  unfolding rows_of
  list_scheduled_for_session session_id t =
      rows_of (λ r. text_eq r.session_id session_id && is_scheduled r.status) t

  unfoldable pub list_active_for_session : Text → Table N → List (AgentSchedule N)
  unfolding rows_of
  list_active_for_session session_id t =
      rows_of (λ r. text_eq r.session_id session_id && is_active r.status) t

  abbrev pub new_schedule : AgentSchedule N → ℕ → AgentSchedule N
  new_schedule row next_run_at = record row {
    status = scheduled;
    next_run_at = some next_run_at;
    last_run_at = none;
  }

  -- `create_schedule`, with an id: the insert raises where that is taken, and leaves the table.
  unfoldable pub create_schedule : AgentSchedule N → ℕ → Table N → Table N
  unfolding Dicts.put Dicts.has
  create_schedule row next_run_at t =
      if Dicts.has t row.id then t else Dicts.put t row.id (new_schedule row next_run_at)

  -- `get_schedule`
  abbrev pub get_schedule : Table N → Text → Option (AgentSchedule N)
  get_schedule t schedule_id = Dicts.get t schedule_id

  -- What a claim leaves of a row.
  abbrev pub claimed : ℕ → Bool → Option ℕ → AgentSchedule N → AgentSchedule N
  claimed now recurring (some t) row =
      if recurring
      then record row { status = scheduled; last_run_at = some now; next_run_at = some t }
      else record row { status = completed; last_run_at = some now; next_run_at = none }
  claimed now recurring none row = record row {
    status = completed;
    last_run_at = some now;
    next_run_at = none;
  }

  -- A guarded UPDATE: the row where the guard holds, and the table after it.
  unfoldable pub update_where :
      (AgentSchedule N → Bool)
      → (AgentSchedule N → AgentSchedule N)
      → Text
      → Table N
      → Table N × Option (AgentSchedule N)
  unfolding Dicts.get Dicts.put
  update_where guard f schedule_id t = elim (Dicts.get t schedule_id) [
    | none ↦ (t, none)
    | some row ↦ if guard row then (Dicts.put t schedule_id (f row), some (f row)) else (t, none)
  ]

  -- The row that a claim returns is read again after the commit, here from the table it leaves.
  unfoldable pub claim_due_schedule :
      Text → ℕ → Bool → Option ℕ → Table N → Table N × Option (AgentSchedule N)
  unfolding update_where
  claim_due_schedule schedule_id now recurring next_run_at t =
      update_where (is_due now) (claimed now recurring next_run_at) schedule_id t

  abbrev pub stopped : ScheduleStatus → AgentSchedule N → AgentSchedule N
  stopped status row = record row { status = status; next_run_at = none }

  unfoldable pub pause_for_reauth : Text → Table N → Table N × Option (AgentSchedule N)
  unfolding update_where
  pause_for_reauth schedule_id t =
      update_where (λ r. is_scheduled r.status) (stopped paused) schedule_id t

  -- What `cancel_schedule` commits: an UPDATE of the row whatever its status is then.
  unfoldable pub cancel_commit : Text → Table N → Table N × Option (AgentSchedule N)
  unfolding update_where
  cancel_commit schedule_id t = update_where (λ r. true) (stopped canceled) schedule_id t

  -- `cancel_schedule`, where no other statement stands between its read and its commit
  unfoldable pub cancel_schedule : Text → Table N → Table N × Option (AgentSchedule N)
  unfolding cancel_commit Dicts.get
  cancel_schedule schedule_id t = elim (Dicts.get t schedule_id) [
    | none ↦ (t, none)
    | some row ↦ if is_scheduled row.status then cancel_commit schedule_id t else (t, none)
  ]

  -- `cron_next(spec["cron"], now)`, where what is no text, or does not parse, raises
  unfoldable pub next_of_spec : Dict (Json N) → ℕ → Result NextError (Option ℕ)
  unfolding Dicts.get parse_cron next_from
  next_of_spec spec now = elim (Dicts.get spec (codes "cron")) [
    | some (text expr) ↦ elim (parse_cron expr) [
      | err e ↦ err (bad_cron e)
      | ok cron ↦ ok (next_from cron now)
    ]
    | _ ↦ err no_text
  ]

  -- One paused row when its owner returns; a recurring one has its next run computed.
  abbrev pub rearmed_at : AgentSchedule N → Option ℕ → AgentSchedule N
  rearmed_at row none = stopped completed row
  rearmed_at row (some t) = record row { status = scheduled; next_run_at = some t }

  unfoldable pub rearmed : ℕ → AgentSchedule N → Result NextError (AgentSchedule N)
  unfolding is_recurring next_of_spec
  rearmed now row =
      if is_recurring row.spec
      then next_of_spec row.spec now >>= (λ next. ok (rearmed_at row next))
      else ok (rearmed_at row (some now))

  abbrev pub is_paused_of : Text → AgentSchedule N → Bool
  is_paused_of session_id row =
      text_eq row.session_id session_id && elim row.status [ paused ↦ true | _ ↦ false ]

  unfoldable pub rearm_row : Text → ℕ → AgentSchedule N → Result NextError (AgentSchedule N)
  unfolding rearmed
  rearm_row session_id now row = if is_paused_of session_id row then rearmed now row else ok row

  -- `rearm_paused`, where no other statement stands between its read and its commit: the table, where
  -- nothing raises; the rows that it returns are those of them that are
  -- scheduled again
  unfoldable pub rearm_paused : Text → ℕ → Table N → Result NextError (Table N)
  unfolding rearm_row
  rearm_paused session_id now [] = ok []
  rearm_paused session_id now ((k, row) ∷ t) = do
    row' ← rearm_row session_id now row
    t' ← rearm_paused session_id now t
    ok ((k, row') ∷ t')
