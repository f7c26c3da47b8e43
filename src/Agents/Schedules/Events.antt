-- ===== src/Agents/Schedules/Events.antt =====
-- agents/app/schedules.py: the job events of the schedules, and the ids of their jobs. `iso` is
-- `datetime.isoformat` and `ts` the time of an event.
use funnelmanager.Prelude.{
  List, Option, Text, [], codes, if◌then◌else◌, map, none, or_text, refl, some, starts_with, take,
  ℕ, ◌∷◌, ◌≡◌,
}
use funnelmanager.Prelude.Dicts
use funnelmanager.Prelude.Dicts.{Dict}
use funnelmanager.Runtime.Json.{Json, null, text}
use funnelmanager.Runtime.Event.{JobEvent, JobStatus}
use funnelmanager.Agents.Schedules.{
  AgentSchedule, Table, is_recurring, list_scheduled, schedule_id_from_job, schedule_job_id,
}

module _ {N : Type 0} (iso : ℕ → Text) (ts : Text) where
  abbrev iso_or_null : Option ℕ → Json N
  iso_or_null none = null
  iso_or_null (some t) = text (iso t)

  abbrev value_or_null : Option (Json N) → Json N
  value_or_null none = null
  value_or_null (some v) = v

  schedule_meta : AgentSchedule N → Dict (Json N)
  unfolding is_recurring Dicts.put Dicts.get Dicts.has
  schedule_meta row =
      let base =
        (codes "session_id", text row.session_id)
        ∷ (codes "kind", text (if is_recurring row.spec then codes "recurring" else codes "once"))
        ∷ (codes "next_run_at", iso_or_null row.next_run_at)
        ∷ (codes "last_run_at", iso_or_null row.last_run_at)
        ∷ (codes "prompt", text (take 200 row.prompt))
        ∷ [] in
      if is_recurring row.spec
      then Dicts.put base (codes "cron") (value_or_null (Dicts.get row.spec (codes "cron")))
      else if Dicts.has row.spec (codes "at")
      then Dicts.put base (codes "at") (value_or_null (Dicts.get row.spec (codes "at")))
      else base

  unfoldable pub schedule_event :
      AgentSchedule N → JobStatus → Option Text → Dict (Json N) → JobEvent N
  unfolding schedule_meta schedule_job_id Dicts.update
  schedule_event row status exit_status extra_meta = record {
    job_id = schedule_job_id row.id;
    type = codes "agent_schedule";
    user = row.owner;
    origin = or_text row.origin (codes "agent");
    actor = row.actor;
    status = status;
    progress = none;
    ts = ts;
    exit_status = exit_status;
    meta = Dicts.update (schedule_meta row) extra_meta;
    raw_status = none;
  }

  unfoldable pub enumerate_active_schedule_events : Table N → List (JobEvent N)
  unfolding schedule_event list_scheduled
  enumerate_active_schedule_events t =
      map (λ row. schedule_event row JobStatus.scheduled none []) (list_scheduled t)

-- A job id leads back to the schedule that it was made for.
pub schedule_id_from_job-schedule_job_id :
    (id : Text) → schedule_id_from_job (schedule_job_id id) ≡ some id
unfolding schedule_id_from_job schedule_job_id starts_with
schedule_id_from_job-schedule_job_id id = refl
