-- ===== src/Agents/Schedules/Tests.antt =====
-- Runs of agents/app/schedules.py.
use funnelmanager.Prelude.{
  List, String, [], arith, codes, false, if◌then◌else◌, length, map, none, refl, some, text_eq,
  true, ℕ, ◌∷◌, ◌≡◌,
}
use funnelmanager.Prelude.Dicts
use funnelmanager.Runtime.Json.{text}
use funnelmanager.Agents.Schedules.{
  cancel_commit, claim_due_schedule, update_where, AgentSchedule, Table, list_active_for_session,
  list_due_schedules, list_scheduled_for_session, scheduled, canceled,
}
use funnelmanager.Agents.Schedules.Claims.{Attempt, claim_first, claims_once, wins}
use funnelmanager.Agents.Schedules.Events.{enumerate_active_schedule_events}
use funnelmanager.Agents.Schedules.Steps.{Kept}
use funnelmanager.Agents.Schedules.Writes.{Write, writes, writes-Kept}

abbrev schedule : String → String → AgentSchedule ℕ
schedule id field = record {
  id = codes id;
  session_id = codes "s";
  owner = codes "al";
  origin = [];
  actor = codes "chat";
  spec = (codes field, text (codes "0 9 * * 1")) ∷ [];
  prompt = codes "report";
  status = scheduled;
  next_run_at = some 1000;
  last_run_at = none;
}

abbrev table : Table ℕ
table = (codes "a", schedule "a" "cron") ∷ []

-- Two pods race for the run at 1000, and a human cancels.
abbrev race : List Attempt
race =
    Attempt.claims 900 true (some 5000)
    ∷ Attempt.claims 1001 true (some 5000)
    ∷ Attempt.claims 1002 true (some 5000)
    ∷ Attempt.cancels
    ∷ []

schedule_found : Dicts.get table (codes "a") ≡ some (schedule "a" "cron")
unfolding Dicts.get text_eq
schedule_found = refl

claims_once_example : wins (codes "a") race table ≡ (if claim_first race (some 1000) then 1 else 0)
claims_once_example =
    claims_once (codes "a") 2000 race table (schedule "a" "cron") schedule_found refl (
      (omega arith, omega arith),
      ((omega arith, omega arith), ((omega arith, omega arith), (tt, tt))),
    )

race_won : claim_first race (some 1000) ≡ true
unfolding claim_first
race_won = refl

abbrev statements : List (Write ℕ)
statements =
    Write.creates (schedule "b" "at") 1500
    ∷ Write.claims (codes "a") 1001 true (some 5000)
    ∷ Write.pauses (codes "b")
    ∷ Write.rearms (codes "s") 7000
    ∷ Write.cancels (codes "a")
    ∷ []

abbrev table_end : Table ℕ
table_end = writes table statements

statements_end : map (λ e. e.1.status) table_end ≡ canceled ∷ scheduled ∷ []
unfolding writes text_eq
statements_end = refl

writes-Kept_example : Kept table table_end
writes-Kept_example = writes-Kept table statements

-- A claim between the read and the commit of a cancel is overwritten: the run is fired and completed, and
-- the schedule then says that it was canceled.
cancel_race :
    map
      (λ e. e.1.status)
      (cancel_commit (codes "a") (claim_due_schedule (codes "a") 1001 false none table).0).0
    ≡ canceled ∷ []
unfolding cancel_commit claim_due_schedule update_where Dicts.get Dicts.put text_eq
cancel_race = refl

due_now :
    map
      (λ r. r.id)
      (list_due_schedules 1200 (writes table (Write.creates (schedule "b" "at") 900 ∷ [])))
    ≡ codes "b" ∷ codes "a" ∷ []
unfolding list_due_schedules writes text_eq
due_now = refl

-- A paused schedule holds its place in the session, and is not shown.
held :
    length (list_active_for_session (codes "s") (writes table (Write.pauses (codes "a") ∷ []))) ≡ 1
unfolding list_active_for_session writes text_eq
held = refl

hidden : list_scheduled_for_session (codes "s") (writes table (Write.pauses (codes "a") ∷ [])) ≡ []
unfolding list_scheduled_for_session writes text_eq
hidden = refl

announced :
    map (λ e. e.job_id) (enumerate_active_schedule_events (λ t. codes "t") (codes "now") table)
    ≡ codes "sched-a" ∷ []
unfolding enumerate_active_schedule_events text_eq
announced = refl
