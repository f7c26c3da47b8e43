-- ===== src/Runtime/Producer/Tests.antt =====
-- The self-check of libs/fm_runtime/fm_runtime/jobs_producer.py, and runs at a concrete hub.
use funnelmanager.Prelude.{
  All, List, Text, [], arith, codes, if◌then◌else◌, leb, none, refl, some, text_eq, ℕ, ◌++◌, ◌+◌,
  ◌∷◌, ◌≡◌,
}
use funnelmanager.Prelude.Dicts
use funnelmanager.Runtime.Event.{
  JobEvent, JobStatus, JobControlAction, running, scheduled, completed, action_of,
}
use funnelmanager.Runtime.Producer.{
  JobProducer, new, publish, prune, record_event, fan_out, stale, pop_all, active, add_enumerated,
  snapshot, snapshot_active, register, queue_of, outcome, dispatch_control, Applied, returns,
  enumerated_or_none,
}
use funnelmanager.Runtime.Producer.Invariant.{IsValid, new-IsValid, publish-IsValid, get-prune}
use funnelmanager.Runtime.Producer.Snapshot.{
  or_else, if_active, first_active, snapshot_exact, IsActive, snapshot_active-IsActive,
}
use funnelmanager.Runtime.Producer.Delivery.{
  Op, publishes, snapshots, registers, receives, steps, published, steps_deliver, lives, replays,
}
use funnelmanager.Runtime.Producer.Control.{Dispatched, dispatch_control_cases}

abbrev event : Text → JobStatus → JobEvent ℕ
event job_id s = record {
  job_id = job_id;
  type = codes "agent_turn";
  user = codes "alice";
  origin = codes "user";
  actor = [];
  status = s;
  progress = none;
  ts = codes "t";
  exit_status = none;
  meta = [];
  raw_status = none;
}

abbrev run_1 : JobEvent ℕ
run_1 = event (codes "run-1") running

abbrev sched_1 : JobEvent ℕ
sched_1 = event (codes "sched-1") scheduled

abbrev done_1 : JobEvent ℕ
done_1 = event (codes "done-1") completed

abbrev hub : JobProducer ℕ
hub = publish 2 done_1 (publish 1 sched_1 (publish 0 run_1 (new 1000)))

-- A late subscriber is told the running and the scheduled job, and not the terminal one.
late_subscriber : (snapshot_active 3 none hub).1 ≡ run_1 ∷ sched_1 ∷ []
unfolding snapshot_active snapshot active add_enumerated publish record_event prune stale pop_all
    fan_out new Dicts.put Dicts.pop text_eq
late_subscriber = refl

hub-IsValid : IsValid (publish 1 sched_1 (publish 0 run_1 (new 1000)))
hub-IsValid = publish-IsValid 1 sched_1 _ (publish-IsValid 0 run_1 _ (new-IsValid 1000))

publish-IsValid_example : IsValid hub
publish-IsValid_example =
    publish-IsValid 2 done_1 (publish 1 sched_1 (publish 0 run_1 (new 1000))) hub-IsValid

get-prune_example :
    Dicts.get (prune 5000 (publish 1 sched_1 (publish 0 run_1 (new 1000)))).latest (codes "run-1")
    ≡ elim (Dicts.get
        (publish 1 sched_1 (publish 0 run_1 (new {N = ℕ} 1000))).terminal_at
        (codes "run-1")) [
          | none ↦ Dicts.get (publish 1 sched_1 (publish 0 run_1 (new 1000))).latest (codes "run-1")
          | some at ↦
              if leb (at + (publish 1 sched_1 (publish 0 run_1 (new {N = ℕ} 1000))).retention) 5000
              then none
              else Dicts.get (publish 1 sched_1 (publish 0 run_1 (new 1000))).latest (codes "run-1")
        ]
get-prune_example =
    get-prune 5000 (publish 1 sched_1 (publish 0 run_1 (new 1000))) (codes "run-1")
      hub-IsValid.unique_stamps

snapshot_exact_example :
    Dicts.get
      (snapshot (prune 3 (publish 1 sched_1 (publish 0 run_1 (new 1000)))).latest none)
      (codes "run-1")
    ≡ or_else
        (if_active
          (Dicts.get (publish 1 sched_1 (publish 0 run_1 (new 1000))).latest (codes "run-1")))
        (first_active (enumerated_or_none none) (codes "run-1"))
snapshot_exact_example =
    snapshot_exact 3 (publish 1 sched_1 (publish 0 run_1 (new 1000))) none (codes "run-1")
      hub-IsValid

replay-IsActive : All IsActive (snapshot_active 3 none hub).1
replay-IsActive = snapshot_active-IsActive 3 none hub

abbrev ops : List (Op ℕ)
ops =
    publishes 0 run_1
    ∷ registers 8
    ∷ receives 7
    ∷ publishes 1 done_1
    ∷ snapshots 7 2 none
    ∷ receives 8
    ∷ []

steps_deliver_example :
    ((rest : List (JobEvent ℕ)) × (queue_of 7 (steps 7 ops (register 7 (new 1000))).0.subscribers
        ≡ some rest)
      × (lives (steps 7 ops (register 7 (new 1000))).1 ++ rest ≡ [] ++ published ops))
    × All IsActive (replays (steps 7 ops (register 7 (new 1000))).1)
unfolding queue_of register new
steps_deliver_example = steps_deliver 7 ops (register 7 (new 1000)) [] (omega arith) refl

-- What the engine enumerates for a job stands in the snapshot also where the hub's latest event of the
-- job is terminal.
stale_replayed :
    (snapshot_active 3 (some (event (codes "done-1") running ∷ [])) hub).1
    ≡ run_1 ∷ sched_1 ∷ event (codes "done-1") running ∷ []
unfolding snapshot_active snapshot active add_enumerated publish record_event prune stale pop_all
    fan_out new Dicts.put Dicts.pop Dicts.set_default Dicts.has text_eq
stale_replayed = refl

abbrev engine : Text → JobControlAction → Applied ℕ
engine job_id a = returns (some run_1)

canceled_twice :
    (dispatch_control 3 (some engine) (codes "run-1") (codes "cancel") hub).1 ≡ outcome (some run_1)
unfolding dispatch_control action_of text_eq
canceled_twice = refl

dispatch_control_cases_example :
    IsValid (dispatch_control 3 (some engine) (codes "run-1") (codes "cancel") hub).0
    × Dispatched
        (some engine)
        (codes "run-1")
        (codes "cancel")
        hub
        (dispatch_control 3 (some engine) (codes "run-1") (codes "cancel") hub)
dispatch_control_cases_example =
    dispatch_control_cases 3 (some engine) (codes "run-1") (codes "cancel") hub
      publish-IsValid_example
