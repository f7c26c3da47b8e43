-- ===== src/Runtime/Producer.antt =====
-- libs/fm_runtime/fm_runtime/jobs_producer.py: the broadcast hub of a service that runs jobs. What a
-- coroutine does between two suspensions is one operation on the state, and time is a number of ticks.
pub mod Invariant
pub mod Snapshot
pub mod Delivery
pub mod Control
pub mod Tests
use funnelmanager.Prelude.{
  Bool, List, Option, Text, [], if◌then◌else◌, keep, leb, map, none, not, some, ℕ, ◌++◌, ◌+◌, ◌==◌,
  ◌∷◌,
}
use funnelmanager.Prelude.Dicts
use funnelmanager.Prelude.Dicts.{Dict}
use funnelmanager.Runtime.Event.{JobEvent, is_terminal, JobControlAction, action_of}

-- The state of a `JobProducer`. A subscriber is a number with the contents of its queue.
pub record JobProducer (N : Type 0) : Type 0 where
  pub retention : ℕ
  pub latest : Dict (JobEvent N)
  pub terminal_at : Dict ℕ
  pub subscribers : List (ℕ × List (JobEvent N))

module _ {N : Type 0} where
  -- `__init__`
  unfoldable pub new : ℕ → JobProducer N
  new terminal_retention_seconds = record {
    retention = terminal_retention_seconds;
    latest = [];
    terminal_at = [];
    subscribers = [];
  }

  abbrev pub event_is_terminal : JobEvent N → Bool
  event_is_terminal e = is_terminal e.status

-- The list `stale` of `_prune_locked`.
unfoldable pub stale : ℕ → ℕ → Dict ℕ → List Text
stale now retention [] = []
stale now retention ((job_id, at) ∷ d) =
    let rest = stale now retention d in if leb (at + retention) now then job_id ∷ rest else rest

unfoldable pub pop_all {ℓ} : {V : Type ℓ} → Dict V → List Text → Dict V
pop_all d [] = d
pop_all d (k ∷ ks) = pop_all (Dicts.pop d k) ks

-- What the engine's callback comes to, once it is awaited: it raises, or returns what is neither an event
-- nor `None`, or returns.
pub data Applied (N : Type 0) : Type 0 where
  raises wrong_type : Applied N
  returns : Option (JobEvent N) → Applied N

-- What `dispatch_control` raises, and what it returns.
pub data Dispatch (N : Type 0) : Type 0 where
  value_error runtime_error type_error engine_error : Dispatch N
  outcome : Option (JobEvent N) → Dispatch N

module _ {N : Type 0} where
  -- `_prune_locked`
  unfoldable pub prune : ℕ → JobProducer N → JobProducer N
  prune now s =
      let ids = stale now s.retention s.terminal_at in
      record s { latest = pop_all s.latest ids; terminal_at = pop_all s.terminal_at ids }

  unfoldable pub record_event : ℕ → JobEvent N → JobProducer N → JobProducer N
  record_event now e s = record s {
    latest = Dicts.put s.latest e.job_id e;
    terminal_at =
        if event_is_terminal e
        then Dicts.put s.terminal_at e.job_id now
        else Dicts.pop s.terminal_at e.job_id;
  }

  -- `queue.put_nowait(event)` for every subscriber
  unfoldable pub fan_out : JobEvent N → List (ℕ × List (JobEvent N)) → List (ℕ × List (JobEvent N))
  fan_out e [] = []
  fan_out e ((q, events) ∷ qs) = (q, events ++ e ∷ []) ∷ fan_out e qs

  -- `publish`, at a time of the monotonic clock
  unfoldable pub publish : ℕ → JobEvent N → JobProducer N → JobProducer N
  publish now e s =
      let s' = record_event now e (prune now s) in
      record s' { subscribers = fan_out e s'.subscribers }

  -- the comprehension over `_latest` in `_snapshot_active`
  unfoldable pub active : Dict (JobEvent N) → Dict (JobEvent N)
  active = keep (λ kv. not (event_is_terminal kv.1))

  -- the loop over what the engine enumerates
  unfoldable pub add_enumerated : Dict (JobEvent N) → List (JobEvent N) → Dict (JobEvent N)
  add_enumerated by_id [] = by_id
  add_enumerated by_id (e ∷ es) =
      add_enumerated (if event_is_terminal e then by_id else Dicts.set_default by_id e.job_id e) es

  abbrev pub enumerated_or_none : Option (List (JobEvent N)) → List (JobEvent N)
  enumerated_or_none none = []
  enumerated_or_none (some es) = es

  -- `_snapshot_active`, by job id: the first part prunes and copies under the lock, the second adds
  -- what the engine enumerates, `none` where there is no callback or it raises.
  unfoldable pub snapshot : Dict (JobEvent N) → Option (List (JobEvent N)) → Dict (JobEvent N)
  snapshot latest enumerated = add_enumerated (active latest) (enumerated_or_none enumerated)

  unfoldable pub snapshot_active :
      ℕ → Option (List (JobEvent N)) → JobProducer N → JobProducer N × List (JobEvent N)
  snapshot_active now enumerated s =
      let s' = prune now s in (s', map (λ kv. kv.1) (snapshot s'.latest enumerated))

  -- `subscribe` up to its snapshot: a new, empty queue is registered
  unfoldable pub register : ℕ → JobProducer N → JobProducer N
  register q s = record s { subscribers = (q, []) ∷ s.subscribers }

  -- `subscribe` at its end: the queue is discarded
  unfoldable pub discard : ℕ → List (ℕ × List (JobEvent N)) → List (ℕ × List (JobEvent N))
  discard q [] = []
  discard q ((r, events) ∷ qs) =
      let rest = discard q qs in if r == q then rest else (r, events) ∷ rest

  -- The contents of a registered queue.
  unfoldable pub queue_of : ℕ → List (ℕ × List (JobEvent N)) → Option (List (JobEvent N))
  queue_of q [] = none
  queue_of q ((r, events) ∷ qs) = if r == q then some events else queue_of q qs

  unfoldable pub set_queue :
      ℕ → List (JobEvent N) → List (ℕ × List (JobEvent N)) → List (ℕ × List (JobEvent N))
  set_queue q es [] = []
  set_queue q es ((r, events) ∷ qs) =
      let rest = set_queue q es qs in if r == q then (r, es) ∷ qs else (r, events) ∷ rest

  -- `queue.get()`: the first event of the queue, `none` where the coroutine waits
  unfoldable pub receive :
      ℕ → List (ℕ × List (JobEvent N)) → Option (JobEvent N × List (ℕ × List (JobEvent N)))
  receive q qs = elim (queue_of q qs) [
    | none ↦ none
    | some [] ↦ none
    | some (e ∷ es) ↦ some (e, set_queue q es qs)
  ]

  -- `dispatch_control`, with the engine's callback: the state is the one that the callback's end finds,
  -- since nothing before it reads or writes the hub.
  unfoldable pub dispatch_control :
      ℕ
      → Option (Text → JobControlAction → Applied N)
      → Text
      → Text
      → JobProducer N
      → JobProducer N × Dispatch N
  dispatch_control now apply_control job_id action s = elim (action_of action) [
    | none ↦ (s, value_error)
    | some control ↦ elim apply_control [
      | none ↦ (s, runtime_error)
      | some engine ↦ elim (engine job_id control) [
        | raises ↦ (s, engine_error)
        | wrong_type ↦ (s, type_error)
        | returns none ↦ (s, outcome none)
        | returns (some e) ↦ (publish now e s, outcome (some e))
      ]
    ]
  ]
