-- ===== src/Jobs/Store/Replay.antt =====
-- A redelivered event (`apply_event` of jobs/app/store.py): a producer's stream replays a job's history.
use funnelmanager.Prelude.{
  Option, Text, [], arith, if◌then◌else◌, none, or_text, refl, some, ◌∙◌, ◌∷◌, ◌≡◌,
}
use funnelmanager.Prelude.Dicts
use funnelmanager.Runtime.Event.{JobEvent, is_terminal}
use funnelmanager.Calendar.{DateTime}
use funnelmanager.Jobs.Store.{
  Json, Job, admit, applied, or_else, is_waiting, order_guard, guards, some_meta, merge_meta,
  assign, apply_row,
}
use funnelmanager.Jobs.Store.Row.{guards_worded}

or_text_twice : (a b : Text) → or_text a (or_text a b) ≡ or_text a b
or_text_twice [] b = refl
or_text_twice (c ∷ a) b = refl

or_else_twice {ℓ} : {A : Type ℓ} (a b : Option A) → or_else a (or_else a b) ≡ or_else a b
or_else_twice none b = refl
or_else_twice (some a) b = refl

module _ {N : Type 0} where
  -- Two rows that agree in every column, where `meta` has the same value under every key.
  pub record SameRow (a b : Job N) : Type 0 where
    pub columns : record a { meta = b.meta } ≡ b
    pub meta : (k : Text) → Dicts.get (some_meta a.meta) k ≡ Dicts.get (some_meta b.meta) k

  meta_twice :
      (m : Option (Dicts.Dict (Json N))) (d : Dicts.Dict (Json N)) (k : Text)
      → Dicts.get (some_meta (merge_meta (merge_meta m d) d)) k
        ≡ Dicts.get (some_meta (merge_meta m d)) k
  unfolding merge_meta
  meta_twice m [] k = refl
  meta_twice m (kv ∷ d) k = Dicts.get-update_twice (some_meta m) (kv ∷ d) k

  module _ (at : DateTime) (e : JobEvent N) (job : Job N) where
    start_twice :
        (if is_waiting e.status
          then (assign at e job).started_at
          else or_else (assign at e job).started_at (some at))
        ≡ (assign at e job).started_at
    unfolding assign
    start_twice = ground arith

    stop_twice :
        (if is_terminal e.status
          then or_else (assign at e job).ended_at (some at)
          else (assign at e job).ended_at)
        ≡ (assign at e job).ended_at
    unfolding assign
    stop_twice = ground arith

    assign_twice : SameRow (assign at e (assign at e job)) (assign at e job)
    unfolding assign
    assign_twice = record {
      columns = rw (
        or_text_twice e.type job.type,
        or_text_twice e.user job.user,
        or_text_twice e.origin job.origin,
        or_text_twice e.actor job.actor,
        or_else_twice e.progress job.progress,
        or_else_twice e.exit_status job.exit_status,
        start_twice,
        stop_twice,
      );
      meta = λ k. meta_twice job.meta e.meta k;
    }

    again_admitted : guards (some at) e.status (assign at e job) ≡ admit
    unfolding order_guard assign
    again_admitted = guards_worded (some at) e.status e.status (assign at e job) refl ∙ ground arith

    -- An event that was applied at its own time is applied again without a change.
    pub replay_same :
        (now : DateTime) (app : Text)
        → (row : Job N) × (apply_row now (some at) app e (some (assign at e job)) ≡ applied row)
          × SameRow row (assign at e job)
    unfolding apply_row
    replay_same now app =
        (assign at e (assign at e job), rw (again_admitted, apply_row), assign_twice)
