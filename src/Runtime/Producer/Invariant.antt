-- ===== src/Runtime/Producer/Invariant.antt =====
-- What holds of the hub between two operations (jobs_producer.py): the stamps for pruning stand
-- exactly at the jobs whose latest event is terminal.
use funnelmanager.Prelude.{
  Bool, Bool-cases, List, Option, Option-cases, Text, [], arith, false, if◌then◌else◌, inl, inr,
  leb, none, not, refl, some, text_eq, text_eq_iff, true, ℕ, ◌&&◌, ◌+◌, ◌||◌, ◌∷◌, ◌≡◌,
}
use funnelmanager.Prelude.Dicts
use funnelmanager.Prelude.Dicts.{Dict}
use funnelmanager.Runtime.Event.{JobEvent}
use funnelmanager.Runtime.Producer.{
  JobProducer, new, event_is_terminal, stale, pop_all, prune, record_event, publish,
}

abbrev pub contains : Text → List Text → Bool
contains k [] = false
contains k (j ∷ ks) = text_eq j k || contains k ks

module _ {ℓ} {V : Type ℓ} where
  pub get-pop_all :
      (d : Dict V) (ks : List Text) (k : Text)
      → Dicts.get (pop_all d ks) k ≡ (if contains k ks then none else Dicts.get d k)
  unfolding pop_all
  get-pop_all d [] k = refl
  get-pop_all d (j ∷ ks) k = ground (arith, get-pop_all (Dicts.pop d j) ks k, Dicts.get-pop d j k)

  pub has-pop_all :
      (d : Dict V) (ks : List Text) (k : Text)
      → Dicts.has (pop_all d ks) k ≡ (not (contains k ks) && Dicts.has d k)
  unfolding pop_all
  has-pop_all d [] k = refl
  has-pop_all d (j ∷ ks) k = ground (arith, has-pop_all (Dicts.pop d j) ks k, Dicts.has-pop d j k)

  pub pop_all-Unique : (d : Dict V) (ks : List Text) → Dicts.Unique d → Dicts.Unique (pop_all d ks)
  unfolding pop_all
  pop_all-Unique d [] h = h
  pop_all-Unique d (k ∷ ks) h = pop_all-Unique (Dicts.pop d k) ks (Dicts.pop-Unique d k h)

-- Only stamped jobs are stale.
pub stale-has :
    (now retention : ℕ) (d : Dict ℕ) (k : Text)
    → contains k (stale now retention d) ≡ true
    → Dicts.has d k ≡ true
unfolding stale Dicts.has
stale-has now r [] k h = cc
stale-has now r ((j, at) ∷ d) k h = ground (arith, stale-has now r d k)

-- A stamped job is stale exactly when its stamp is `retention` old.
pub stale_iff :
    (now retention : ℕ) (d : Dict ℕ) (k : Text) (at : ℕ)
    → Dicts.Unique d
    → Dicts.get d k ≡ some at
    → contains k (stale now retention d) ≡ leb (at + retention) now
unfolding stale Dicts.get
stale_iff now r [] k at h q = cc
stale_iff now r ((j, a) ∷ d) k at h q =
    ground (arith, stale_iff now r d k at h.1, stale-has now r d k, text_eq_iff j k)

module _ {N : Type 0} where
  -- Whether the latest event of a job is terminal.
  abbrev pub ends : Option (JobEvent N) → Bool
  ends none = false
  ends (some e) = event_is_terminal e

  pub record IsValid (s : JobProducer N) : Type 0 where
    pub unique_latest : Dicts.Unique s.latest
    pub unique_stamps : Dicts.Unique s.terminal_at
    pub stamped : (k : Text) → Dicts.has s.terminal_at k ≡ ends (Dicts.get s.latest k)
    pub keyed : (k : Text) (e : JobEvent N) → Dicts.get s.latest k ≡ some e → e.job_id ≡ k

  pub new-IsValid : (retention : ℕ) → IsValid (new retention)
  unfolding new Dicts.has Dicts.get
  new-IsValid retention = record {
    unique_latest = tt;
    unique_stamps = tt;
    stamped = λ k. refl;
    keyed = λ k e h. cc;
  }

  pub prune-IsValid : (now : ℕ) (s : JobProducer N) → IsValid s → IsValid (prune now s)
  unfolding prune
  prune-IsValid now s v =
      let ids = stale now s.retention s.terminal_at in
      record {
        unique_latest = pop_all-Unique s.latest ids v.unique_latest;
        unique_stamps = pop_all-Unique s.terminal_at ids v.unique_stamps;
        stamped = λ k.
            ground
              (arith, has-pop_all s.terminal_at ids k, get-pop_all s.latest ids k, v.stamped k);
        keyed = λ k e h. ground (arith, get-pop_all s.latest ids k, v.keyed k e);
      }

  record_event-IsValid :
      (now : ℕ) (e : JobEvent N) (s : JobProducer N) → IsValid s → IsValid (record_event now e s)
  unfolding record_event
  record_event-IsValid now e s v = record {
    unique_latest = Dicts.put-Unique s.latest e.job_id e v.unique_latest;
    unique_stamps = elim (Bool-cases (event_is_terminal e)) [
      | inl t ↦ rw t (Dicts.put-Unique s.terminal_at e.job_id now v.unique_stamps)
      | inr f ↦ rw f (Dicts.pop-Unique s.terminal_at e.job_id v.unique_stamps)
    ];
    stamped = λ k. ground (
      arith,
      Dicts.has-put s.terminal_at e.job_id k now,
      Dicts.has-pop s.terminal_at e.job_id k,
      Dicts.get-put s.latest e.job_id k e,
      v.stamped k,
    );
    keyed = λ k x h.
        ground (arith, Dicts.get-put s.latest e.job_id k e, v.keyed k x, text_eq_iff e.job_id k);
  }

  -- From a state that is valid, `publish` of any event at any time leaves a valid one.
  pub publish-IsValid :
      (now : ℕ) (e : JobEvent N) (s : JobProducer N) → IsValid s → IsValid (publish now e s)
  unfolding publish
  publish-IsValid now e s v =
      let w = record_event-IsValid now e (prune now s) (prune-IsValid now s v) in
      record {
        unique_latest = w.unique_latest;
        unique_stamps = w.unique_stamps;
        stamped = w.stamped;
        keyed = w.keyed;
      }

  -- Where the stamps have unique keys, pruning forgets the jobs whose stamp is `retention` old or
  -- older, and keeps the latest event of every other one, with a newer stamp or with none.
  pub get-prune :
      (now : ℕ) (s : JobProducer N) (k : Text)
      → Dicts.Unique s.terminal_at
      → Dicts.get (prune now s).latest k ≡ elim (Dicts.get s.terminal_at k) [
        | none ↦ Dicts.get s.latest k
        | some at ↦ if leb (at + s.retention) now then none else Dicts.get s.latest k
      ]
  unfolding prune
  get-prune now s k u = elim (Option-cases (Dicts.get s.terminal_at k)) [
    | inl q ↦ ground (
      arith,
      get-pop_all s.latest (stale now s.retention s.terminal_at) k,
      stale-has now s.retention s.terminal_at k,
      Dicts.has-get s.terminal_at k,
    )
    | inr (at, q) ↦ ground (
      arith,
      get-pop_all s.latest (stale now s.retention s.terminal_at) k,
      stale_iff now s.retention s.terminal_at k at u q,
    )
  ]

  -- A job whose latest event is not terminal is never pruned.
  pub get-prune_active :
      (now : ℕ) (s : JobProducer N) (k : Text) (e : JobEvent N)
      → IsValid s
      → Dicts.get s.latest k ≡ some e
      → event_is_terminal e ≡ false
      → Dicts.get (prune now s).latest k ≡ some e
  get-prune_active now s k e v q a =
      ground (arith, get-prune now s k v.unique_stamps, v.stamped k, Dicts.has-get s.terminal_at k)
