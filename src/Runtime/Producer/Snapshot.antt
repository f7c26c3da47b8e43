-- ===== src/Runtime/Producer/Snapshot.antt =====
-- What a new subscriber is told (`_snapshot_active` of jobs_producer.py).
use funnelmanager.Prelude.{
  All, Bool-cases, List, Option, Text, [], arith, false, if◌then◌else◌, inl, inr, map, none, not,
  some, text_eq, text_eq_iff, ℕ, ◌&&◌, ◌∙◌, ◌∷◌, ◌≡◌,
}
use funnelmanager.Prelude.Dicts
use funnelmanager.Prelude.Dicts.{Dict}
use funnelmanager.Runtime.Event.{JobEvent}
use funnelmanager.Runtime.Producer.{
  JobProducer, event_is_terminal, prune, active, add_enumerated, enumerated_or_none, snapshot,
  snapshot_active,
}
use funnelmanager.Runtime.Producer.Invariant.{IsValid, prune-IsValid, get-prune}

module _ {N : Type 0} where
  -- A job's latest event, if it is not terminal.
  abbrev pub if_active : Option (JobEvent N) → Option (JobEvent N)
  if_active none = none
  if_active (some e) = if event_is_terminal e then none else some e

  -- The first event that an engine enumerates for a job and that is not terminal.
  pub first_active : List (JobEvent N) → Text → Option (JobEvent N)
  first_active [] k = none
  first_active (e ∷ es) k =
      let rest = first_active es k in
      if not (event_is_terminal e) && text_eq e.job_id k then some e else rest

  abbrev pub or_else : Option (JobEvent N) → Option (JobEvent N) → Option (JobEvent N)
  or_else (some e) o = some e
  or_else none o = o

  get-add_enumerated :
      (d : Dict (JobEvent N)) (es : List (JobEvent N)) (k : Text)
      → Dicts.get (add_enumerated d es) k ≡ or_else (Dicts.get d k) (first_active es k)
  unfolding add_enumerated first_active Dicts.set_default
  get-add_enumerated d [] k = ground arith
  get-add_enumerated d (e ∷ es) k = ground (
    arith,
    get-add_enumerated d es k,
    get-add_enumerated (Dicts.put d e.job_id e) es k,
    Dicts.get-put d e.job_id k e,
    Dicts.has-get d e.job_id,
    text_eq_iff e.job_id k,
  )

  get-active :
      (d : Dict (JobEvent N)) (k : Text)
      → Dicts.Unique d
      → Dicts.get (active d) k ≡ if_active (Dicts.get d k)
  unfolding active
  get-active d k u = Dicts.get-keep (λ e. not (event_is_terminal e)) d k u ∙ ground arith

  if_active-prune :
      (now : ℕ) (s : JobProducer N) (k : Text)
      → IsValid s
      → if_active (Dicts.get (prune now s).latest k) ≡ if_active (Dicts.get s.latest k)
  if_active-prune now s k v =
      ground (arith, get-prune now s k v.unique_stamps, v.stamped k, Dicts.has-get s.terminal_at k)

  -- From a valid state, the snapshot holds, for each job id, the latest event that the hub has seen, if
  -- that is not terminal; else, also where it is terminal, the first one that is not terminal among what
  -- the engine enumerates; else nothing.
  pub snapshot_exact :
      (now : ℕ) (s : JobProducer N) (enumerated : Option (List (JobEvent N))) (k : Text)
      → IsValid s
      → Dicts.get (snapshot (prune now s).latest enumerated) k
        ≡ or_else
            (if_active (Dicts.get s.latest k))
            (first_active (enumerated_or_none enumerated) k)
  unfolding snapshot
  snapshot_exact now s enumerated k v = rw (
    get-add_enumerated (active (prune now s).latest) (enumerated_or_none enumerated) k,
    get-active (prune now s).latest k (prune-IsValid now s v).unique_latest,
    if_active-prune now s k v,
  )

  abbrev pub IsActive : JobEvent N → Type 0
  IsActive e = event_is_terminal e ≡ false

  abbrev AllActive : Dict (JobEvent N) → Type 0
  AllActive [] = Unit
  AllActive ((k, e) ∷ d) = IsActive e × AllActive d

  active-AllActive : (d : Dict (JobEvent N)) → AllActive (active d)
  unfolding active
  active-AllActive [] = tt
  active-AllActive ((k, e) ∷ d) =
      let rest = active-AllActive d in
      elim (Bool-cases (event_is_terminal e)) [
        | inl t ↦ rw (t, AllActive) rest
        | inr f ↦ rw (f, AllActive) (f, rest)
      ]

  put-AllActive :
      (d : Dict (JobEvent N)) (k : Text) (e : JobEvent N)
      → IsActive e
      → AllActive d
      → AllActive (Dicts.put d k e)
  unfolding Dicts.put
  put-AllActive [] k e a h = (a, tt)
  put-AllActive ((j, x) ∷ d) k e a h =
      let rest = put-AllActive d k e a h.1 in
      elim (Bool-cases (text_eq j k)) [ inl t ↦ rw t (a, h.1) | inr f ↦ rw f (h.0, rest) ]

  set_default-AllActive :
      (d : Dict (JobEvent N)) (k : Text) (e : JobEvent N)
      → IsActive e
      → AllActive d
      → AllActive (Dicts.set_default d k e)
  unfolding Dicts.set_default
  set_default-AllActive d k e a h = elim (Bool-cases (Dicts.has d k)) [
    | inl t ↦ rw t h
    | inr f ↦ rw f (put-AllActive d k e a h)
  ]

  add_enumerated-AllActive :
      (d : Dict (JobEvent N)) (es : List (JobEvent N))
      → AllActive d
      → AllActive (add_enumerated d es)
  unfolding add_enumerated
  add_enumerated-AllActive d [] h = h
  add_enumerated-AllActive d (e ∷ es) h = elim (Bool-cases (event_is_terminal e)) [
    | inl t ↦ rw t (add_enumerated-AllActive d es h)
    | inr f ↦ rw f (
        add_enumerated-AllActive (Dicts.set_default d e.job_id e) es
          (set_default-AllActive d e.job_id e f h))
  ]

  values-IsActive : (d : Dict (JobEvent N)) → AllActive d → All IsActive (map (λ kv. kv.1) d)
  values-IsActive [] h = tt
  values-IsActive ((k, e) ∷ d) h = (h.0, values-IsActive d h.1)

  -- No event of the replay to a new subscriber is terminal, whatever the engine enumerates.
  pub snapshot_active-IsActive :
      (now : ℕ) (enumerated : Option (List (JobEvent N))) (s : JobProducer N)
      → All IsActive (snapshot_active now enumerated s).1
  unfolding snapshot_active snapshot
  snapshot_active-IsActive now enumerated s = values-IsActive _ (
      add_enumerated-AllActive (active (prune now s).latest) (enumerated_or_none enumerated)
        (active-AllActive (prune now s).latest))
