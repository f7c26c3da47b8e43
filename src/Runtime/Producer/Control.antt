-- ===== src/Runtime/Producer/Control.antt =====
-- A control action on a job (`dispatch_control` of jobs_producer.py).
use funnelmanager.Prelude.{
  List, Option, Option-cases, Text, [], ap, inl, inr, none, refl, some, ℕ, ◌++◌, ◌∙◌, ◌∷◌, ◌≡◌, ◌⊎◌,
}
use funnelmanager.Prelude.Dicts
use funnelmanager.Runtime.Event.{JobEvent, JobControlAction, action_of}
use funnelmanager.Runtime.Producer.Invariant.{IsValid, publish-IsValid}
use funnelmanager.Runtime.Producer.Delivery.{queue_of-fan_out}
use funnelmanager.Runtime.Producer.{
  Applied, raises, returns, wrong_type, type_error, engine_error, queue_of, Dispatch, JobProducer,
  record_event, prune, fan_out, publish, value_error, runtime_error, outcome, dispatch_control,
}

module _ {N : Type 0} where
  Applied-cases :
      (r : Applied N)
      → (r ≡ raises)
        ⊎ ((r ≡ wrong_type) ⊎ ((r ≡ returns none) ⊎ ((e : JobEvent N) × (r ≡ returns (some e)))))
  Applied-cases raises = inl refl
  Applied-cases wrong_type = inr (inl refl)
  Applied-cases (returns none) = inr (inr (inl refl))
  Applied-cases (returns (some e)) = inr (inr (inr (e, refl)))

  -- After `publish` the event is its job's latest, and stands last in every subscriber's queue.
  pub publish_latest :
      (now : ℕ) (e : JobEvent N) (s : JobProducer N)
      → (Dicts.get (publish now e s).latest e.job_id ≡ some e)
        × ((publish now e s).subscribers ≡ fan_out e s.subscribers)
  unfolding publish record_event prune
  publish_latest now e s = (Dicts.get-put_self _ e.job_id e, refl)

  -- What control comes to. The state of the hub changes only by an event that the engine returns.
  abbrev pub Dispatched :
      Option (Text → JobControlAction → Applied N)
      → Text
      → Text
      → JobProducer N
      → JobProducer N × Dispatch N
      → Type 0
  Dispatched apply_control job_id action s d =
      (d ≡ (s, value_error)) × (action_of action ≡ none)
      ⊎ ((a : JobControlAction) × (action_of action ≡ some a)
          × ((d ≡ (s, runtime_error)) × (apply_control ≡ none)
              ⊎ ((engine : Text → JobControlAction → Applied N) × (apply_control ≡ some engine)
                  × ((d ≡ (s, engine_error)) × (engine job_id a ≡ raises)
                      ⊎ (d ≡ (s, type_error)) × (engine job_id a ≡ wrong_type)
                      ⊎ (d ≡ (s, outcome none)) × (engine job_id a ≡ returns none)
                      ⊎ ((e : JobEvent N) × (d.1 ≡ outcome (some e))
                          × (engine job_id a ≡ returns (some e))
                          × (Dicts.get (d.0).latest e.job_id ≡ some e)
                          × ((q : ℕ) (events : List (JobEvent N))
                              → queue_of q s.subscribers ≡ some events
                              → queue_of q (d.0).subscribers ≡ some (events ++ e ∷ [])))))))

  -- From a valid hub, control leaves a valid one. An unknown action, a missing callback, one that raises
  -- or returns what is neither an event nor nothing are each reported, in this order, and leave the hub
  -- as it is, as does nothing done; and an event that the engine returns is reported, is then its
  -- job's latest, and stands last in the queue of every subscriber.
  pub dispatch_control_cases :
      (now : ℕ) (apply_control : Option (Text → JobControlAction → Applied N))
      (job_id action : Text) (s : JobProducer N)
      → IsValid s
      → IsValid (dispatch_control now apply_control job_id action s).0
        × Dispatched apply_control job_id action s
            (dispatch_control now apply_control job_id action s)
  unfolding dispatch_control
  dispatch_control_cases now apply_control job_id action s v =
      elim (Option-cases (action_of action)) [
        | inl q ↦ rw (q, dispatch_control) (v, inl (refl, refl))
        | inr (a, q) ↦ elim (Option-cases apply_control) [
          | inl n ↦ rw (q, n, dispatch_control) (v, inr (a, refl, inl (refl, refl)))
          | inr (engine, n) ↦ elim (Applied-cases (engine job_id a)) [
            | inl r ↦
                rw (q, n, dispatch_control, r) (v, inr (a, refl, inr (engine, refl, inl (refl, r))))
            | inr (inl r) ↦
                rw (q, n, dispatch_control, r)
                  (v, inr (a, refl, inr (engine, refl, inr (inl (refl, r)))))
            | inr (inr (inl r)) ↦
                rw (q, n, dispatch_control, r)
                  (v, inr (a, refl, inr (engine, refl, inr (inr (inl (refl, r))))))
            | inr (inr (inr (e, r))) ↦
                let told = publish_latest now e s in
                let queued =
                  λ (k : ℕ) (events : List (JobEvent N))
                      (h : queue_of k s.subscribers ≡ some events).
                    ap (queue_of k) told.1 ∙ queue_of-fan_out k e s.subscribers events h in
                rw (q, n, dispatch_control, r)
                  (
                    publish-IsValid now e s v,
                    inr (a, refl, inr (engine, refl, inr (inr (inr (e, refl, r, told.0, queued))))),
                  )
          ]
        ]
      ]
