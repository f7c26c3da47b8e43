-- ===== src/Runtime/Producer/Delivery.antt =====
-- What a subscriber yields (`publish` and `subscribe` of jobs_producer.py), under any interleaving of the
-- coroutines that share the hub: the events of its queue, and apart from them those of its snapshot.
use funnelmanager.Prelude.{
  All, All-append, Bool-cases, List, Option, [], ap, arith, if◌then◌else◌, inl, inr, map, none,
  refl, some, sym, true, ℕ, ◌++◌, ◌==◌, ◌∙◌, ◌∷◌, ◌≡◌, ◌≢◌,
}
use mathlib.Core.List.{append-nil, append_assoc}
use funnelmanager.Runtime.Event.{JobEvent}
use funnelmanager.Runtime.Producer.Snapshot.{IsActive, snapshot_active-IsActive}
use funnelmanager.Runtime.Producer.{
  set_queue, queue_of, JobProducer, publish, prune, record_event, fan_out, snapshot_active,
  register, discard, receive,
}

-- What a coroutine does to the hub between two suspensions.
pub data Op (N : Type 0) : Type 0 where
  publishes : ℕ → JobEvent N → Op N
  snapshots : ℕ → ℕ → Option (List (JobEvent N)) → Op N
  registers : ℕ → Op N
  discards : ℕ → Op N
  receives : ℕ → Op N

-- What a subscriber yields: an event of its snapshot, or one of its queue.
pub data Yield (N : Type 0) : Type 0 where
  replayed live : JobEvent N → Yield N

abbrev pub Queues : Type 0 → Type 0
Queues N = List (ℕ × List (JobEvent N))

module _ {N : Type 0} where
  -- The events that come from the queue, and those that come from the snapshot, in order.
  abbrev pub lives : List (Yield N) → List (JobEvent N)
  lives [] = []
  lives (replayed e ∷ ys) = lives ys
  lives (live e ∷ ys) = e ∷ lives ys

  abbrev pub replays : List (Yield N) → List (JobEvent N)
  replays [] = []
  replays (replayed e ∷ ys) = e ∷ replays ys
  replays (live e ∷ ys) = replays ys

  abbrev received :
      JobProducer N → Option (JobEvent N × Queues N) → JobProducer N × List (JobEvent N)
  received s none = (s, [])
  received s (some (e, qs)) = (record s { subscribers = qs }, e ∷ [])

  -- One operation, with what the subscriber `q` yields by it.
  pub step : ℕ → Op N → JobProducer N → JobProducer N × List (Yield N)
  step q (publishes now e) s = (publish now e s, [])
  step q (snapshots r now en) s =
      let (s', es) = snapshot_active now en s in (s', if r == q then map replayed es else [])
  step q (registers r) s = (register r s, [])
  step q (discards r) s = (record s { subscribers = discard r s.subscribers }, [])
  step q (receives r) s =
      let (s', es) = received s (receive r s.subscribers) in
      (s', if r == q then map live es else [])

  pub steps : ℕ → List (Op N) → JobProducer N → JobProducer N × List (Yield N)
  steps q [] s = (s, [])
  steps q (op ∷ ops) s =
      let (s', es) = step q op s in let (s'', fs) = steps q ops s' in (s'', es ++ fs)

  abbrev publication : Op N → List (JobEvent N)
  publication (publishes now e) = e ∷ []
  publication op = []

  -- The events that the operations publish, in order.
  pub published : List (Op N) → List (JobEvent N)
  published [] = []
  published (op ∷ ops) = publication op ++ published ops

  -- The other coroutines have queues of their own: the operation does not register or discard `q`.
  abbrev pub Spares : ℕ → Op N → Type 0
  Spares q (registers r) = r ≢ q
  Spares q (discards r) = r ≢ q
  Spares q op = Unit

  lives-append : (xs ys : List (Yield N)) → lives (xs ++ ys) ≡ lives xs ++ lives ys
  lives-append [] ys = refl
  lives-append (replayed e ∷ xs) ys = lives-append xs ys
  lives-append (live e ∷ xs) ys = ap (◌∷◌ e) (lives-append xs ys)

  replays-append : (xs ys : List (Yield N)) → replays (xs ++ ys) ≡ replays xs ++ replays ys
  replays-append [] ys = refl
  replays-append (replayed e ∷ xs) ys = ap (◌∷◌ e) (replays-append xs ys)
  replays-append (live e ∷ xs) ys = replays-append xs ys

  lives-live : (es : List (JobEvent N)) → lives (map live es) ≡ es
  lives-live [] = refl
  lives-live (e ∷ es) = ap (◌∷◌ e) (lives-live es)

  lives-replayed : (es : List (JobEvent N)) → lives (map replayed es) ≡ []
  lives-replayed [] = refl
  lives-replayed (e ∷ es) = lives-replayed es

  replays-live : (es : List (JobEvent N)) → replays (map live es) ≡ []
  replays-live [] = refl
  replays-live (e ∷ es) = replays-live es

  replays-replayed : (es : List (JobEvent N)) → replays (map replayed es) ≡ es
  replays-replayed [] = refl
  replays-replayed (e ∷ es) = ap (◌∷◌ e) (replays-replayed es)

  pub queue_of-fan_out :
      (q : ℕ) (e : JobEvent N) (qs : Queues N) (events : List (JobEvent N))
      → queue_of q qs ≡ some events
      → queue_of q (fan_out e qs) ≡ some (events ++ e ∷ [])
  unfolding queue_of fan_out
  queue_of-fan_out q e [] events h = cc
  queue_of-fan_out q e ((r, es) ∷ qs) events h = ground (arith, queue_of-fan_out q e qs events)

  queue_of-discard : (q r : ℕ) (qs : Queues N) → r ≢ q → queue_of q (discard r qs) ≡ queue_of q qs
  unfolding queue_of discard
  queue_of-discard q r [] h = refl
  queue_of-discard q r ((p, es) ∷ qs) h = ground (arith, queue_of-discard q r qs h)

  queue_of-register :
      (q r : ℕ) (s : JobProducer N)
      → r ≢ q
      → queue_of q (register r s).subscribers ≡ queue_of q s.subscribers
  unfolding queue_of register
  queue_of-register q r s n = ground arith

  queue_of-set_queue_self :
      (q : ℕ) (es events : List (JobEvent N)) (qs : Queues N)
      → queue_of q qs ≡ some events
      → queue_of q (set_queue q es qs) ≡ some es
  unfolding queue_of set_queue
  queue_of-set_queue_self q es events [] h = cc
  queue_of-set_queue_self q es events ((r, fs) ∷ qs) h =
      ground (arith, queue_of-set_queue_self q es events qs)

  queue_of-set_queue_ne :
      (q r : ℕ) (es : List (JobEvent N)) (qs : Queues N)
      → r ≢ q
      → queue_of q (set_queue r es qs) ≡ queue_of q qs
  unfolding queue_of set_queue
  queue_of-set_queue_ne q r es [] h = refl
  queue_of-set_queue_ne q r es ((p, fs) ∷ qs) h = ground (arith, queue_of-set_queue_ne q r es qs h)

  -- What a reception leaves of the queue `q`: the subscriber's own takes the first event.
  take_own :
      (q : ℕ) (s : JobProducer N) (pending : List (JobEvent N))
      → queue_of q s.subscribers ≡ some pending
      → (rest : List (JobEvent N)) × (queue_of q
            (received s (receive q s.subscribers)).0.subscribers
          ≡ some rest)
        × ((received s (receive q s.subscribers)).1 ++ rest ≡ pending)
  unfolding receive
  take_own q s [] h = ([], rw (h, receive) h, rw (h, receive))
  take_own q s (e ∷ es) h =
      (es, rw (h, receive) (queue_of-set_queue_self q es (e ∷ es) s.subscribers h), rw (h, receive))

  leave_other :
      (q r : ℕ) (s : JobProducer N) (o : Option (List (JobEvent N)))
      → queue_of r s.subscribers ≡ o
      → r ≢ q
      → queue_of q (received s (receive r s.subscribers)).0.subscribers ≡ queue_of q s.subscribers
  unfolding receive
  leave_other q r s none h n = rw (h, receive)
  leave_other q r s (some []) h n = rw (h, receive)
  leave_other q r s (some (e ∷ es)) h n =
      rw (h, receive) (queue_of-set_queue_ne q r es s.subscribers n)

  -- One operation: what the subscriber gets and what its queue holds then.
  step_delivers :
      (q : ℕ) (op : Op N) (s : JobProducer N) (pending : List (JobEvent N))
      → Spares q op
      → queue_of q s.subscribers ≡ some pending
      → (rest : List (JobEvent N)) × (queue_of q (step q op s).0.subscribers ≡ some rest)
        × (lives (step q op s).1 ++ rest ≡ pending ++ publication op)
  unfolding step publish record_event prune snapshot_active register
  step_delivers q (publishes now e) s pending p h =
      (pending ++ e ∷ [], queue_of-fan_out q e s.subscribers pending h, refl)
  step_delivers q (snapshots r now en) s pending p h = elim (Bool-cases (r == q)) [
    | inl same ↦ (
      pending,
      h,
      rw (same, lives-replayed (snapshot_active now en s).1) (sym (append-nil pending)),
    )
    | inr other ↦ (pending, h, rw other (sym (append-nil pending)))
  ]
  step_delivers q (registers r) s pending p h =
      (pending, queue_of-register q r s p ∙ h, sym (append-nil _))
  step_delivers q (discards r) s pending p h =
      (pending, queue_of-discard q r s.subscribers p ∙ h, sym (append-nil _))
  step_delivers q (receives r) s pending p h = elim (Bool-cases (r == q)) [
    | inl same ↦
        let (rest, f, g) = take_own q s pending h in
        let e : r ≡ q = ground arith in
        let reflexive : (q == q) ≡ true = ground arith in
        rw e (
          rest,
          f,
          rw (reflexive, lives-live (received s (receive q s.subscribers)).1)
              (g ∙ sym (append-nil pending)),
        )
    | inr other ↦ (
      pending,
      leave_other q r s (queue_of r s.subscribers) refl (ground arith) ∙ h,
      rw other (sym (append-nil pending)),
    )
  ]

  steps_lives :
      (q : ℕ) (ops : List (Op N)) (s : JobProducer N) (pending : List (JobEvent N))
      → All (Spares q) ops
      → queue_of q s.subscribers ≡ some pending
      → (rest : List (JobEvent N)) × (queue_of q (steps q ops s).0.subscribers ≡ some rest)
        × (lives (steps q ops s).1 ++ rest ≡ pending ++ published ops)
  unfolding steps published
  steps_lives q [] s pending p h = (pending, h, sym (append-nil _))
  steps_lives q (op ∷ ops) s pending p h =
      let (mid, f, g) = step_delivers q op s pending p.0 h in
      let (rest, f', g') = steps_lives q ops (step q op s).0 mid p.1 f in
      let xs = lives (step q op s).1 in
      let ys = lives (steps q ops (step q op s).0).1 in
      (
        rest,
        f',
        ap (λ l. l ++ rest) (lives-append (step q op s).1 (steps q ops (step q op s).0).1)
            ∙ append_assoc xs ys rest
            ∙ ap (◌++◌ xs) g'
            ∙ sym (append_assoc xs mid (published ops))
            ∙ ap (λ l. l ++ published ops) g
            ∙ append_assoc pending (publication op) (published ops),
      )

  -- What one operation replays to a subscriber is not terminal.
  step-IsActive : (q : ℕ) (op : Op N) (s : JobProducer N) → All IsActive (replays (step q op s).1)
  unfolding step
  step-IsActive q (publishes now e) s = tt
  step-IsActive q (snapshots r now en) s = elim (Bool-cases (r == q)) [
    | inl same ↦
        rw (same, replays-replayed (snapshot_active now en s).1) (snapshot_active-IsActive now en s)
    | inr other ↦ rw other tt
  ]
  step-IsActive q (registers r) s = tt
  step-IsActive q (discards r) s = tt
  step-IsActive q (receives r) s = elim (Bool-cases (r == q)) [
    | inl same ↦ rw (same, replays-live (received s (receive r s.subscribers)).1) tt
    | inr other ↦ rw other tt
  ]

  steps-IsActive :
      (q : ℕ) (ops : List (Op N)) (s : JobProducer N) → All IsActive (replays (steps q ops s).1)
  unfolding steps
  steps-IsActive q [] s = tt
  steps-IsActive q (op ∷ ops) s =
      rw (replays-append (step q op s).1 (steps q ops (step q op s).0).1) (
        All-append IsActive (replays (step q op s).1) (replays (steps q ops (step q op s).0).1)
          (step-IsActive q op s) (steps-IsActive q ops (step q op s).0))

  -- After any operations that neither register nor discard a subscriber whose queue is there, what it
  -- has yielded from its queue and what its queue holds is what its queue held before and then every
  -- event published since, in the order of their publication; and what it has yielded from a snapshot,
  -- where an event of its queue may stand too, is not terminal.
  pub steps_deliver :
      (q : ℕ) (ops : List (Op N)) (s : JobProducer N) (pending : List (JobEvent N))
      → All (Spares q) ops
      → queue_of q s.subscribers ≡ some pending
      → ((rest : List (JobEvent N)) × (queue_of q (steps q ops s).0.subscribers ≡ some rest)
          × (lives (steps q ops s).1 ++ rest ≡ pending ++ published ops))
        × All IsActive (replays (steps q ops s).1)
  steps_deliver q ops s pending p h = (steps_lives q ops s pending p h, steps-IsActive q ops s)
