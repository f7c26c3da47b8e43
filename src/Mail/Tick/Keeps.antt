-- ===== src/Mail/Tick/Keeps.antt =====
-- What every pass of the loop keeps, a cycle of the pacer keeps (mail/app/campaigns.py).
use funnelmanager.Prelude.{
  All, Bool, Bool-cases, List, Text, [], false, inl, inr, refl, true, ℕ, ◌==◌, ◌∷◌, ◌≡◌, ◌⊎◌,
}
use funnelmanager.Mail.Rows.{
  completed, Campaign, CampaignRecipient, Db, Settings, edit_campaign, pending_count,
}
use funnelmanager.Mail.Quota.{is_nil}
use funnelmanager.Mail.Pacer.{budget_of, total}
use funnelmanager.Mail.Tick.{
  Cycle, Pass, Senders, Turn, break, complete, finish, next, pass, pending_batch, raised, run_cycle,
  send_loop, start_cycle,
}

abbrev pub cycle_of : Pass → Cycle
cycle_of (next s) = s
cycle_of (break s) = s
cycle_of (raised s) = s

abbrev after_pass : (Cycle → Cycle × Bool) → Pass → Cycle × Bool
after_pass k q = elim q [ next u ↦ k u | break u ↦ (u, true) | raised u ↦ (u, false) ]

-- What a cycle does to its campaign's row: the status stays or is `completed`.
abbrev pub IsCycleEdit : (Campaign → Campaign) → Type 0
IsCycleEdit g =
    (x : Campaign) → ((g x).id ≡ x.id) × (((g x).status ≡ x.status) ⊎ ((g x).status ≡ completed))

-- A predicate on the state of the loop that each pass keeps for the recipients of a kind, and that reads
-- no campaign.
module _ (settings : Settings) (lower : Text → Text) (f : Senders) (P : Cycle → Type 0)
    (R : CampaignRecipient → Type 0)
    (step : (r : CampaignRecipient) (t : Turn) (s : Cycle)
      → R r
      → P s
      → P (cycle_of (pass settings lower f r t s))) where
  after_pass_keeps :
      (k : Cycle → Cycle × Bool) (q : Pass)
      → P (cycle_of q)
      → ((u : Cycle) → P u → P (k u).0)
      → P (after_pass k q).0
  after_pass_keeps k (next u) v h = h u v
  after_pass_keeps k (break u) v h = v
  after_pass_keeps k (raised u) v h = v

  send_loop_keeps :
      (rs : List CampaignRecipient) (ts : List Turn) (s : Cycle)
      → All R rs
      → P s
      → P (send_loop settings lower f rs ts s).0
  unfolding send_loop
  send_loop_keeps [] ts s a w = w
  send_loop_keeps (r ∷ rs) [] s a w = w
  send_loop_keeps (r ∷ rs) (t ∷ ts) s a w = elim (Bool-cases (total s.budget == 0)) [
    | inl y ↦ rw y w
    | inr n ↦ rw n (
        after_pass_keeps (send_loop settings lower f rs ts) (pass settings lower f r t s)
          (step r t s a.0 w) (λ u v. send_loop_keeps rs ts u a.1 v))
  ]

  module _
      (edit : (g : Campaign → Campaign) (s : Cycle)
        → IsCycleEdit g
        → P s
        → P (record s { db = edit_campaign f.campaign.id g s.db })) where
    finish_keeps : (o : Cycle × Bool) → P o.0 → P (finish f.campaign.id o)
    unfolding finish complete
    finish_keeps (s, false) w = w
    finish_keeps (s, true) w = elim (Bool-cases (pending_count s.db f.campaign.id == 0)) [
      | inl y ↦ rw y (edit _ s (λ x. (refl, inr refl)) w)
      | inr n ↦ rw n w
    ]

    pub run_cycle_keeps :
        (ts : List Turn) (now : ℕ) (db : Db)
        → P (start_cycle now db [])
        → P (start_cycle now db (budget_of settings now db f.campaign.send_strategy f.domains))
        → All R (
            pending_batch db f.campaign.id
              (budget_of settings now db f.campaign.send_strategy f.domains))
        → P (run_cycle settings lower f ts now db)
    unfolding run_cycle
    run_cycle_keeps ts now db v w a =
        let id = f.campaign.id in
        let b = budget_of settings now db f.campaign.send_strategy f.domains in
        elim (Bool-cases (is_nil f.by_domain)) [
          | inl y ↦ rw y (edit _ (start_cycle now db []) (λ x. (refl, inl refl)) v)
          | inr n ↦ elim (Bool-cases (pending_count db id == 0)) [
            | inl y ↦ rw (n, y) (edit _ (start_cycle now db []) (λ x. (refl, inr refl)) v)
            | inr m ↦ elim (Bool-cases (is_nil b)) [
              | inl y ↦ rw (n, m, y) v
              | inr k ↦
                  rw (n, m, k)
                    (finish_keeps
                      (send_loop settings lower f (pending_batch db id b) ts (start_cycle now db b))
                      (send_loop_keeps (pending_batch db id b) ts (start_cycle now db b) a w))
            ]
          ]
        ]
