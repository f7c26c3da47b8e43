-- ===== src/Mail/Cap/Cycles.antt =====
-- One cycle of the pacer (mail/app/campaigns.py) keeps every domain within a cap on every day, also where it
-- runs past midnight or stops half way.
use funnelmanager.Prelude.{
  All, All-In, Bool-cases, List, Option, Text, [], arith, inl, inr, non_empty, refl, ℕ, ◌+◌, ◌/◌,
  ◌≡◌, ◌≤◌,
}
use funnelmanager.Mail.Rows.{CampaignRecipient, Db, Settings}
use funnelmanager.Mail.Suppression.{day_us, norm_email, suppression_reason}
use funnelmanager.Mail.Quota.{get_global_per_domain_cap}
use funnelmanager.Mail.Pacer.{budget_of}
use funnelmanager.Mail.Tick.{Cycle, Senders, Turn, pass, run_cycle}
use funnelmanager.Mail.Tick.Keeps.{cycle_of, run_cycle_keeps}
use funnelmanager.Mail.Cap.Days.{IsDated, count-sent_today, day_count, day_count_later}
use funnelmanager.Mail.Cap.Budget.{Pools, budget_of_within}
use funnelmanager.Mail.Cap.Sends.{Steady, Within, later_Within, send_next-Steady}

module _ (cap start : ℕ) where
  module _ (settings : Settings) (lower : Text → Text) where
    pass-Steady :
        (row : Option ℕ) (f : Senders) (r : CampaignRecipient) (t : Turn) (s : Cycle)
        → Pools f.by_domain
        → Steady cap start row s
        → Steady cap start row (cycle_of (pass settings lower f r t s))
    unfolding pass
    pass-Steady row f r t s g w =
        let u = later_Within cap start s.db.messages s.budget s.now t.before_check w.0 in
        elim (Bool-cases (
          non_empty (
            suppression_reason settings (s.now + t.before_check) s.db f.campaign.id
              (norm_email lower r.email)))) [
                | inl y ↦ rw y (u, w.1)
                | inr n ↦ rw n (send_next-Steady cap start row f r t _ g (u, w.1))
              ]

    pub start_Steady :
        (f : Senders) (now : ℕ) (db : Db)
        → now / day_us ≡ start
        → All (IsDated now) db.messages
        → ((k : ℕ) (d : Text) → day_count k d db.messages ≤ cap)
        → get_global_per_domain_cap settings db ≤ cap
        → Within cap start db.messages
            (budget_of settings now db f.campaign.send_strategy f.domains)
            now
    start_Steady f now db e dated few small = record {
      dated = dated;
      within = λ k d.
          let b = budget_of_within settings now db f.campaign.send_strategy f.domains d in
          ground (
            arith,
            few k d,
            small,
            count-sent_today now d db.messages dated,
            day_count_later now k d db.messages dated,
            b,
          );
      begun = omega arith;
    }

    pub run_cycle-Steady :
        (f : Senders) (ts : List Turn) (now : ℕ) (db : Db)
        → Pools f.by_domain
        → Within cap start db.messages
            (budget_of settings now db f.campaign.send_strategy f.domains)
            now
        → Within cap start db.messages [] now
        → Steady cap start db.cap_row (run_cycle settings lower f ts now db)
    run_cycle-Steady f ts now db g w v =
        run_cycle_keeps settings lower f (Steady cap start db.cap_row) (λ r. Unit)
          (λ r t s u. pass-Steady db.cap_row f r t s g) (λ h s i u. u) ts now db (v, refl) (w, refl)
          (All-In (λ r. Unit) _ (λ r i. tt))
