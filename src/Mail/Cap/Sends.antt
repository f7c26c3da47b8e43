-- ===== src/Mail/Cap/Sends.antt =====
-- One send of the pacer (mail/app/campaigns.py) keeps its domain within a cap, on the day when it happens.
use funnelmanager.Prelude.{
  All, All-append, All-nth, Bool-cases, List, Option, Option-cases, Text, [], arith, codes, false,
  if◌then◌else◌, inl, inr, leb, length, non_empty, refl, some, sym, text_eq, text_eq_iff,
  text_eq_refl, true, ℕ, ◌%◌, ◌++◌, ◌+◌, ◌-◌, ◌/◌, ◌<◌, ◌∙◌, ◌∷◌, ◌≡◌, ◌≤◌,
}
use funnelmanager.Prelude.Dicts
use funnelmanager.Prelude.Dicts.{Dict}
use funnelmanager.Mail.Rows.{CampaignMessage, CampaignRecipient, Db, MailAccount, is_sent}
use funnelmanager.Mail.Suppression.{day_us}
use funnelmanager.Mail.Quota.{get_or_0}
use funnelmanager.Mail.Pacer.{GmailReply, accepted, auth_error, gmail_error, pick_domain, send_one}
use funnelmanager.Mail.Tick.Keeps.{cycle_of}
use funnelmanager.Mail.Tick.{Cycle, Senders, Turn, choose_account, send_from, send_next}
use funnelmanager.Mail.Cap.Days.{
  IsDated, IsDated-later, day_count, day_count-append, on_day_sent, on_day_unsent,
}
use funnelmanager.Mail.Cap.Budget.{OfDomain, Pools, get_or_0-put, pick_domain_left}

-- What a cycle may still send of a domain on the day `k`, where it began on the day `start`.
abbrev pub room : ℕ → Dict ℕ → ℕ → Text → ℕ
room start budget k d = if leb start k then get_or_0 budget d else 0

failed_unsent : text_eq (codes "failed") (codes "sent") ≡ false
unfolding text_eq
failed_unsent = refl

module _ (cap start : ℕ) where
  -- Within a cap, for the log, a budget and the time.
  pub record Within (ms : List CampaignMessage) (budget : Dict ℕ) (now : ℕ) : Type 0 where
    pub dated : All (IsDated now) ms
    pub within : (k : ℕ) (d : Text) → day_count k d ms + room start budget k d ≤ cap
    pub begun : start ≤ now / day_us

  pub later_Within :
      (ms : List CampaignMessage) (b : Dict ℕ) (now t : ℕ) → Within ms b now → Within ms b (now + t)
  later_Within ms b now t w = record {
    dated = IsDated-later now (now + t) ms (omega arith) w.dated;
    within = w.within;
    begun = let e = w.begun in omega arith;
  }

  -- A row that is not sent counts nowhere.
  unsent_Within :
      (ms : List CampaignMessage) (b : Dict ℕ) (now : ℕ) (m : CampaignMessage)
      → is_sent m ≡ false
      → Within ms b now
      → Within (ms ++ m ∷ []) b now
  unsent_Within ms b now m n w = record {
    dated = All-append (IsDated now) ms (m ∷ []) w.dated ((λ y. cc), tt);
    within =
        λ k d. rw (day_count-append k d ms m, on_day_unsent k d m n) (ground (arith, w.within k d));
    begun = w.begun;
  }

  -- A send takes one from the budget of its domain.
  sent_Within :
      (ms : List CampaignMessage) (b : Dict ℕ) (now : ℕ) (m : CampaignMessage)
      → is_sent m ≡ true
      → m.sent_at ≡ some now
      → 0 < get_or_0 b m.domain
      → Within ms b now
      → Within (ms ++ m ∷ []) (Dicts.put b m.domain (get_or_0 b m.domain - 1)) now
  sent_Within ms b now m y q l w = record {
    dated = All-append (IsDated now) ms (m ∷ []) w.dated ((λ y. (now, q, omega arith)), tt);
    within = λ k d.
        rw
          (
            day_count-append k d ms m,
            on_day_sent k now d m y q,
            get_or_0-put b m.domain d (get_or_0 b m.domain - 1),
          )
          (ground (arith, w.within k d, w.begun, text_eq_iff m.domain d));
    begun = w.begun;
  }

  -- The loop's state is within the cap, and the row of the cap is as it was.
  abbrev pub Steady : Option ℕ → Cycle → Type 0
  Steady row s = Within s.db.messages s.budget s.now × (s.db.cap_row ≡ row)

  send_one-Within :
      (now : ℕ) (f : Senders) (r : CampaignRecipient) (a : MailAccount) (reply : GmailReply)
      (db : Db) (b : Dict ℕ) (d : Text)
      → a.domain ≡ d
      → 0 < get_or_0 b d
      → Within db.messages b now
      → Within
          (send_one now f.campaign r a reply db).0.messages
          (if (send_one now f.campaign r a reply db).1 then Dicts.put b d (get_or_0 b d - 1) else b)
          now
        × ((send_one now f.campaign r a reply db).0.cap_row ≡ db.cap_row)
  unfolding send_one
  send_one-Within now f r a (accepted i t) db b d e l w = (
    rw (sym e) (sent_Within db.messages b now _ (text_eq_refl (codes "sent")) refl (rw e l) w),
    refl,
  )
  send_one-Within now f r a (auth_error t) db b d e l w =
      (unsent_Within db.messages b now _ failed_unsent w, refl)
  send_one-Within now f r a (gmail_error t) db b d e l w =
      (unsent_Within db.messages b now _ failed_unsent w, refl)

  send_from-Steady :
      (row : Option ℕ) (f : Senders) (r : CampaignRecipient) (t : Turn) (a : MailAccount) (d : Text)
      (s : Cycle)
      → a.domain ≡ d
      → 0 < get_or_0 s.budget d
      → Steady row s
      → Steady row (send_from f r t a d s)
  unfolding send_from
  send_from-Steady row f r t a d s e l w =
      let done =
        send_one-Within (s.now + t.before_send) f r a t.reply s.db s.budget d e l
          (later_Within s.db.messages s.budget s.now t.before_send w.0) in
      (done.0, done.1 ∙ w.1)

  choose_account_domain :
      (f : Senders) (d : Text) (s : Cycle) (a : MailAccount)
      → Pools f.by_domain
      → choose_account f d s ≡ some a
      → a.domain ≡ d
  unfolding choose_account
  choose_account_domain f d s a g q = elim (Option-cases (Dicts.get f.by_domain d)) [
    | inl n ↦ ground arith
    | inr (pool, e) ↦
        All-nth (OfDomain d) pool (get_or_0 s.rr d % length pool) a (g d pool e) (ground arith)
  ]

  pub send_next-Steady :
      (row : Option ℕ) (f : Senders) (r : CampaignRecipient) (t : Turn) (s : Cycle)
      → Pools f.by_domain
      → Steady row s
      → Steady row (cycle_of (send_next f r t s))
  unfolding send_next
  send_next-Steady row f r t s g w =
      let d = pick_domain f.campaign.send_strategy f.domains s.budget in
      elim (Bool-cases (non_empty d)) [
        | inr n ↦ rw n w
        | inl y ↦ elim (Option-cases (choose_account f d s)) [
          | inl n ↦ rw (y, n) w
          | inr (a, q) ↦
              rw (y, q)
                (send_from-Steady row f r t a d s (choose_account_domain f d s a g q)
                  (pick_domain_left f.campaign.send_strategy f.domains s.budget y) w)
        ]
      ]
