-- ===== src/Mail/Once/Sends.antt =====
-- A send of the pacer is the first one to its recipient (mail/app/campaigns.py).
use funnelmanager.Prelude.{
  ==_iff, All, All-append, Bool-cases, List, Option-cases, Text, [], ap, arith, codes, count-append,
  false, if◌then◌else◌, inl, inr, non_empty, refl, some, sym, text_eq, text_eq_iff, ℕ, ◌&&◌, ◌++◌,
  ◌+◌, ◌==◌, ◌∙◌, ◌∷◌, ◌≡◌, ◌≤◌,
}
use funnelmanager.Mail.Rows.{
  Campaign, CampaignMessage, CampaignRecipient, Db, MailAccount, Settings, edit_recipients, is_sent,
}
use funnelmanager.Mail.Suppression.{norm_email, of_campaign, suppression_reason, to_person}
use funnelmanager.Mail.Pacer.{GmailReply, accepted, auth_error, gmail_error, pick_domain, send_one}
use funnelmanager.Mail.Tick.{Cycle, Senders, Turn, choose_account, pass, send_from, send_next}
use funnelmanager.Mail.Tick.Keeps.{cycle_of}
use funnelmanager.Mail.Once.Reasons.{IsTimed, reason_campaign, reason_person, sends_of, sends_to}

pub sends_to-append :
    (e : Text) (xs ys : List CampaignMessage)
    → sends_to e (xs ++ ys) ≡ sends_to e xs + sends_to e ys
unfolding sends_to
sends_to-append e xs ys = count-append (to_person e) xs ys

pub sends_of-append :
    (c : ℕ) (e : Text) (xs ys : List CampaignMessage)
    → sends_of c e (xs ++ ys) ≡ sends_of c e xs + sends_of c e ys
unfolding sends_of
sends_of-append c e xs ys = count-append (λ m. of_campaign c m && to_person e m) xs ys

-- Every send has a time, a campaign has sent to nobody twice, and with no cooldown nobody has been sent
-- to twice at all.
pub record Single (settings : Settings) (ms : List CampaignMessage) : Type 0 where
  pub timed : All IsTimed ms
  pub campaign : (c : ℕ) (e : Text) → sends_of c e ms ≤ 1
  pub person : settings.campaign_suppression_cooldown_days ≡ 0 → (e : Text) → sends_to e ms ≤ 1

-- The addresses of the recipients are in the form that the log is searched for.
abbrev pub IsNormal : (Text → Text) → CampaignRecipient → Type 0
IsNormal lower r = norm_email lower r.email ≡ r.email

failed_unsent : text_eq (codes "failed") (codes "sent") ≡ false
unfolding text_eq
failed_unsent = refl

one_to :
    (e : Text) (m : CampaignMessage)
    → sends_to e (m ∷ []) ≡ (if is_sent m && text_eq m.person_email e then 1 else 0)
unfolding sends_to
one_to e m = ground arith

one_of :
    (c : ℕ) (e : Text) (m : CampaignMessage)
    → sends_of c e (m ∷ [])
      ≡ (if of_campaign c m && (is_sent m && text_eq m.person_email e) then 1 else 0)
unfolding sends_of
one_of c e m = ground arith

edit_recipients-IsNormal :
    (lower : Text → Text) (id : ℕ) (g : CampaignRecipient → CampaignRecipient)
    → ((r : CampaignRecipient) → (g r).email ≡ r.email)
    → (rs : List CampaignRecipient) → All (IsNormal lower) rs
    → All (IsNormal lower) (edit_recipients id g rs)
unfolding edit_recipients
edit_recipients-IsNormal lower id g k [] h = tt
edit_recipients-IsNormal lower id g k (r ∷ rs) h = (
  elim (Bool-cases (r.id == id)) [ inl y ↦ rw y (rw (k r) h.0) | inr n ↦ rw n h.0 ],
  edit_recipients-IsNormal lower id g k rs h.1,
)

module _ (settings : Settings) where
  unsent_Single :
      (ms : List CampaignMessage) (m : CampaignMessage)
      → is_sent m ≡ false
      → Single settings ms
      → Single settings (ms ++ m ∷ [])
  unsent_Single ms m n s = record {
    timed = All-append IsTimed ms (m ∷ []) s.timed ((λ y. cc), tt);
    campaign =
        λ c e. rw (sends_of-append c e ms (m ∷ []), one_of c e m) (ground (arith, s.campaign c e));
    person = λ z e. rw (sends_to-append e ms (m ∷ []), one_to e m) (ground (arith, s.person z e));
  }

  sent_Single :
      (now c : ℕ) (ms : List CampaignMessage) (m : CampaignMessage)
      → m.sent_at ≡ some now
      → m.campaign_id ≡ some c
      → sends_of c m.person_email ms ≡ 0
      → (settings.campaign_suppression_cooldown_days ≡ 0 → sends_to m.person_email ms ≡ 0)
      → Single settings ms
      → Single settings (ms ++ m ∷ [])
  sent_Single now c ms m q r f g s = record {
    timed = All-append IsTimed ms (m ∷ []) s.timed ((λ y. (now, q)), tt);
    campaign = λ d e.
        rw (sends_of-append d e ms (m ∷ []), one_of d e m)
          (ground (arith, s.campaign d e, text_eq_iff m.person_email e, ==_iff c d));
    person = λ z e.
        rw (sends_to-append e ms (m ∷ []), one_to e m)
          (ground (arith, s.person z e, g z, text_eq_iff m.person_email e));
  }

  -- The log and the recipients, in the loop.
  abbrev pub Fresh : (Text → Text) → Cycle → Type 0
  Fresh lower s = Single settings s.db.messages × All (IsNormal lower) s.db.recipients

  -- Nobody was sent to whom the guards let pass.
  abbrev NotYet : ℕ → Text → List CampaignMessage → Type 0
  NotYet c e ms =
      (sends_of c e ms ≡ 0) × (settings.campaign_suppression_cooldown_days ≡ 0 → sends_to e ms ≡ 0)

  send_one-Fresh :
      (lower : Text → Text) (now : ℕ) (c : Campaign) (r : CampaignRecipient) (a : MailAccount)
      (reply : GmailReply) (db : Db)
      → NotYet c.id r.email db.messages
      → Single settings db.messages
      → All (IsNormal lower) db.recipients
      → Single settings (send_one now c r a reply db).0.messages
        × All (IsNormal lower) (send_one now c r a reply db).0.recipients
  unfolding send_one
  send_one-Fresh lower now c r a (accepted i t) db n s w = (
    sent_Single now c.id db.messages _ refl refl n.0 n.1 s,
    edit_recipients-IsNormal lower r.id _ (λ x. refl) db.recipients w,
  )
  send_one-Fresh lower now c r a (auth_error t) db n s w = (
    unsent_Single db.messages _ failed_unsent s,
    edit_recipients-IsNormal lower r.id _ (λ x. refl) db.recipients w,
  )
  send_one-Fresh lower now c r a (gmail_error t) db n s w = (
    unsent_Single db.messages _ failed_unsent s,
    edit_recipients-IsNormal lower r.id _ (λ x. refl) db.recipients w,
  )

  send_next-Fresh :
      (lower : Text → Text) (f : Senders) (r : CampaignRecipient) (t : Turn) (s : Cycle)
      → NotYet f.campaign.id r.email s.db.messages
      → Fresh lower s
      → Fresh lower (cycle_of (send_next f r t s))
  unfolding send_next send_from
  send_next-Fresh lower f r t s n w =
      let d = pick_domain f.campaign.send_strategy f.domains s.budget in
      elim (Bool-cases (non_empty d)) [
        | inr m ↦ rw m w
        | inl y ↦ elim (Option-cases (choose_account f d s)) [
          | inl m ↦ rw (y, m) w
          | inr (a, q) ↦
              rw (y, q)
                (send_one-Fresh lower (s.now + t.before_send) f.campaign r a t.reply s.db n w.0 w.1)
        ]
      ]

  pub pass-Fresh :
      (lower : Text → Text) (f : Senders) (r : CampaignRecipient) (t : Turn) (s : Cycle)
      → IsNormal lower r
      → Fresh lower s
      → Fresh lower (cycle_of (pass settings lower f r t s))
  unfolding pass
  pass-Fresh lower f r t s q w =
      let now = s.now + t.before_check in
      elim (Bool-cases (
        non_empty
          (suppression_reason settings now s.db f.campaign.id (norm_email lower r.email)))) [
            | inl y ↦
                rw y (w.0, edit_recipients-IsNormal lower r.id _ (λ x. refl) s.db.recipients w.1)
            | inr n ↦
                let m =
                  ap (λ e. non_empty (suppression_reason settings now s.db f.campaign.id e)) (sym q)
                  ∙ n in
                rw n (
                  send_next-Fresh lower f r t (record s { now = now })
                    (
                      reason_campaign settings now s.db f.campaign.id r.email m,
                      λ z. reason_person settings now s.db f.campaign.id r.email z w.0.timed m,
                    )
                    w)
          ]
