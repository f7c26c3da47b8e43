-- ===== src/Mail/Tick.antt =====
-- mail/app/campaigns.py: one cycle of the pacer for one campaign, `_tick_locked`. The inputs of a cycle
-- are the time that passes before each step of the loop and Gmail's answers; where they run out, the
-- process has stopped or an exception has left the loop, and what was committed stays.
pub mod Keeps
use funnelmanager.Prelude.{
  Bool, List, Option, Text, [], codes, false, if◌then◌else◌, keep, length, non_empty, none, nth,
  some, suc, take, text_eq, true, ℕ, ◌%◌, ◌&&◌, ◌*◌, ◌+◌, ◌-◌, ◌==◌, ◌∷◌,
}
use funnelmanager.Prelude.Dicts
use funnelmanager.Prelude.Dicts.{Dict}
use funnelmanager.Mail.Rows.{
  Campaign, CampaignRecipient, Db, MailAccount, Settings, completed, edit_campaign, edit_campaigns,
  edit_recipient, edit_recipients, get_campaign, in_campaign, is_pending, is_running, pending_count,
  suppressed,
}
use funnelmanager.Mail.Suppression.{norm_email, suppression_reason}
use funnelmanager.Mail.Quota.{get_or_0, is_nil}
use funnelmanager.Mail.Pacer.{
  GmailReply, budget_of, group_by_domain, pick_domain, send_one, sorted_keys, total,
}

pub record Turn : Type 0 where
  pub before_check : ℕ
  pub before_send : ℕ
  pub reply : GmailReply

-- The variables of the loop, with the tables and the clock.
pub record Cycle : Type 0 where
  pub db : Db
  pub now : ℕ
  pub budget : Dict ℕ
  pub rr : Dict ℕ

-- How a pass of the loop ends: by the next pass, by `break`, or by an exception.
pub data Pass : Type 0 where
  next break raised : Cycle → Pass

-- What stays the same in the loop.
pub record Senders : Type 0 where
  pub campaign : Campaign
  pub domains : List Text
  pub by_domain : Dict (List MailAccount)

-- The rest of a pass, once the mailbox is chosen.
unfoldable pub send_from : Senders → CampaignRecipient → Turn → MailAccount → Text → Cycle → Cycle
unfolding send_one get_or_0 Dicts.put
send_from f recipient t account domain s =
    let now = s.now + t.before_send in
    let (db, sent) = send_one now f.campaign recipient account t.reply s.db in
    record {
      db = db;
      now = now;
      budget = if sent then Dicts.put s.budget domain (get_or_0 s.budget domain - 1) else s.budget;
      rr = Dicts.put s.rr domain (suc (get_or_0 s.rr domain));
    }

unfoldable pub choose_account : Senders → Text → Cycle → Option MailAccount
unfolding Dicts.get get_or_0
choose_account f domain s = elim (Dicts.get f.by_domain domain) [
  | none ↦ none
  | some pool ↦ nth pool (get_or_0 s.rr domain % length pool)
]

-- The rest of a pass, once the recipient is not suppressed.
unfoldable pub send_next : Senders → CampaignRecipient → Turn → Cycle → Pass
unfolding pick_domain send_from choose_account
send_next f recipient t s =
    let domain = pick_domain f.campaign.send_strategy f.domains s.budget in
    if non_empty domain
    then elim (choose_account f domain s) [
      | none ↦ raised s
      | some account ↦ next (send_from f recipient t account domain s)
    ]
    else break s

-- The completion after the loop. The campaign's object is the one that was loaded at the start, since
-- a commit does not expire it, so its status is still `running` here.
unfoldable pub complete : ℕ → Db → Db
unfolding pending_count edit_campaigns
complete campaign_id db =
    if pending_count db campaign_id == 0
    then edit_campaign campaign_id (λ c. record c { status = completed }) db
    else db

unfoldable pub finish : ℕ → Cycle × Bool → Cycle
unfolding complete
finish campaign_id (s, ended) = if ended then record s { db = complete campaign_id s.db } else s

abbrev pub start_cycle : ℕ → Db → Dict ℕ → Cycle
start_cycle now db budget = record { db = db; now = now; budget = budget; rr = [] }

-- The sender mailboxes: the owner's own that are active.
abbrev pub is_sender : Campaign → MailAccount → Bool
is_sender c a = text_eq a.connected_by c.owner && text_eq a.status (codes "active")

unfoldable pub senders_of : Campaign → Db → Senders
unfolding group_by_domain sorted_keys
senders_of c db =
    let by_domain = group_by_domain (keep (is_sender c) db.accounts) [] in
    record { campaign = c; domains = sorted_keys by_domain; by_domain = by_domain }

-- The recipients of one cycle.
unfoldable pub pending_batch : Db → ℕ → Dict ℕ → List CampaignRecipient
unfolding total
pending_batch db campaign_id budget =
    take (total budget * 4 + 20) (keep (in_campaign campaign_id is_pending) db.recipients)

abbrev pub no_sender_error : Text
no_sender_error = codes "No active connected mailboxes for this owner to send from"

module _ (settings : Settings) (lower : Text → Text) where
  -- One pass of the loop, where the budget is not used up.
  unfoldable pub pass : Senders → CampaignRecipient → Turn → Cycle → Pass
  unfolding suppression_reason norm_email send_next edit_recipients
  pass f recipient t s =
      let now = s.now + t.before_check in
      let reason =
        suppression_reason settings now s.db f.campaign.id (norm_email lower recipient.email) in
      if non_empty reason
      then next (record s {
        db =
            edit_recipient recipient.id
              (λ r. record r { status = suppressed; suppressed_reason = reason }) s.db;
        now = now;
      })
      else send_next f recipient t (record s { now = now })

  -- The loop over the pending recipients, and whether it ended without an exception.
  unfoldable pub send_loop : Senders → List CampaignRecipient → List Turn → Cycle → Cycle × Bool
  unfolding pass total
  send_loop f [] ts s = (s, true)
  send_loop f (r ∷ rs) [] s = (s, total s.budget == 0)
  send_loop f (r ∷ rs) (t ∷ ts) s = if total s.budget == 0 then (s, true) else elim (pass f r t s) [
    | next u ↦ send_loop f rs ts u
    | break u ↦ (u, true)
    | raised u ↦ (u, false)
  ]

  -- A cycle of a campaign that is running, with its mailboxes.
  unfoldable pub run_cycle : Senders → List Turn → ℕ → Db → Cycle
  unfolding budget_of pending_count pending_batch send_loop finish edit_campaigns
  run_cycle f ts now db =
      let id = f.campaign.id in
      let budget = budget_of settings now db f.campaign.send_strategy f.domains in
      if is_nil f.by_domain
      then start_cycle now (edit_campaign id (λ c. record c { last_error = no_sender_error }) db) []
      else if pending_count db id == 0
      then start_cycle now
          (edit_campaign id (λ c. record c { status = completed; last_error = [] }) db) []
      else if is_nil budget
      then start_cycle now db []
      else finish id (send_loop f (pending_batch db id budget) ts (start_cycle now db budget))

  -- `_tick_locked`: the tables and the time at its end
  unfoldable pub tick_locked : ℕ → List Turn → ℕ → Db → Db × ℕ
  unfolding get_campaign run_cycle senders_of
  tick_locked campaign_id ts now db = elim (get_campaign db.campaigns campaign_id) [
    | none ↦ (db, now)
    | some c ↦
        let end = run_cycle (senders_of c db) ts now db in
        if is_running c.status then (end.db, end.now) else (db, now)
  ]
