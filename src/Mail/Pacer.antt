-- ===== src/Mail/Pacer.antt =====
-- mail/app/campaigns.py: the pacer of a campaign, `CampaignManager`.
use funnelmanager.Prelude.{
  Bool, List, Text, [], codes, false, if◌then◌else◌, keep, ltb, none, some, text_eq, true, ℕ, ◌&&◌,
  ◌++◌, ◌+◌, ◌-◌, ◌==◌, ◌||◌, ◌∷◌,
}
use funnelmanager.Prelude.Dicts
use funnelmanager.Prelude.Dicts.{Dict}
use funnelmanager.Mail.Rows.{
  Campaign, CampaignMessage, CampaignRecipient, Db, MailAccount, Settings, edit_accounts,
  edit_recipient, edit_recipients, failed, sent,
}
use funnelmanager.Mail.Quota.{domains_sent_today, get_global_per_domain_cap, get_or_0}

-- `min(a, b)`
abbrev pub min : ℕ → ℕ → ℕ
min a b = if ltb b a then b else a

-- `sum(budget.values())`
unfoldable pub total : Dict ℕ → ℕ
total [] = 0
total ((d, n) ∷ budget) = n + total budget

-- What `_budget` gives, from the cap, the sends of today and the sends per cycle.
unfoldable pub sequential_budget : ℕ → Dict ℕ → ℕ → List Text → Dict ℕ
unfolding get_or_0
sequential_budget cap sent_today per_cycle [] = []
sequential_budget cap sent_today per_cycle (domain ∷ domains) =
    let rest = sequential_budget cap sent_today per_cycle domains in
    let remaining_today = cap - get_or_0 sent_today domain in
    if ltb 0 remaining_today then (domain, min remaining_today per_cycle) ∷ [] else rest

unfoldable pub balanced_budget : ℕ → Dict ℕ → ℕ → List Text → Dict ℕ → Dict ℕ
unfolding get_or_0 Dicts.put
balanced_budget cap sent_today per_cycle [] budget = budget
balanced_budget cap sent_today per_cycle (domain ∷ domains) budget =
    let remaining_today = cap - get_or_0 sent_today domain in
    balanced_budget cap sent_today per_cycle domains (
      if ltb 0 remaining_today
      then Dicts.put budget domain (min remaining_today per_cycle)
      else budget)

abbrev pub is_sequential : Text → Bool
is_sequential strategy = text_eq strategy (codes "sequential")

-- `_budget`
unfoldable pub budget_of : Settings → ℕ → Db → Text → List Text → Dict ℕ
unfolding sequential_budget balanced_budget domains_sent_today get_global_per_domain_cap
budget_of settings now db strategy domains =
    let cap = get_global_per_domain_cap settings db in
    let sent_today = domains_sent_today now db domains in
    let per_cycle = settings.campaign_sends_per_domain_per_cycle in
    if is_sequential strategy
    then sequential_budget cap sent_today per_cycle domains
    else balanced_budget cap sent_today per_cycle domains []

-- `max(avail, key=…)`: the first one of the greatest, `d` so far
unfoldable pub max_by : (Text → ℕ) → Text → List Text → Text
max_by key d [] = d
max_by key d (e ∷ es) = if ltb (key d) (key e) then max_by key e es else max_by key d es

-- `_pick_domain`
unfoldable pub pick_domain : Text → List Text → Dict ℕ → Text
unfolding max_by get_or_0
pick_domain strategy domains budget = elim (keep (λ d. ltb 0 (get_or_0 budget d)) domains) [
  | [] ↦ []
  | d ∷ avail ↦ if is_sequential strategy then d else max_by (get_or_0 budget) d avail
]

-- What Gmail answers to a send: the ids of the message and of its thread, or an error.
pub data GmailReply : Type 0 where
  accepted : Text → Text → GmailReply
  auth_error gmail_error : Text → GmailReply

-- The row of a send that failed; one that is accepted adds its ids and its time.
abbrev pub failed_message : Campaign → CampaignRecipient → MailAccount → Text → CampaignMessage
failed_message campaign recipient account error = record {
  campaign_id = some campaign.id;
  recipient_id = some recipient.id;
  person_email = recipient.email;
  person_apollo_id = recipient.apollo_id;
  account_id = some account.id;
  domain = account.domain;
  gmail_message_id = [];
  thread_id = [];
  status = codes "failed";
  error = error;
  sent_at = none;
}

abbrev pub sent_message :
    ℕ → Campaign → CampaignRecipient → MailAccount → Text → Text → CampaignMessage
sent_message now campaign recipient account gmail_id thread_id =
    record (failed_message campaign recipient account []) {
      gmail_message_id = gmail_id;
      thread_id = thread_id;
      status = codes "sent";
      sent_at = some now;
    }

abbrev pub add_message : CampaignMessage → Db → Db
add_message m db = record db { messages = db.messages ++ m ∷ [] }

-- `_send_one`, with Gmail's answer: the tables after the caller's commit, and whether it was sent
unfoldable pub send_one :
    ℕ → Campaign → CampaignRecipient → MailAccount → GmailReply → Db → Db × Bool
unfolding edit_recipients edit_accounts
send_one now campaign recipient account (accepted gmail_id thread_id) db = (
  edit_recipient recipient.id (λ r. record r { status = sent })
      (add_message (sent_message now campaign recipient account gmail_id thread_id) db),
  true,
)
send_one now campaign recipient account (auth_error error) db = (
  edit_recipient recipient.id (λ r. record r { status = failed })
      (add_message (failed_message campaign recipient account error) (record db {
        accounts =
            edit_accounts account.id (λ a. record a { status = codes "error"; last_error = error })
              db.accounts;
      })),
  false,
)
send_one now campaign recipient account (gmail_error error) db = (
  edit_recipient recipient.id (λ r. record r { status = failed })
      (add_message (failed_message campaign recipient account error) db),
  false,
)

-- `by_domain.setdefault(account.domain, []).append(account)` over the accounts
unfoldable pub group_by_domain :
    List MailAccount → Dict (List MailAccount) → Dict (List MailAccount)
unfolding Dicts.get Dicts.put
group_by_domain [] by_domain = by_domain
group_by_domain (account ∷ accounts) by_domain = group_by_domain accounts (
    Dicts.put by_domain account.domain (elim (Dicts.get by_domain account.domain) [
      | none ↦ account ∷ []
      | some pool ↦ pool ++ account ∷ []
    ]))

-- `a <= b` of texts
unfoldable pub text_leb : Text → Text → Bool
text_leb [] b = true
text_leb (c ∷ a) [] = false
text_leb (c ∷ a) (d ∷ b) = ltb c d || c == d && text_leb a b

-- `sorted(d)` of a dictionary: its keys
unfoldable pub insert_key : Text → List Text → List Text
unfolding text_leb
insert_key k [] = k ∷ []
insert_key k (j ∷ js) = let rest = insert_key k js in if text_leb k j then k ∷ j ∷ js else j ∷ rest

unfoldable pub sorted_keys {ℓ} : {V : Type ℓ} → Dict V → List Text
unfolding insert_key
sorted_keys [] = []
sorted_keys ((k, v) ∷ d) = insert_key k (sorted_keys d)
