-- ===== src/Mail/Quota.antt =====
-- mail/app/campaigns.py: the cap on the sends of a domain in a day, and the sends outside campaigns.
use funnelmanager.Prelude.{
  Bool, List, Option, Text, [], codes, count, false, if◌then◌else◌, length, ltb, map, non_empty,
  none, not, some, suc, text_eq, true, ℕ, ◌&&◌, ◌*◌, ◌++◌, ◌+◌, ◌/◌, ◌∷◌,
}
use funnelmanager.Prelude.Dicts
use funnelmanager.Prelude.Dicts.{Dict}
use funnelmanager.Mail.Rows.{
  CampaignMessage, Db, MailAccount, RecipientStatus, Settings, in_campaign, is_sent, pending, sent,
}
use funnelmanager.Mail.Suppression.{at_least, contacted_set, day_us, in_set, norm_email}
use funnelmanager.Mail.Drafts.{HttpException, http}

-- `_today_start`
abbrev pub today_start : ℕ → ℕ
today_start now = now / day_us * day_us

-- `get_global_per_domain_cap`
unfoldable pub get_global_per_domain_cap : Settings → Db → ℕ
get_global_per_domain_cap settings db = elim db.cap_row [
  | none ↦ settings.campaign_per_domain_daily_default
  | some value ↦ if ltb 0 value then value else settings.campaign_per_domain_daily_default
]

-- `set_global_per_domain_cap`
abbrev pub set_global_per_domain_cap : ℕ → Db → Db
set_global_per_domain_cap value db = record db { cap_row = some value }

abbrev pub sent_today : ℕ → Text → CampaignMessage → Bool
sent_today now domain m =
    is_sent m && (text_eq m.domain domain && at_least m.sent_at (today_start now))

unfoldable pub global_domain_sent_today : ℕ → Db → Text → ℕ
global_domain_sent_today now db domain = count (sent_today now domain) db.messages

-- `d.get(k, 0)`
unfoldable pub get_or_0 : Dict ℕ → Text → ℕ
unfolding Dicts.get
get_or_0 d k = elim (Dicts.get d k) [ none ↦ 0 | some n ↦ n ]

-- `SELECT domain, count(*) … WHERE p GROUP BY domain`
unfoldable pub count_by_domain : (CampaignMessage → Bool) → List CampaignMessage → Dict ℕ
unfolding Dicts.put get_or_0
count_by_domain p [] = []
count_by_domain p (m ∷ ms) =
    let rest = count_by_domain p ms in
    if p m then Dicts.put rest m.domain (suc (get_or_0 rest m.domain)) else rest

unfoldable pub domains_sent_today : ℕ → Db → List Text → Dict ℕ
unfolding count_by_domain
domains_sent_today now db domains =
    count_by_domain
      (λ m. is_sent m && at_least m.sent_at (today_start now) && in_set m.domain domains)
      db.messages

abbrev pub is_volume : RecipientStatus → Bool
is_volume pending = true
is_volume sent = true
is_volume _ = false

unfoldable pub campaign_send_volume : Db → ℕ → ℕ
campaign_send_volume db campaign_id = count (in_campaign campaign_id is_volume) db.recipients

-- `{_norm_email(e) for e in recipients if _norm_email(e)}`. The order that the code sorts it into
-- is not kept: nothing reads it but the wording of a message.
unfoldable pub normalized_set : (Text → Text) → List Text → List Text
unfolding norm_email
normalized_set lower [] = []
normalized_set lower (e ∷ es) =
    let rest = normalized_set lower es in
    let email = norm_email lower e in
    if non_empty email && not (in_set email rest) then email ∷ rest else rest

abbrev pub is_nil {ℓ} : {A : Type ℓ} → List A → Bool
is_nil [] = true
is_nil (x ∷ xs) = false

module _ (settings : Settings) (lower : Text → Text) where
  -- `enforce_direct_send`: the exception that it raises, if any
  unfoldable pub enforce_direct_send : ℕ → Db → MailAccount → List Text → Option HttpException
  unfolding contacted_set get_global_per_domain_cap global_domain_sent_today normalized_set
  enforce_direct_send now db account recipients =
      let normalized = normalized_set lower recipients in
      let cap = get_global_per_domain_cap settings db in
      if is_nil normalized
      then none
      else if not (is_nil (contacted_set settings now db normalized))
      then some (http 409)
      else if ltb cap (global_domain_sent_today now db account.domain + length normalized)
      then some (http 429)
      else none

abbrev pub direct_message : ℕ → MailAccount → Text → Text → Text → CampaignMessage
direct_message now account gmail_message_id thread_id person = record {
  campaign_id = none;
  recipient_id = none;
  person_email = person;
  person_apollo_id = [];
  account_id = some account.id;
  domain = account.domain;
  gmail_message_id = gmail_message_id;
  thread_id = thread_id;
  status = codes "sent";
  error = [];
  sent_at = some now;
}

-- `record_direct_send`
unfoldable pub record_direct_send :
    (Text → Text) → ℕ → MailAccount → List Text → Text → Text → Db → Db
unfolding normalized_set
record_direct_send lower now account recipients gmail_message_id thread_id db = record db {
  messages =
      db.messages
      ++ map (direct_message now account gmail_message_id thread_id)
          (normalized_set lower recipients);
}
