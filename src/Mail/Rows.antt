-- ===== src/Mail/Rows.antt =====
-- mail/app/models.py: the rows of the campaigns, and the tables. A row has the number that
-- its table's next insert gives it; timestamps that nothing reads are left out.
use funnelmanager.Prelude.{
  Bool, List, Option, Text, [], codes, count, false, if◌then◌else◌, none, some, text_eq, true, ℕ,
  ◌&&◌, ◌==◌, ◌∷◌,
}

pub data CampaignStatus : Type 0 where
  draft running paused completed cancelled : CampaignStatus

pub data RecipientStatus : Type 0 where
  pending sent suppressed failed : RecipientStatus

pub record Campaign : Type 0 where
  pub id : ℕ
  pub owner : Text
  pub origin : Text
  pub actor : Text
  pub name : Text
  pub status : CampaignStatus
  pub send_strategy : Text
  pub subject : Text
  pub body_text : Text
  pub body_html : Text
  pub last_error : Text

pub record CampaignSource : Type 0 where
  pub id : ℕ
  pub campaign_id : ℕ
  pub search_id : Text
  pub label : Text
  pub added_by : Text
  pub recipient_count : ℕ
  pub added_count : ℕ

pub record CampaignRecipient : Type 0 where
  pub id : ℕ
  pub campaign_id : ℕ
  pub source_id : Option ℕ
  pub email : Text
  pub apollo_id : Text
  pub name : Text
  pub status : RecipientStatus
  pub suppressed_reason : Text

-- The log of the sends, where `status` is "sent" or "failed"; times are in microseconds.
pub record CampaignMessage : Type 0 where
  pub campaign_id : Option ℕ
  pub recipient_id : Option ℕ
  pub person_email : Text
  pub person_apollo_id : Text
  pub account_id : Option ℕ
  pub domain : Text
  pub gmail_message_id : Text
  pub thread_id : Text
  pub status : Text
  pub error : Text
  pub sent_at : Option ℕ

-- What the campaigns read of a mailbox.
pub record MailAccount : Type 0 where
  pub id : ℕ
  pub email : Text
  pub display_name : Text
  pub domain : Text
  pub connected_by : Text
  pub status : Text
  pub last_error : Text

-- The tables. `cap_row` is the column `per_domain_daily` of the only row of the settings.
pub record Db : Type 0 where
  pub campaigns : List Campaign
  pub sources : List CampaignSource
  pub recipients : List CampaignRecipient
  pub messages : List CampaignMessage
  pub accounts : List MailAccount
  pub cap_row : Option ℕ

-- What the code reads of mail/app/config.py.
pub record Settings : Type 0 where
  pub campaign_per_domain_daily_default : ℕ
  pub campaign_sends_per_domain_per_cycle : ℕ
  pub campaign_suppression_cooldown_days : ℕ

abbrev pub is_pending : RecipientStatus → Bool
is_pending pending = true
is_pending _ = false

abbrev pub is_running : CampaignStatus → Bool
is_running running = true
is_running _ = false

-- `session.get(Campaign, id)`
unfoldable pub get_campaign : List Campaign → ℕ → Option Campaign
get_campaign [] id = none
get_campaign (c ∷ cs) id = if c.id == id then some c else get_campaign cs id

-- The assignments to a row that is loaded, once they are committed.
unfoldable pub edit_campaigns : ℕ → (Campaign → Campaign) → List Campaign → List Campaign
edit_campaigns id f [] = []
edit_campaigns id f (c ∷ cs) = (if c.id == id then f c else c) ∷ edit_campaigns id f cs

unfoldable pub edit_recipients :
    ℕ → (CampaignRecipient → CampaignRecipient) → List CampaignRecipient → List CampaignRecipient
edit_recipients id f [] = []
edit_recipients id f (r ∷ rs) = (if r.id == id then f r else r) ∷ edit_recipients id f rs

unfoldable pub edit_accounts : ℕ → (MailAccount → MailAccount) → List MailAccount → List MailAccount
edit_accounts id f [] = []
edit_accounts id f (a ∷ rest) = (if a.id == id then f a else a) ∷ edit_accounts id f rest

abbrev pub edit_campaign : ℕ → (Campaign → Campaign) → Db → Db
edit_campaign id f db = record db { campaigns = edit_campaigns id f db.campaigns }

abbrev pub edit_recipient : ℕ → (CampaignRecipient → CampaignRecipient) → Db → Db
edit_recipient id f db = record db { recipients = edit_recipients id f db.recipients }

-- The recipients of a campaign that pass a test, in the order of their numbers.
abbrev pub in_campaign : ℕ → (RecipientStatus → Bool) → CampaignRecipient → Bool
in_campaign campaign_id p r = r.campaign_id == campaign_id && p r.status

-- The number of the pending recipients of a campaign.
unfoldable pub pending_count : Db → ℕ → ℕ
pending_count db campaign_id = count (in_campaign campaign_id is_pending) db.recipients

abbrev pub is_sent : CampaignMessage → Bool
is_sent m = text_eq m.status (codes "sent")
