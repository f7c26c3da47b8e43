-- ===== src/Mail/Tests.antt =====
-- Runs of mail/app/campaigns.py and mail/app/routers/mail.py.
mod Lower
use funnelmanager.Prelude.{
  List, String, [], after, arith, before, codes, count, false, has_char, leb, map, non_empty, none,
  ok, refl, some, strip, text_eq, true, ℕ, ◌++◌, ◌<◌, ◌∷◌, ◌≡◌,
}
use funnelmanager.Prelude.Int.{pos}
use funnelmanager.Prelude.Dicts
use funnelmanager.Runtime.Json.{Json, fields, num, obj, text}
use funnelmanager.Runtime.Confirmation.{
  Platform, verify_human_approval, approval_secret, parts_ok, three_parts, is_ascii, sign,
  decoded_ok, payload_ok, bucket_ok, subject_ok, ref_consumed, expiry_ok, estimate_bucket,
}
use funnelmanager.Runtime.Confirmation.Require.{
  require_confirmation, origin_of, agent_gate, subject_of,
}
use funnelmanager.Runtime.Confirmation.Tests.{platform, environ, token}
use funnelmanager.Runtime.Confirmation.Verify.{joined}
use funnelmanager.Mail.Rows.{
  Campaign, CampaignRecipient, CampaignStatus, Db, MailAccount, Settings, completed, draft,
  get_campaign, is_sent, pending, running, sent, pending_count, edit_campaign,
}
use funnelmanager.Mail.Quota.{get_global_per_domain_cap}
use funnelmanager.Mail.Sources.{Item, no_counts}
use funnelmanager.Mail.Drafts.{CampaignCreate, SourceIn, new_campaign}
use funnelmanager.Mail.Pacer.{accepted, gmail_error, auth_error}
use funnelmanager.Mail.Tick.{Turn}
use funnelmanager.Mail.Send.{Exchange, SendRequest}
use funnelmanager.Mail.Lifecycle.{
  admitted, Caller, GateEnv, is_over, is_draft, launched, start_campaign,
}
use funnelmanager.Mail.Lifecycle.Gate.{Approved, start_campaign_gated}
use funnelmanager.Mail.Runs.{Action, Deployment, World, run}
use funnelmanager.Mail.Cap.{run-Capped}
use funnelmanager.Mail.Cap.Days.{day_count}
use funnelmanager.Mail.Cap.Requests.{Capped}
use funnelmanager.Mail.Once.{Clean, run-Clean}
use funnelmanager.Mail.Once.Reasons.{sends_of, sends_to}
use funnelmanager.Mail.Once.Sends.{Single}
use funnelmanager.Mail.States.{Moves, run-Moves}
use funnelmanager.Mail.Tests.Lower.{ascii_lower, norm_email_twice}

abbrev settings : Settings
settings = record {
  campaign_per_domain_daily_default = 2;
  campaign_sends_per_domain_per_cycle = 1;
  campaign_suppression_cooldown_days = 0;
}

abbrev service : Deployment ℕ
service = record {
  settings = settings;
  lower = ascii_lower;
  valid = has_char b'@';
  archived = λ id. none;
  platform = platform;
  env = record { now = 90; environ = environ; threshold = 10; principal = none };
}

abbrev mailbox : ℕ → String → MailAccount
mailbox id domain = record {
  id = id;
  email = codes "al@x.y";
  display_name = [];
  domain = codes domain;
  connected_by = codes "al";
  status = codes "active";
  last_error = [];
}

abbrev item : String → Item
item email = record { email = codes email; apollo_id = []; name = [] }

abbrev items : List Item
items = item "Bo@x.y" ∷ item " bo@x.y" ∷ item "cy@x.y" ∷ item "none" ∷ item "di@x.y" ∷ []

abbrev plan : CampaignCreate
plan = record {
  owner = codes "al";
  origin = codes "user";
  actor = codes "ui";
  name = codes "spring";
  subject = codes "hello";
  body_text = [];
  body_html = [];
  send_strategy = codes "balanced";
  sources = record { search_id = []; label = []; recipients = items } ∷ [];
}

abbrev al : Caller
al = record {
  username = codes "al";
  origin = codes "user";
  confirm = false;
  confirm_token = none;
  human_approval = none;
}

abbrev empty_db : Db
empty_db = record {
  campaigns = [];
  sources = [];
  recipients = [];
  messages = [];
  accounts = mailbox 1 "x.y" ∷ mailbox 2 "z.y" ∷ [];
  cap_row = none;
}

abbrev world : World
world = record { db = empty_db; now = 1000 }

abbrev turn : Turn
turn = record { before_check = 1; before_send = 1; reply = accepted (codes "g") (codes "t") }

abbrev note : SendRequest
note = record { to = codes "Ed@x.y" ∷ []; cc = []; bcc = []; reply_to_message_id = none }

abbrev exchange : Exchange
exchange = record { elapsed = 5; send = ok (codes "h"); get_message = ok (codes "h", codes "u") }

abbrev day : List (ℕ × Action)
day =
    (1, Action.creates plan)
    ∷ (1, Action.starts al 1)
    ∷ (60, Action.ticks 1 (turn ∷ turn ∷ turn ∷ []))
    ∷ (60, Action.sends (mailbox 1 "x.y") note exchange)
    ∷ (60, Action.sends (mailbox 1 "x.y") note exchange)
    ∷ (60, Action.ticks 1 (turn ∷ turn ∷ turn ∷ []))
    ∷ (60, Action.caps 1)
    ∷ []

day_end : map (λ c. c.status) (run service world day).db.campaigns ≡ completed ∷ []
unfolding run strip has_char text_eq require_confirmation
day_end = refl

day_sent : count is_sent (run service world day).db.messages ≡ 4
unfolding run strip has_char text_eq require_confirmation
day_sent = refl

empty-Capped : Capped 2 settings empty_db 1000
unfolding day_count get_global_per_domain_cap
empty-Capped = record { dated = tt; days = λ k d. omega arith; limit = omega arith }

run-Capped_example : Capped 2 settings (run service world day).db (run service world day).now
run-Capped_example =
    run-Capped service 2 day world
      (tt, (tt, (tt, (tt, (tt, (tt, ((omega arith, omega arith), tt))))))) empty-Capped

empty-Clean : Clean settings ascii_lower empty_db
unfolding sends_of sends_to
empty-Clean = record {
  single = record { timed = tt; campaign = λ c e. omega arith; person = λ z e. omega arith };
  normal = tt;
}

run-Clean_example : Clean settings ascii_lower (run service world day).db
run-Clean_example = run-Clean service norm_email_twice day world empty-Clean

-- A campaign that runs, with two recipients to send to.
abbrev spring : Campaign
spring = record (new_campaign 1 plan) { status = running }

abbrev recipient : ℕ → String → CampaignRecipient
recipient id email = record {
  id = id;
  campaign_id = 1;
  source_id = none;
  email = codes email;
  apollo_id = [];
  name = [];
  status = pending;
  suppressed_reason = [];
}

abbrev spring_db : Db
spring_db = record empty_db {
  campaigns = spring ∷ [];
  recipients = recipient 1 "bo@x.y" ∷ recipient 2 "cy@x.y" ∷ [];
}

abbrev stop : List (ℕ × Action)
stop = (60, Action.ticks 1 (turn ∷ [])) ∷ (60, Action.cancels 1) ∷ (60, Action.starts al 1) ∷ []

spring_found : get_campaign spring_db.campaigns 1 ≡ some spring
unfolding get_campaign
spring_found = refl

run-Moves_example :
    (d : Campaign) × (get_campaign
        (run service (record { db = spring_db; now = 1000 }) stop).db.campaigns
        1
      ≡ some d)
    × Moves running d.status
    × (is_over running ≡ true → d.status ≡ running)
run-Moves_example =
    run-Moves service stop (record { db = spring_db; now = 1000 }) 1 spring spring_found

-- The approval of a human for the start of campaign 1 with two recipients.
abbrev start_payload : Json ℕ
start_payload = obj (
    fields (
      (codes "action", text (codes "mail_campaign_start:1"))
      ∷ (codes "bucket", num 2)
      ∷ (codes "exp", num 100)
      ∷ (codes "ref", text (codes "r"))
      ∷ (codes "sub", text (codes "al"))
      ∷ []))

abbrev agent_platform : Platform ℕ
agent_platform = record platform { loads = λ s. some start_payload }

abbrev agent_env : GateEnv ℕ
agent_env = record { now = 90; environ = environ; threshold = 1; principal = none }

abbrev agent : Caller
agent = record al { origin = codes "agent"; human_approval = some token }

abbrev draft_db : Db
draft_db = record spring_db { campaigns = new_campaign 1 plan ∷ [] }

agent_starts :
    start_campaign agent_platform agent_env agent 1 draft_db
    ≡ ok (edit_campaign 1 launched draft_db)
unfolding start_campaign strip require_confirmation text_eq origin_of agent_gate
    verify_human_approval approval_secret parts_ok three_parts has_char after before is_ascii sign
    decoded_ok payload_ok Dicts.get bucket_ok subject_ok ref_consumed expiry_ok estimate_bucket
    subject_of admitted
agent_starts = refl

start_campaign_gated_example :
    (c : Campaign) × (get_campaign draft_db.campaigns 1 ≡ some c)
    × (is_over c.status ≡ false)
    × (is_draft c.status ≡ true
        → (0 < pending_count draft_db c.id) × (non_empty (strip c.subject) ≡ true))
    × (edit_campaign 1 launched draft_db ≡ edit_campaign c.id launched draft_db)
    × (text_eq agent.origin (codes "agent") ≡ true
        → leb (pending_count draft_db c.id) 1 ≡ false
        → Approved agent_platform agent_env agent
            (codes "mail_campaign_start:" ++ agent_platform.show_int (pos c.id))
            (pending_count draft_db c.id))
start_campaign_gated_example =
    start_campaign_gated agent_platform agent_env agent 1 draft_db
      (edit_campaign 1 launched draft_db) agent_starts
