-- ===== src/Mail/Lifecycle.antt =====
-- mail/app/routers/mail.py: the start, the growth, the pause and the end of a campaign. `p` is what the gate
-- calls of Python, and `env` is what it reads of the process.
pub mod Gate
use funnelmanager.Prelude.{
  Bool, List, Option, Result, Text, [], codes, err, false, if◌then◌else◌, non_empty, none, not, ok,
  some, strip, text_eq, true, ℕ, ◌&&◌, ◌++◌, ◌==◌, ◌||◌,
}
use funnelmanager.Prelude.Int.{pos}
use funnelmanager.Runtime.Confirmation.{Platform, Principal}
use funnelmanager.Runtime.Confirmation.Require.{Request, Verdict, proceed, require_confirmation}
use funnelmanager.Mail.Rows.{
  Campaign, CampaignStatus, Db, Settings, cancelled, completed, draft, edit_campaign,
  edit_campaigns, get_campaign, is_running, paused, pending_count, running,
}
use funnelmanager.Mail.Quota.{campaign_send_volume}
use funnelmanager.Mail.Sources.{Counts, Item, add_source}
use funnelmanager.Mail.Drafts.{CampaignUpdate, HttpException, http, update_campaign}

-- What leaves a handler: an HTTPException, or an exception of the gate.
pub data Refusal (N : Type 0) : Type 0 where
  raised : HttpException → Refusal N
  gated : Verdict N → Refusal N

-- What the gate reads: the time, the environment, the threshold and the principal.
pub record GateEnv (N : Type 0) : Type 0 where
  pub now : N
  pub environ : Text → Option Text
  pub threshold : N
  pub principal : Option Principal

-- The caller: the user, and what the request says to the gate.
pub record Caller : Type 0 where
  pub username : Text
  pub origin : Text
  pub confirm : Bool
  pub confirm_token : Option Text
  pub human_approval : Option Text

abbrev pub is_over : CampaignStatus → Bool
is_over completed = true
is_over cancelled = true
is_over _ = false

abbrev pub is_draft : CampaignStatus → Bool
is_draft draft = true
is_draft _ = false

abbrev pub is_paused : CampaignStatus → Bool
is_paused paused = true
is_paused _ = false

-- `_get_campaign`
abbrev pub with_campaign {ℓ} :
    {N : Type 0} {A : Type ℓ} → ℕ → Db → (Campaign → Result (Refusal N) A) → Result (Refusal N) A
with_campaign id db k = elim (get_campaign db.campaigns id) [
  | none ↦ err (raised (http 404))
  | some c ↦ k c
]

abbrev pub launched : Campaign → Campaign
launched c = record c { status = running; last_error = [] }

-- What the gate lets through, or its exception.
unfoldable pub admitted {ℓ} : {N : Type 0} {A : Type ℓ} → Verdict N → A → Result (Refusal N) A
admitted (proceed estimate) a = ok a
admitted v a = err (gated v)

module _ {N : Type 0} (p : Platform N) (env : GateEnv N) where
  abbrev pub gate_request : Caller → ℕ → Text → Text → Request N
  gate_request caller estimate action message = record {
    estimate = p.of_int (pos estimate);
    threshold = env.threshold;
    confirm = caller.confirm;
    confirm_token = caller.confirm_token;
    unit = codes "recipients";
    action = action;
    message = some message;
    meta = none;
    verify_token = false;
    human_approval = caller.human_approval;
    secret = none;
    consumed = none;
  }

  abbrev pub ask : Caller → Request N → Verdict N
  ask caller r =
      require_confirmation p env.now env.environ env.principal (some caller.origin)
        (some caller.username) r

  abbrev pub start_request : Caller → Campaign → ℕ → Request N
  start_request caller c n =
      gate_request caller n (codes "mail_campaign_start:" ++ p.show_int (pos c.id)) (
        codes "Campaign '"
        ++ (c.name
            ++ (codes "' will message "
                ++ (p.show_int (pos n) ++ codes " recipients; confirm to launch."))))

  abbrev pub grow_request : Caller → Campaign → ℕ → Request N
  grow_request caller c n =
      gate_request caller n (codes "mail_campaign_grow:" ++ p.show_int (pos c.id)) (
        codes "Continuing campaign '"
        ++ (c.name
            ++ (codes "' would grow it to "
                ++ (p.show_int (pos n) ++ codes " recipients (cumulative); confirm to proceed."))))

  -- `gate_and_start_campaign`
  unfoldable pub gate_and_start_campaign : Caller → Campaign → Db → Result (Refusal N) Db
  unfolding pending_count edit_campaigns admitted
  gate_and_start_campaign caller c db =
      let n = pending_count db c.id in
      if is_over c.status
      then err (raised (http 409))
      else if is_draft c.status && (n == 0 || not (non_empty (strip c.subject)))
      then err (raised (http 422))
      else admitted (ask caller (start_request caller c n)) (edit_campaign c.id launched db)

  -- `start_campaign` and `resume_campaign`
  unfoldable pub start_campaign : Caller → ℕ → Db → Result (Refusal N) Db
  unfolding get_campaign gate_and_start_campaign
  start_campaign caller id db = with_campaign id db (λ c. gate_and_start_campaign caller c db)

  unfoldable pub resume_campaign : Caller → ℕ → Db → Result (Refusal N) Db
  unfolding get_campaign gate_and_start_campaign
  resume_campaign caller id db = with_campaign id db (λ c.
      if is_paused c.status then gate_and_start_campaign caller c db else err (raised (http 409)))

  -- `add_campaign_source` with `gate_and_add_source`, which is rolled back where the gate raises
  unfoldable pub add_campaign_source :
      Settings
      → (Text → Text)
      → Caller
      → ℕ
      → ℕ
      → Text
      → Text
      → List Item
      → Db
      → Result (Refusal N) (Db × Counts)
  unfolding get_campaign add_source campaign_send_volume admitted
  add_campaign_source settings lower caller now id search_id label recipients db =
      with_campaign id db (λ c.
        let grown =
          add_source settings lower now c.id search_id label caller.username recipients db in
        admitted (ask caller (grow_request caller c (campaign_send_volume grown.0 c.id))) grown)

module _ {N : Type 0} where
  unfoldable pub pause_campaign : ℕ → Db → Result (Refusal N) Db
  unfolding get_campaign edit_campaigns
  pause_campaign id db = with_campaign id db (λ c.
      ok (
        if is_running c.status
        then edit_campaign id (λ c. record c { status = paused }) db
        else db))

  unfoldable pub cancel_campaign : ℕ → Db → Result (Refusal N) Db
  unfolding get_campaign edit_campaigns
  cancel_campaign id db = with_campaign id db (λ c.
      ok (
        if is_over c.status
        then db
        else edit_campaign id (λ c. record c { status = cancelled }) db))

  unfoldable pub raise_http : Result HttpException Db → Result (Refusal N) Db
  raise_http (err e) = err (raised e)
  raise_http (ok db) = ok db

  -- `update_campaign` of the router
  unfoldable pub patch_campaign : Text → ℕ → CampaignUpdate → Db → Result (Refusal N) Db
  unfolding get_campaign update_campaign raise_http
  patch_campaign username id body db = with_campaign id db (λ c.
      if text_eq c.owner username
      then if is_draft c.status
        then raise_http (update_campaign id body db)
        else err (raised (http 409))
      else err (raised (http 403)))
