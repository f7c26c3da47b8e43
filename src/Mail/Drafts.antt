-- ===== src/Mail/Drafts.antt =====
-- mail/app/campaigns.py: the making and the editing of a draft.
use funnelmanager.Prelude.{
  Bool, List, Option, Result, Text, [], any, codes, err, if◌then◌else◌, length, none, ok, some, suc,
  text_eq, ℕ, ◌++◌, ◌∷◌,
}
use funnelmanager.Mail.Rows.{Campaign, Db, Settings, draft, edit_campaign}
use funnelmanager.Mail.Sources.{Item, add_source}

-- An HTTPException, by its status code.
pub data HttpException : Type 0 where
  http : ℕ → HttpException

abbrev pub send_strategies : List Text
send_strategies = codes "balanced" ∷ codes "sequential" ∷ []

-- The body of `POST /campaigns`, and one list of it.
pub record SourceIn : Type 0 where
  pub search_id : Text
  pub label : Text
  pub recipients : List Item

pub record CampaignCreate : Type 0 where
  pub owner : Text
  pub origin : Text
  pub actor : Text
  pub name : Text
  pub subject : Text
  pub body_text : Text
  pub body_html : Text
  pub send_strategy : Text
  pub sources : List SourceIn

-- A partial edit.
pub record CampaignUpdate : Type 0 where
  pub name : Option Text
  pub subject : Option Text
  pub body_text : Option Text
  pub body_html : Option Text
  pub send_strategy : Option Text

-- `_validate_send_strategy`: whether it does not raise
abbrev pub is_send_strategy : Text → Bool
is_send_strategy value = any (text_eq value) send_strategies

abbrev pub new_campaign : ℕ → CampaignCreate → Campaign
new_campaign id body = record {
  id = id;
  owner = body.owner;
  origin = body.origin;
  actor = body.actor;
  name = body.name;
  status = draft;
  send_strategy = body.send_strategy;
  subject = body.subject;
  body_text = body.body_text;
  body_html = body.body_html;
  last_error = [];
}

module _ (settings : Settings) (lower : Text → Text) where
  unfoldable pub add_sources : ℕ → ℕ → Text → List SourceIn → Db → Db
  unfolding add_source
  add_sources now campaign_id owner [] db = db
  add_sources now campaign_id owner (s ∷ ss) db =
      add_sources now campaign_id owner ss
        ((add_source settings lower now campaign_id s.search_id s.label owner s.recipients db).0)

  -- `create_campaign`
  unfoldable pub create_campaign : ℕ → CampaignCreate → Db → Result HttpException Db
  unfolding add_sources
  create_campaign now body db =
      let id = suc (length db.campaigns) in
      if is_send_strategy body.send_strategy
      then ok (
          add_sources now id body.owner body.sources
            (record db { campaigns = db.campaigns ++ new_campaign id body ∷ [] }))
      else err (http 422)

-- `new if new is not None else old`
abbrev or_keep {ℓ} : {A : Type ℓ} → Option A → A → A
or_keep none old = old
or_keep (some new) old = new

unfoldable pub edited : CampaignUpdate → Campaign → Campaign
edited body c = record c {
  send_strategy = or_keep body.send_strategy c.send_strategy;
  name = or_keep body.name c.name;
  subject = or_keep body.subject c.subject;
  body_text = or_keep body.body_text c.body_text;
  body_html = or_keep body.body_html c.body_html;
}

-- `update_campaign` of campaigns.py
unfoldable pub update_campaign : ℕ → CampaignUpdate → Db → Result HttpException Db
unfolding edited
update_campaign campaign_id body db =
    let done = ok (edit_campaign campaign_id (edited body) db) in
    elim body.send_strategy [
      | none ↦ done
      | some value ↦ if is_send_strategy value then done else err (http 422)
    ]
