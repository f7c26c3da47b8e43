-- ===== src/Mail/Suppression.antt =====
-- mail/app/campaigns.py: who has been contacted. `lower` is `str.lower`.
use funnelmanager.Prelude.{
  Bool, List, Option, Text, [], any, codes, count, false, if◌then◌else◌, leb, ltb, non_empty, none,
  some, strip, text_eq, true, ℕ, ◌&&◌, ◌*◌, ◌-◌, ◌==◌, ◌∷◌,
}
use funnelmanager.Mail.Rows.{Settings, CampaignMessage, Db, is_sent}

-- One day, in microseconds.
abbrev pub day_us : ℕ
day_us = 86400000000

-- `_norm_email`
unfoldable pub norm_email : (Text → Text) → Text → Text
norm_email lower value = lower (strip value)

-- `sent_at >= n` in SQL, which a missing time is not
abbrev pub at_least : Option ℕ → ℕ → Bool
at_least none n = false
at_least (some t) n = leb n t

-- The condition on the time of a contact: none where the cooldown is 0.
unfoldable pub in_window : Settings → ℕ → CampaignMessage → Bool
in_window settings now m =
    let cooldown = settings.campaign_suppression_cooldown_days in
    if ltb 0 cooldown then at_least m.sent_at (now - cooldown * day_us) else true

abbrev pub to_person : Text → CampaignMessage → Bool
to_person email m = is_sent m && text_eq m.person_email email

abbrev pub of_campaign : ℕ → CampaignMessage → Bool
of_campaign campaign_id m = elim m.campaign_id [ none ↦ false | some c ↦ c == campaign_id ]

-- `max(a, b)`, where a missing one does not count, as in SQL
abbrev pub newer : Option ℕ → Option ℕ → Option ℕ
newer none b = b
newer (some s) none = some s
newer (some s) (some t) = if ltb s t then some t else some s

-- `SELECT max(sent_at) … WHERE p`
unfoldable pub newest : (CampaignMessage → Bool) → List CampaignMessage → Option ℕ
newest p [] = none
newest p (m ∷ ms) = let rest = newest p ms in if p m then newer m.sent_at rest else rest

-- `_contacted_globally`
unfoldable pub contacted_globally : Settings → ℕ → Db → Text → Option ℕ
unfolding newest in_window
contacted_globally settings now db email =
    newest (λ m. to_person email m && in_window settings now m) db.messages

-- `_already_sent_in_campaign`
unfoldable pub already_sent_in_campaign : Db → ℕ → Text → Bool
already_sent_in_campaign db campaign_id email =
    ltb 0 (count (λ m. of_campaign campaign_id m && to_person email m) db.messages)

unfoldable pub suppression_reason : Settings → ℕ → Db → ℕ → Text → Text
unfolding already_sent_in_campaign contacted_globally
suppression_reason settings now db campaign_id email =
    if already_sent_in_campaign db campaign_id email
    then codes "already_sent_in_campaign"
    else elim (contacted_globally settings now db email) [
      | some _ ↦ codes "globally_contacted"
      | none ↦ []
    ]

-- `e in es`, also of a set
abbrev pub in_set : Text → List Text → Bool
in_set e es = any (text_eq e) es

-- `{e for e in … if e}`: the addresses of the messages that pass a test. A set is a list here.
unfoldable pub persons : (CampaignMessage → Bool) → List CampaignMessage → List Text
persons p [] = []
persons p (m ∷ ms) =
    let rest = persons p ms in
    if p m && non_empty m.person_email then m.person_email ∷ rest else rest

-- `_sent_in_campaign_set`
unfoldable pub sent_in_campaign_set : Db → ℕ → List Text → List Text
unfolding persons
sent_in_campaign_set db campaign_id emails =
    persons (λ m. of_campaign campaign_id m && is_sent m && in_set m.person_email emails)
      db.messages

-- `_contacted_set`
unfoldable pub contacted_set : Settings → ℕ → Db → List Text → List Text
unfolding persons in_window
contacted_set settings now db emails =
    persons (λ m. is_sent m && in_set m.person_email emails && in_window settings now m) db.messages
