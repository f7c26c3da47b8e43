-- ===== src/Mail/Once/Reasons.antt =====
-- Whoever is not suppressed has not been sent to (`suppression_reason` and `_contacted_set` of
-- mail/app/campaigns.py).
use funnelmanager.Prelude.{
  All, All-In, All-map, Bool, Bool-cases, List, Option, Option-cases, Text, [], arith, count,
  count-same, count-zero, false, inl, inr, ltb, non_empty, none, refl, some, text_eq_iff, true, ℕ,
  ◌&&◌, ◌∙◌, ◌∷◌, ◌≡◌,
}
use funnelmanager.Mail.Rows.{CampaignMessage, Db, Settings, is_sent}
use funnelmanager.Mail.Quota.{is_nil}
use funnelmanager.Mail.Suppression.{
  already_sent_in_campaign, contacted_globally, contacted_set, in_set, in_window, newer, newest,
  of_campaign, persons, suppression_reason, to_person,
}

-- What is sent has a time.
abbrev pub IsTimed : CampaignMessage → Type 0
IsTimed m = is_sent m ≡ true → (t : ℕ) × (m.sent_at ≡ some t)

-- The sends to a person, and those of a campaign to a person.
unfoldable pub sends_to : Text → List CampaignMessage → ℕ
sends_to email ms = count (to_person email) ms

unfoldable pub sends_of : ℕ → Text → List CampaignMessage → ℕ
sends_of campaign_id email ms = count (λ m. of_campaign campaign_id m && to_person email m) ms

newer_some : (t : ℕ) (o : Option ℕ) → (n : ℕ) × (newer (some t) o ≡ some n)
newer_some t none = (t, refl)
newer_some t (some u) = elim (Bool-cases (ltb t u)) [
  | inl y ↦ (u, rw y refl)
  | inr n ↦ (t, rw n refl)
]

newest-none :
    (p : CampaignMessage → Bool) (ms : List CampaignMessage)
    → All (λ m. p m ≡ true → (t : ℕ) × (m.sent_at ≡ some t)) ms
    → newest p ms ≡ none
    → count p ms ≡ 0
unfolding newest
newest-none p [] k h = refl
newest-none p (m ∷ ms) k h = elim (Bool-cases (p m)) [
  | inr n ↦ ground (arith, newest-none p ms k.1)
  | inl y ↦ let (t, q) = k.0 y in let (n, e) = newer_some t (newest p ms) in ground arith
]

-- With no cooldown, the window is all of the past.
in_window_forever :
    (settings : Settings) (now : ℕ) (m : CampaignMessage)
    → settings.campaign_suppression_cooldown_days ≡ 0
    → in_window settings now m ≡ true
unfolding in_window
in_window_forever settings now m z = ground arith

module _ (settings : Settings) (now : ℕ) (db : Db) where
  pub reason_campaign :
      (campaign_id : ℕ) (email : Text)
      → non_empty (suppression_reason settings now db campaign_id email) ≡ false
      → sends_of campaign_id email db.messages ≡ 0
  unfolding suppression_reason already_sent_in_campaign sends_of
  reason_campaign campaign_id email h =
      elim (Bool-cases (already_sent_in_campaign db campaign_id email)) [
        | inl y ↦ ground arith
        | inr n ↦ ground arith
      ]

  pub reason_person :
      (campaign_id : ℕ) (email : Text)
      → settings.campaign_suppression_cooldown_days ≡ 0
      → All IsTimed db.messages
      → non_empty (suppression_reason settings now db campaign_id email) ≡ false
      → sends_to email db.messages ≡ 0
  unfolding suppression_reason contacted_globally sends_to
  reason_person campaign_id email z k h =
      let p : CampaignMessage → Bool = λ m. to_person email m && in_window settings now m in
      let never : newest p db.messages ≡ none = elim (Option-cases (newest p db.messages)) [
        | inl n ↦ n
        | inr (t, q) ↦ elim (Bool-cases (already_sent_in_campaign db campaign_id email)) [
          | inl y ↦ ground arith
          | inr n ↦ ground arith
        ]
      ] in
      count-same (to_person email) p db.messages
        (All-In _ db.messages (λ m i. ground (arith, in_window_forever settings now m z)))
      ∙ newest-none p db.messages (All-map (λ m f y. f (ground arith)) db.messages k) never

  in_set_persons :
      (p : CampaignMessage → Bool) (ms : List CampaignMessage)
      → is_nil (persons p ms) ≡ true
      → All (λ m. (p m && non_empty m.person_email) ≡ false) ms
  unfolding persons
  in_set_persons p [] h = tt
  in_set_persons p (m ∷ ms) h = (ground arith, in_set_persons p ms (ground arith))

  -- Where nobody of a list is contacted, with no cooldown.
  pub contacted-nil :
      (emails : List Text) (email : Text)
      → settings.campaign_suppression_cooldown_days ≡ 0
      → is_nil (contacted_set settings now db emails) ≡ true
      → in_set email emails ≡ true
      → non_empty email ≡ true
      → sends_to email db.messages ≡ 0
  unfolding contacted_set sends_to
  contacted-nil emails email z h i e = count-zero (to_person email) db.messages (
      All-map
        (λ m f.
          ground (arith, in_window_forever settings now m z, text_eq_iff m.person_email email))
        db.messages (in_set_persons _ db.messages h))
