-- ===== src/Mail/Sources/Merges.antt =====
-- A merge keeps the addresses of a campaign apart, and counts every address (`merge_recipients` of
-- mail/app/campaigns.py, the unique constraint of mail/app/models.py).
use funnelmanager.Prelude.{
  Bool, List, Text, count, false, length, text_eq, ℕ, ◌&&◌, ◌+◌, ◌==◌, ◌≡◌, ◌≤◌,
}
use funnelmanager.Mail.Rows.{CampaignRecipient, Db}
use funnelmanager.Mail.Sources.{Batch, Counts, Merge, is_known}

-- A row of a campaign with an address.
abbrev pub in_pool : ℕ → Text → CampaignRecipient → Bool
in_pool campaign_id email r = r.campaign_id == campaign_id && text_eq r.email email

-- `uq_campaign_recipient_email`
abbrev pub Unique : List CampaignRecipient → Type 0
Unique rows = (c : ℕ) (e : Text) → count (in_pool c e) rows ≤ 1

-- What the loop keeps.
record Merging (b : Batch) (rows : List CampaignRecipient) (n : ℕ) (s : Merge) : Type 0 where
  unique : Unique s.rows
  known : (e : Text) → is_known b s e ≡ false → count (in_pool b.campaign_id e) s.rows ≡ 0
  others :
      (c : ℕ) (e : Text)
      → (c == b.campaign_id) ≡ false
      → count (in_pool c e) s.rows ≡ count (in_pool c e) rows
  counted :
      s.counts.submitted ≡ s.counts.added + s.counts.duplicate_in_campaign + s.counts.suppressed
  submitted : s.counts.submitted ≡ n
  grown : length s.rows ≡ length rows + (s.counts.added + s.counts.suppressed)

-- What a merge comes to: no address stands twice in a campaign, other campaigns keep theirs, each
-- address with an `@` is counted once, as added, as suppressed or as a duplicate, and there is a new row
-- for each that is no duplicate.
pub record Merged (campaign_id n : ℕ) (db db' : Db) (counts : Counts) : Type 0 where
  pub unique : Unique db'.recipients
  pub others :
      (c : ℕ) (e : Text)
      → (c == campaign_id) ≡ false
      → count (in_pool c e) db'.recipients ≡ count (in_pool c e) db.recipients
  pub submitted : counts.submitted ≡ n
  pub counted : counts.submitted ≡ counts.added + counts.duplicate_in_campaign + counts.suppressed
  pub grown : length db'.recipients ≡ length db.recipients + (counts.added + counts.suppressed)
