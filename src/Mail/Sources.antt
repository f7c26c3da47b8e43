-- ===== src/Mail/Sources.antt =====
-- mail/app/campaigns.py: a campaign and the lists of recipients that feed it.
pub mod Merges
use funnelmanager.Prelude.{
  Bool, List, Text, [], codes, has_char, if◌then◌else◌, length, non_empty, some, suc, ℕ, ◌&&◌, ◌++◌,
  ◌==◌, ◌||◌, ◌∷◌,
}
use funnelmanager.Mail.Rows.{CampaignSource, CampaignRecipient, Db, Settings, suppressed, pending}
use funnelmanager.Mail.Suppression.{norm_email, in_set, sent_in_campaign_set, contacted_set}

-- A recipient as the caller gives it; what it leaves out is empty.
pub record Item : Type 0 where
  pub email : Text
  pub apollo_id : Text
  pub name : Text

pub record Counts : Type 0 where
  pub submitted : ℕ
  pub added : ℕ
  pub duplicate_in_campaign : ℕ
  pub suppressed : ℕ

-- An address of the batch with its item, of which those without an `@` are left out.
unfoldable pub normalized : (Text → Text) → List Item → List (Text × Item)
unfolding norm_email
normalized lower [] = []
normalized lower (item ∷ items) =
    let rest = normalized lower items in
    let email = norm_email lower item.email in
    if non_empty email && has_char b'@' email then (email, item) ∷ rest else rest

-- The loop of `merge_recipients`: the rows that it has added, the addresses seen, and the counts.
pub record Merge : Type 0 where
  pub rows : List CampaignRecipient
  pub seen : List Text
  pub counts : Counts

-- What stays the same in the loop.
pub record Batch : Type 0 where
  pub campaign_id : ℕ
  pub source_id : ℕ
  pub existing : List Text
  pub sent_in_campaign : List Text
  pub globally_contacted : List Text

unfoldable pub merge_reason : Batch → Text → Text
merge_reason b email =
    if in_set email b.sent_in_campaign
    then codes "already_sent_in_campaign"
    else if in_set email b.globally_contacted
    then codes "globally_contacted"
    else []

abbrev pub merged_row : Batch → ℕ → Text → Item → Text → CampaignRecipient
merged_row b id email item reason = record {
  id = id;
  campaign_id = b.campaign_id;
  source_id = some b.source_id;
  email = email;
  apollo_id = item.apollo_id;
  name = item.name;
  status = if non_empty reason then suppressed else pending;
  suppressed_reason = reason;
}

abbrev pub is_known : Batch → Merge → Text → Bool
is_known b s email = in_set email b.existing || in_set email s.seen

-- One pass of the loop.
unfoldable pub merge_one : Batch → Text × Item → Merge → Merge
unfolding merge_reason
merge_one b (email, item) s =
    let reason = merge_reason b email in
    if is_known b s email
    then record s {
      counts = record s.counts {
        submitted = suc s.counts.submitted;
        duplicate_in_campaign = suc s.counts.duplicate_in_campaign;
      };
    }
    else record {
      rows = s.rows ++ merged_row b (suc (length s.rows)) email item reason ∷ [];
      seen = email ∷ s.seen;
      counts = record s.counts {
        submitted = suc s.counts.submitted;
        suppressed = if non_empty reason then suc s.counts.suppressed else s.counts.suppressed;
        added = if non_empty reason then s.counts.added else suc s.counts.added;
      };
    }

unfoldable pub merge_all : Batch → List (Text × Item) → Merge → Merge
unfolding merge_one
merge_all b [] s = s
merge_all b (entry ∷ entries) s = merge_all b entries (merge_one b entry s)

-- The addresses of a campaign's recipients.
unfoldable pub existing_emails : ℕ → List CampaignRecipient → List Text
existing_emails campaign_id [] = []
existing_emails campaign_id (r ∷ rs) =
    let rest = existing_emails campaign_id rs in
    if r.campaign_id == campaign_id then r.email ∷ rest else rest

abbrev pub no_counts : Counts
no_counts = record { submitted = 0; added = 0; duplicate_in_campaign = 0; suppressed = 0 }

unfoldable pub emails_of : List (Text × Item) → List Text
emails_of [] = []
emails_of ((email, item) ∷ entries) = email ∷ emails_of entries

module _ (settings : Settings) (lower : Text → Text) where
  unfoldable pub batch_of : ℕ → Db → ℕ → ℕ → List (Text × Item) → Batch
  unfolding sent_in_campaign_set contacted_set existing_emails emails_of
  batch_of now db campaign_id source_id entries = record {
    campaign_id = campaign_id;
    source_id = source_id;
    existing = existing_emails campaign_id db.recipients;
    sent_in_campaign = sent_in_campaign_set db campaign_id (emails_of entries);
    globally_contacted = contacted_set settings now db (emails_of entries);
  }

  -- `merge_recipients`, for a campaign and a source by their numbers
  unfoldable pub merge_recipients : ℕ → ℕ → ℕ → List Item → Db → Db × Counts
  unfolding merge_all batch_of normalized
  merge_recipients now campaign_id source_id recipients db =
      let entries = normalized lower recipients in
      let done =
        merge_all (batch_of now db campaign_id source_id entries) entries
          (record { rows = db.recipients; seen = []; counts = no_counts }) in
      (record db { recipients = done.rows }, done.counts)

  abbrev pub new_source : Db → ℕ → Text → Text → Text → Counts → CampaignSource
  new_source db campaign_id search_id label added_by counts = record {
    id = suc (length db.sources);
    campaign_id = campaign_id;
    search_id = search_id;
    label = label;
    added_by = added_by;
    recipient_count = counts.submitted;
    added_count = counts.added;
  }

  -- `add_source`
  unfoldable pub add_source : ℕ → ℕ → Text → Text → Text → List Item → Db → Db × Counts
  unfolding merge_recipients
  add_source now campaign_id search_id label added_by recipients db =
      let (merged, counts) =
        merge_recipients now campaign_id (suc (length db.sources)) recipients db in
      (
        record merged {
          sources = db.sources ++ new_source db campaign_id search_id label added_by counts ∷ [];
        },
        counts,
      )
