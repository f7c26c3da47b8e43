-- ===== src/Mail/Cap/Days.antt =====
-- The sends of a domain on a day: what mail/app/campaigns.py counts as today's, as long as the log is not
-- ahead of the clock.
use funnelmanager.Prelude.{
  All, All-map, Bool, Bool-cases, List, Option, Text, [], arith, count, count-append, count-same,
  count-zero, false, if◌then◌else◌, inl, inr, none, refl, some, suc, text_eq, text_eq_iff, true, ℕ,
  ◌&&◌, ◌++◌, ◌+◌, ◌/◌, ◌<◌, ◌==◌, ◌∙◌, ◌∷◌, ◌≡◌, ◌≤◌,
}
use funnelmanager.Prelude.Dicts
use funnelmanager.Mail.Rows.{CampaignMessage, is_sent}
use funnelmanager.Mail.Suppression.{day_us}
use funnelmanager.Mail.Quota.{count_by_domain, get_or_0, sent_today}

abbrev pub is_on : ℕ → Option ℕ → Bool
is_on k none = false
is_on k (some t) = t / day_us == k

-- A send of a domain on the day `k`.
abbrev pub on_day : ℕ → Text → CampaignMessage → Bool
on_day k domain m = is_sent m && (text_eq m.domain domain && is_on k m.sent_at)

unfoldable pub day_count : ℕ → Text → List CampaignMessage → ℕ
day_count k domain ms = count (on_day k domain) ms

-- What is sent has a time, which is not past `n`.
abbrev pub IsDated : ℕ → CampaignMessage → Type 0
IsDated n m = is_sent m ≡ true → (t : ℕ) × (m.sent_at ≡ some t) × (t ≤ n)

pub IsDated-later :
    (n k : ℕ) (ms : List CampaignMessage) → n ≤ k → All (IsDated n) ms → All (IsDated k) ms
IsDated-later n k [] l h = tt
IsDated-later n k (m ∷ ms) l h =
    (λ sent. let (t, q, u) = h.0 sent in (t, q, omega arith), IsDated-later n k ms l h.1)

sent_today_day :
    (now : ℕ) (d : Text) (m : CampaignMessage)
    → IsDated now m
    → sent_today now d m ≡ on_day (now / day_us) d m
sent_today_day now d m h = elim (Bool-cases (is_sent m)) [
  | inr n ↦ rw n refl
  | inl y ↦ let (t, q, u) = h y in rw (y, q) (ground arith)
]

pub count-sent_today :
    (now : ℕ) (d : Text) (ms : List CampaignMessage)
    → All (IsDated now) ms
    → count (sent_today now d) ms ≡ day_count (now / day_us) d ms
unfolding day_count
count-sent_today now d ms h =
    count-same (sent_today now d) (on_day (now / day_us) d) ms
      (All-map (λ m. sent_today_day now d m) ms h)

not_on_later :
    (now k : ℕ) (d : Text) (m : CampaignMessage)
    → now / day_us < k
    → IsDated now m
    → on_day k d m ≡ false
not_on_later now k d m l h = elim (Bool-cases (is_sent m)) [
  | inr n ↦ rw n refl
  | inl y ↦ let (t, q, u) = h y in rw (y, q) (ground arith)
]

-- No send is on a later day than the clock.
pub day_count_later :
    (now k : ℕ) (d : Text) (ms : List CampaignMessage)
    → All (IsDated now) ms
    → now / day_us < k
    → day_count k d ms ≡ 0
unfolding day_count
day_count_later now k d ms h l =
    count-zero (on_day k d) ms (All-map (λ m. not_on_later now k d m l) ms h)

-- The grouped count, at a domain.
pub get_or_0-count_by_domain :
    (p : CampaignMessage → Bool) (ms : List CampaignMessage) (d : Text)
    → get_or_0 (count_by_domain p ms) d ≡ count (λ m. p m && text_eq m.domain d) ms
unfolding get_or_0 count_by_domain
get_or_0-count_by_domain p [] d = refl
get_or_0-count_by_domain p (m ∷ ms) d = ground (
  arith,
  Dicts.get-put (count_by_domain p ms) m.domain d (suc (get_or_0 (count_by_domain p ms) m.domain)),
  text_eq_iff m.domain d,
  get_or_0-count_by_domain p ms d,
)

pub day_count-append :
    (k : ℕ) (d : Text) (ms : List CampaignMessage) (m : CampaignMessage)
    → day_count k d (ms ++ m ∷ []) ≡ day_count k d ms + (if on_day k d m then 1 else 0)
unfolding day_count
day_count-append k d ms m = count-append (on_day k d) ms (m ∷ []) ∙ ground arith

pub on_day_unsent :
    (k : ℕ) (d : Text) (m : CampaignMessage) → is_sent m ≡ false → on_day k d m ≡ false
on_day_unsent k d m h = rw h refl

pub on_day_sent :
    (k t : ℕ) (d : Text) (m : CampaignMessage)
    → is_sent m ≡ true
    → m.sent_at ≡ some t
    → on_day k d m ≡ (text_eq m.domain d && t / day_us == k)
on_day_sent k t d m h q = rw (h, q) refl
