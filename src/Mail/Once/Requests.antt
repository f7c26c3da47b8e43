-- ===== src/Mail/Once/Requests.antt =====
-- The requests to the service keep what the log says of each person (mail/app/campaigns.py,
-- mail/app/routers/mail.py).
use funnelmanager.Prelude.{
  All, All-append, Bool-cases, List, Text, [], arith, codes, count, false, has_char, if◌then◌else◌,
  inl, inr, length, ltb, map, non_empty, none, not, refl, some, text_eq, text_eq_iff, text_eq_refl,
  true, ℕ, ◌&&◌, ◌+◌, ◌∷◌, ◌≡◌, ◌≤◌, ◌⊎◌,
}
use funnelmanager.Mail.Rows.{Db, MailAccount, Settings}
use funnelmanager.Mail.Suppression.{contacted_set, in_set, norm_email}
use funnelmanager.Mail.Quota.{
  direct_message, enforce_direct_send, get_global_per_domain_cap, global_domain_sent_today, is_nil,
  normalized_set, record_direct_send,
}
use funnelmanager.Mail.Sources.{
  Batch, Item, Merge, add_source, is_known, merge_all, merge_one, merge_recipients, no_counts,
  normalized,
}
use funnelmanager.Mail.Drafts.{http}
use funnelmanager.Mail.Changes.{Change}
use funnelmanager.Mail.Once.Reasons.{IsTimed, contacted-nil, sends_of, sends_to}
use funnelmanager.Mail.Once.Sends.{IsNormal, Single, sends_of-append, sends_to-append}

-- The rows of a send outside campaigns.
direct_to :
    (now : ℕ) (a : MailAccount) (i t : Text) (ns : List Text) (e : Text)
    → sends_to e (map (direct_message now a i t) ns) ≡ count (λ n. text_eq n e) ns
unfolding sends_to
direct_to now a i t [] e = refl
direct_to now a i t (n ∷ ns) e =
    ground (arith, direct_to now a i t ns e, text_eq_refl (codes "sent"))

direct_of :
    (now : ℕ) (a : MailAccount) (i t : Text) (ns : List Text) (c : ℕ) (e : Text)
    → sends_of c e (map (direct_message now a i t) ns) ≡ 0
unfolding sends_of
direct_of now a i t [] c e = refl
direct_of now a i t (n ∷ ns) c e = direct_of now a i t ns c e

direct-IsTimed :
    (now : ℕ) (a : MailAccount) (i t : Text) (ns : List Text)
    → All IsTimed (map (direct_message now a i t) ns)
direct-IsTimed now a i t [] = tt
direct-IsTimed now a i t (n ∷ ns) = ((λ y. (now, refl)), direct-IsTimed now a i t ns)

not_in : (e : Text) (ns : List Text) → in_set e ns ≡ false → count (λ n. text_eq n e) ns ≡ 0
not_in e [] h = refl
not_in e (n ∷ ns) h = ground (arith, not_in e ns, text_eq_iff n e, text_eq_iff e n)

-- An address stands once in the set of a request, and is not empty.
normalized_once :
    (lower : Text → Text) (es : List Text) (e : Text)
    → (count (λ n. text_eq n e) (normalized_set lower es) ≤ 1)
      × ((non_empty e ≡ false) → count (λ n. text_eq n e) (normalized_set lower es) ≡ 0)
unfolding normalized_set
normalized_once lower [] e = (omega arith, λ h. refl)
normalized_once lower (x ∷ es) e =
    let ih = normalized_once lower es e in
    let n = norm_email lower x in
    let rest = normalized_set lower es in
    elim (Bool-cases (non_empty n && not (in_set n rest))) [
      | inr m ↦ rw m ih
      | inl y ↦ rw y (
        ground (arith, not_in n rest, text_eq_iff n e, ih.0),
        λ h. ground (arith, ih.1 h, text_eq_iff n e),
      )
    ]

module _ (settings : Settings) (lower : Text → Text) where
  -- Whom the guards let pass outside campaigns.
  enforce_fresh :
      (now : ℕ) (db : Db) (a : MailAccount) (es : List Text) (e : Text)
      → enforce_direct_send settings lower now db a es ≡ none
      → settings.campaign_suppression_cooldown_days ≡ 0
      → (count (λ n. text_eq n e) (normalized_set lower es) ≡ 0) ⊎ (sends_to e db.messages ≡ 0)
  unfolding enforce_direct_send
  enforce_fresh now db a es e h z =
      let ns = normalized_set lower es in
      elim (Bool-cases (in_set e ns)) [
        | inr m ↦ inl (not_in e ns m)
        | inl i ↦ elim (Bool-cases (non_empty e)) [
          | inr m ↦ inl ((normalized_once lower es e).1 m)
          | inl f ↦ elim (Bool-cases (is_nil (contacted_set settings now db ns))) [
            | inl y ↦ inr (contacted-nil settings now db ns e z y i f)
            | inr m ↦ absurd (blocked ns i m h)
          ]
        ]
      ]
    where
      blocked :
          (ns : List Text)
          → in_set e ns ≡ true
          → is_nil (contacted_set settings now db ns) ≡ false
          → (if is_nil ns
              then none
              else if not (is_nil (contacted_set settings now db ns))
              then some (http 409)
              else if ltb
                  (get_global_per_domain_cap settings db)
                  (global_domain_sent_today now db a.domain + length ns)
              then some (http 429)
              else none)
            ≡ none
          → ⊥
      blocked [] i m h = cc
      blocked (n ∷ ns) i m h = ground arith

  pub record_Single :
      (now at : ℕ) (a : MailAccount) (es : List Text) (i t : Text) (db : Db)
      → enforce_direct_send settings lower now db a es ≡ none
      → Single settings db.messages
      → Single settings (record_direct_send lower at a es i t db).messages
  unfolding record_direct_send
  record_Single now at a es i t db g s =
      let ns = normalized_set lower es in
      let rows = map (direct_message at a i t) ns in
      record {
        timed = All-append IsTimed db.messages rows s.timed (direct-IsTimed at a i t ns);
        campaign = λ c e.
            rw (sends_of-append c e db.messages rows, direct_of at a i t ns c e)
              (omega (arith, s.campaign c e));
        person = λ z e.
            rw (sends_to-append e db.messages rows, direct_to at a i t ns e)
              (ground (
                arith,
                s.person z e,
                (normalized_once lower es e).0,
                enforce_fresh now db a es e g z,
              ));
      }

  merge_one-IsNormal :
      (b : Batch) (email : Text) (x : Item) (s : Merge)
      → norm_email lower email ≡ email
      → All (IsNormal lower) s.rows
      → All (IsNormal lower) (merge_one b (email, x) s).rows
  unfolding merge_one
  merge_one-IsNormal b email x s q h = elim (Bool-cases (is_known b s email)) [
    | inl y ↦ rw y h
    | inr n ↦ rw n (All-append (IsNormal lower) s.rows _ h (q, tt))
  ]

  -- The merge of a list of recipients.
  module _ (again : (v : Text) → norm_email lower (norm_email lower v) ≡ norm_email lower v) where
    merge_all-IsNormal :
        (b : Batch) (items : List Item) (s : Merge)
        → All (IsNormal lower) s.rows
        → All (IsNormal lower) (merge_all b (normalized lower items) s).rows
    unfolding merge_all normalized merge_one
    merge_all-IsNormal b [] s h = h
    merge_all-IsNormal b (x ∷ items) s h =
        let email = norm_email lower x.email in
        elim (Bool-cases (non_empty email && has_char b'@' email)) [
          | inr n ↦ rw n (merge_all-IsNormal b items s h)
          | inl y ↦ rw y (
              merge_all-IsNormal b items (merge_one b (email, x) s)
                (merge_one-IsNormal b email x s (again x.email) h))
        ]

    pub Change-IsNormal :
        (a b : Db)
        → Change settings lower a b
        → All (IsNormal lower) a.recipients
        → All (IsNormal lower) b.recipients
    unfolding add_source merge_recipients
    Change-IsNormal a b Change.stays h = h
    Change-IsNormal a b (Change.edits c f q m k) h = h
    Change-IsNormal a b (Change.drafts c q) h = h
    Change-IsNormal a b (Change.grown now id x y z items) h =
        merge_all-IsNormal _ items (record { rows = a.recipients; seen = []; counts = no_counts }) h
    Change-IsNormal a b (Change.chain {a = m} p q) h =
        Change-IsNormal m b q (Change-IsNormal a m p h)
