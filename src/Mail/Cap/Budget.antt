-- ===== src/Mail/Cap/Budget.antt =====
-- The budget of a cycle leaves a domain within the cap (`_budget` of mail/app/campaigns.py), and the pacer
-- takes a domain of which some is left.
use funnelmanager.Prelude.{
  All, All-In, All-append, Bool, Bool-cases, In, List, Option, Text, [], arith, count, count-same,
  if◌then◌else◌, inl, inr, keep, ltb, ltb→lt, non_empty, none, refl, some, text_eq, text_eq_iff,
  true, ℕ, ◌&&◌, ◌++◌, ◌-◌, ◌<◌, ◌∙◌, ◌∷◌, ◌≡◌, ◌≤◌,
}
use mathlib.Core.Path.{subst}
use funnelmanager.Prelude.Dicts
use funnelmanager.Prelude.Dicts.{Dict}
use funnelmanager.Mail.Rows.{Db, MailAccount, Settings, is_sent}
use funnelmanager.Mail.Suppression.{at_least, in_set}
use funnelmanager.Mail.Quota.{
  domains_sent_today, get_global_per_domain_cap, get_or_0, sent_today, today_start,
}
use funnelmanager.Mail.Pacer.{
  balanced_budget, budget_of, group_by_domain, is_sequential, max_by, min, pick_domain,
  sequential_budget,
}
use funnelmanager.Mail.Cap.Days.{get_or_0-count_by_domain}

pub get_or_0-put :
    (b : Dict ℕ) (k d : Text) (v : ℕ)
    → get_or_0 (Dicts.put b k v) d ≡ (if text_eq k d then v else get_or_0 b d)
unfolding get_or_0
get_or_0-put b k d v = ground (arith, Dicts.get-put b k d v)

in_set-In : (d : Text) (ds : List Text) → In d ds → in_set d ds ≡ true
in_set-In d [] i = elim i [ ]
in_set-In d (e ∷ ds) (inl q) = ground (arith, text_eq_iff d e)
in_set-In d (e ∷ ds) (inr i) = ground (arith, in_set-In d ds i)

module _ (cap : ℕ) (sent : Dict ℕ) (per_cycle : ℕ) (used : Text → ℕ) where
  sequential_within :
      (ds : List Text)
      → All (λ x. get_or_0 sent x ≡ used x) ds
      → (d : Text) → get_or_0 (sequential_budget cap sent per_cycle ds) d ≤ cap - used d
  unfolding sequential_budget get_or_0 Dicts.get
  sequential_within [] h d = omega arith
  sequential_within (x ∷ ds) h d = ground (arith, sequential_within ds h.1 d, text_eq_iff x d, h.0)

  balanced_within :
      (ds : List Text) (b : Dict ℕ)
      → All (λ x. get_or_0 sent x ≡ used x) ds
      → ((d : Text) → get_or_0 b d ≤ cap - used d)
      → (d : Text) → get_or_0 (balanced_budget cap sent per_cycle ds b) d ≤ cap - used d
  unfolding balanced_budget
  balanced_within [] b h k d = k d
  balanced_within (x ∷ ds) b h k d =
      balanced_within ds _ h.1
        (λ e. elim (Bool-cases (ltb 0 (cap - get_or_0 sent x))) [
          | inl y ↦
              rw (y, get_or_0-put b x e (min (cap - get_or_0 sent x) per_cycle))
                (ground (arith, text_eq_iff x e, k e, h.0))
          | inr n ↦ rw n (k e)
        ])
        d

-- The count of today's sends, at a domain that is asked for.
get_or_0-domains_sent_today :
    (now : ℕ) (db : Db) (ds : List Text) (d : Text)
    → in_set d ds ≡ true
    → get_or_0 (domains_sent_today now db ds) d ≡ count (sent_today now d) db.messages
unfolding domains_sent_today
get_or_0-domains_sent_today now db ds d h =
    get_or_0-count_by_domain
      (λ m. is_sent m && at_least m.sent_at (today_start now) && in_set m.domain ds) db.messages d
    ∙ count-same _ (sent_today now d) db.messages
        (All-In _ db.messages (λ m i. ground (arith, text_eq_iff m.domain d)))

pub budget_of_within :
    (settings : Settings) (now : ℕ) (db : Db) (strategy : Text) (ds : List Text) (d : Text)
    → get_or_0 (budget_of settings now db strategy ds) d
      ≤ get_global_per_domain_cap settings db - count (sent_today now d) db.messages
unfolding budget_of get_or_0 Dicts.get
budget_of_within settings now db strategy ds d =
    let known =
      All-In (λ x. get_or_0 (domains_sent_today now db ds) x ≡ count (sent_today now x) db.messages)
        ds (λ x i. get_or_0-domains_sent_today now db ds x (in_set-In x ds i)) in
    elim (Bool-cases (is_sequential strategy)) [
      | inl y ↦
          rw y (sequential_within _ _ _ (λ x. count (sent_today now x) db.messages) ds known d)
      | inr n ↦ rw n (
          balanced_within _ _ _ (λ x. count (sent_today now x) db.messages) ds [] known
            (λ e. omega arith) d)
    ]

-- What the pacer picks.
max_by_left :
    (b : Dict ℕ) (d : Text) (ds : List Text)
    → 0 < get_or_0 b d
    → 0 < get_or_0 b (max_by (get_or_0 b) d ds)
unfolding max_by
max_by_left b d [] h = h
max_by_left b d (e ∷ ds) h = elim (Bool-cases (ltb (get_or_0 b d) (get_or_0 b e))) [
  | inl y ↦ rw y (max_by_left b e ds (ground arith))
  | inr n ↦ rw n (max_by_left b d ds h)
]

-- The head of the elements that pass a test passes it.
keep_head {ℓ} :
    {A : Type ℓ} (p : A → Bool) (xs : List A) (y : A) (ys : List A)
    → keep p xs ≡ y ∷ ys
    → p y ≡ true
keep_head p [] y ys h = cc
keep_head p (x ∷ xs) y ys h = ground (arith, keep_head p xs y ys)

pub pick_domain_left :
    (strategy : Text) (ds : List Text) (b : Dict ℕ)
    → non_empty (pick_domain strategy ds b) ≡ true
    → 0 < get_or_0 b (pick_domain strategy ds b)
unfolding pick_domain
pick_domain_left strategy ds b h = go (keep (λ d. ltb 0 (get_or_0 b d)) ds) refl h
  where
    go :
        (avail : List Text)
        → keep (λ d. ltb 0 (get_or_0 b d)) ds ≡ avail
        → non_empty (elim avail [
          | [] ↦ []
          | d ∷ avail ↦ if is_sequential strategy then d else max_by (get_or_0 b) d avail
        ])
          ≡ true
        → 0
          < get_or_0 b (elim avail [
            | [] ↦ []
            | d ∷ avail ↦ if is_sequential strategy then d else max_by (get_or_0 b) d avail
          ])
    go [] q n = cc
    go (d ∷ avail) q n =
        let left : 0 < get_or_0 b d = ltb→lt 0 _ (keep_head _ ds d avail q) in
        elim (Bool-cases (is_sequential strategy)) [
          | inl y ↦ rw y left
          | inr m ↦ rw m (max_by_left b d avail left)
        ]

-- Every mailbox of a pool has the pool's domain.
abbrev pub OfDomain : Text → MailAccount → Type 0
OfDomain d a = a.domain ≡ d

abbrev pub Pools : Dict (List MailAccount) → Type 0
Pools g = (d : Text) (pool : List MailAccount) → Dicts.get g d ≡ some pool → All (OfDomain d) pool

abbrev pool_with : Option (List MailAccount) → MailAccount → List MailAccount
pool_with o a = elim o [ none ↦ a ∷ [] | some pool ↦ pool ++ a ∷ [] ]

pool_with_domain :
    (o : Option (List MailAccount)) (a : MailAccount)
    → ((pool : List MailAccount) → o ≡ some pool → All (OfDomain a.domain) pool)
    → All (OfDomain a.domain) (pool_with o a)
pool_with_domain none a h = (refl, tt)
pool_with_domain (some pool) a h =
    All-append (OfDomain a.domain) pool (a ∷ []) (h pool refl) (refl, tt)

put-Pools :
    (g : Dict (List MailAccount)) (a : MailAccount) (p : List MailAccount)
    → Pools g
    → All (OfDomain a.domain) p
    → Pools (Dicts.put g a.domain p)
put-Pools g a p h k d pool q = elim (Bool-cases (text_eq a.domain d)) [
  | inl y ↦
      let same : p ≡ pool = ground (arith, Dicts.get-put g a.domain d p) in
      let domain = (text_eq_iff a.domain d).0 y in
      subst (λ x. All (OfDomain x) pool) domain (subst (λ x. All (OfDomain a.domain) x) same k)
  | inr n ↦ h d pool (ground (arith, Dicts.get-put g a.domain d p))
]

pub group_by_domain-Pools :
    (accounts : List MailAccount) (g : Dict (List MailAccount))
    → Pools g
    → Pools (group_by_domain accounts g)
unfolding group_by_domain
group_by_domain-Pools [] g h = h
group_by_domain-Pools (a ∷ accounts) g h =
    group_by_domain-Pools accounts _
      (put-Pools g a _ h (pool_with_domain (Dicts.get g a.domain) a (λ pool q. h a.domain pool q)))
