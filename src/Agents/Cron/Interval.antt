-- ===== src/Agents/Cron/Interval.antt =====
-- The tightest interval between fires (`cron_min_interval_minutes` of agents/app/cron.py).
use funnelmanager.Prelude.{
  All, Bool-cases, In, List, Option-cases, [], after, all, arith, if◌then◌else◌, inl, inr, leb,
  none, some, suc, sym, zero, ℕ, ◌%◌, ◌-◌, ◌/◌, ◌<◌, ◌∷◌, ◌≡◌, ◌≢◌, ◌≤◌,
}
use mathlib.Core.Path.{subst}
use funnelmanager.Calendar.{minute_us}
use funnelmanager.Agents.Cron.{
  CronSpec, matches, next_from, fires_from, gaps, minimum, min_interval,
}
use funnelmanager.Agents.Cron.Search.{IsNext, next_from_exact}

minimum_cons : (g : ℕ) (gs : List ℕ) → minimum (g ∷ gs) ≢ none
unfolding minimum
minimum_cons g gs h = ground arith

All-le : (m n : ℕ) (gs : List ℕ) → m ≤ n → All (λ g. n ≤ g) gs → All (λ g. m ≤ g) gs
All-le m n [] le h = tt
All-le m n (g ∷ gs) le h = (omega arith, All-le m n gs le h.1)

minimum_least : (gs : List ℕ) (m : ℕ) → minimum gs ≡ some m → All (λ g. m ≤ g) gs × In m gs
unfolding minimum
minimum_least [] m h = cc
minimum_least (g ∷ []) m h = let e : m ≡ g = ground arith in ((omega arith, tt), inl e)
minimum_least (g ∷ g' ∷ gs) m h = elim (Option-cases (minimum (g' ∷ gs))) [
  | inl q ↦ absurd (minimum_cons g' gs q)
  | inr (n, q) ↦
      let (all, there) = minimum_least (g' ∷ gs) n q in
      elim (Bool-cases (leb g n)) [
        | inl le ↦
            let e : m ≡ g = ground arith in
            ((omega arith, All-le m n (g' ∷ gs) (ground arith) all), inl e)
        | inr gt ↦
            let e : n ≡ m = ground arith in
            (
              (ground arith, All-le m n (g' ∷ gs) (omega arith) all),
              inr (subst (λ x. In x (g' ∷ gs)) e there),
            )
      ]
]

-- Two whole minutes, one after the other, are a minute apart.
gap_pos : (a b : ℕ) → a % minute_us ≡ 0 → b % minute_us ≡ 0 → a < b → 1 ≤ (b - a) / minute_us
gap_pos a b p q h = omega arith

gaps_pos :
    (n : ℕ) (spec : CronSpec) (cursor : ℕ)
    → cursor % minute_us ≡ 0
    → All (λ g. 1 ≤ g) (gaps (cursor ∷ fires_from n spec cursor))
unfolding gaps fires_from
gaps_pos zero spec cursor a = tt
gaps_pos (suc n) spec cursor a = elim (Option-cases (next_from spec cursor)) [
  | inl q ↦ rw (q, gaps) tt
  | inr (t, q) ↦
      let next = subst (IsNext (matches spec) cursor) q (next_from_exact spec cursor) in
      rw (q, gaps) (gap_pos cursor t a next.0 next.1, gaps_pos n spec t next.0)
]

fires_gaps_pos :
    (n : ℕ) (spec : CronSpec) (after : ℕ) → All (λ g. 1 ≤ g) (gaps (fires_from n spec after))
unfolding gaps fires_from
fires_gaps_pos zero spec after = tt
fires_gaps_pos (suc n) spec after = elim (Option-cases (next_from spec after)) [
  | inl q ↦ rw (q, gaps) tt
  | inr (t, q) ↦
      let next = subst (IsNext (matches spec) after) q (next_from_exact spec after) in
      rw (q, gaps) (gaps_pos n spec t next.0)
]

In-All : (P : ℕ → Type 0) (m : ℕ) (gs : List ℕ) → In m gs → All P gs → P m
In-All P m [] i h = elim i [ ]
In-All P m (g ∷ gs) (inl e) h = subst P (sym e) h.0
In-All P m (g ∷ gs) (inr i) h = In-All P m gs i h.1

abbrev pub sampled : ℕ → ℕ
sampled samples = if leb samples 2 then 2 else samples

-- An interval that is returned is the gap in minutes between two consecutive fires among those that
-- are sampled, no gap between two of them is smaller, and it is at least a minute.
pub min_interval_least :
    (spec : CronSpec) (after samples m : ℕ)
    → min_interval spec after samples ≡ some m
    → (1 ≤ m)
      × In m (gaps (fires_from (sampled samples) spec after))
      × All (λ g. m ≤ g) (gaps (fires_from (sampled samples) spec after))
unfolding min_interval
min_interval_least spec after samples m h =
    let fires = fires_from (sampled samples) spec after in
    let (least, there) = minimum_least (gaps fires) m h in
    (
      In-All (λ g. 1 ≤ g) m (gaps fires) there (fires_gaps_pos (sampled samples) spec after),
      there,
      least,
    )
