-- ===== src/Agents/Cron/Search.antt =====
-- What `cron_next` finds (agents/app/cron.py).
use funnelmanager.Prelude.{
  Bool, Bool-cases, Option, Option-cases, after, arith, false, inl, inr, leb, leb→le, none, refl,
  some, suc, sym, true, zero, ℕ, ◌%◌, ◌*◌, ◌+◌, ◌-◌, ◌/◌, ◌<◌, ◌∙◌, ◌≡◌, ◌≤◌,
}
use mathlib.Core.Path.{subst}
use mathlib.Core.Bool.{false≢true}
use funnelmanager.Calendar.{minute_us}
use funnelmanager.Agents.Cron.{
  aware, instant, DateTime, cron_next, CronSpec, matches, max_lookahead, scan, max_rounds,
  next_from,
}

-- The first minute in a range that passes a test, or that there is none.
abbrev pub First : (ℕ → Bool) → ℕ → ℕ → Option ℕ → Type 0
First test from limit none =
    (j : ℕ) → from + j * minute_us ≤ limit → test (from + j * minute_us) ≡ false
First test from limit (some t) =
    (k : ℕ) × (t ≡ from + k * minute_us)
    × (t ≤ limit)
    × (test t ≡ true)
    × ((j : ℕ) → j < k → test (from + j * minute_us) ≡ false)

at_later :
    (test : ℕ → Bool) (from j : ℕ)
    → test from ≡ false
    → ((i : ℕ) → suc i ≡ j → test (from + minute_us + i * minute_us) ≡ false)
    → test (from + j * minute_us) ≡ false
at_later test from zero e later = let p : from + zero * minute_us ≡ from = omega arith in rw p e
at_later test from (suc i) e later =
    let p : from + suc i * minute_us ≡ from + minute_us + i * minute_us = omega arith in
    rw p (later i refl)

-- One more minute in front that fails the test.
First-suc :
    (test : ℕ → Bool) (from limit : ℕ) (o : Option ℕ)
    → test from ≡ false
    → First test (from + minute_us) limit o
    → First test from limit o
First-suc test from limit none e h = λ j l. at_later test from j e (λ i q. h i (omega arith))
First-suc test from limit (some t) e (k, q, l, p, m) =
    (suc k, omega arith, l, p, λ j lt. at_later test from j e (λ i r. m i (omega arith)))

scan-First :
    (n : ℕ) (test : ℕ → Bool) (limit t : ℕ)
    → limit < t + n * minute_us
    → First test t limit (scan n test limit t)
unfolding scan
scan-First zero test limit t h = λ j l. absurd (omega arith)
scan-First (suc n) test limit t h = elim (Bool-cases (leb t limit)) [
  | inl in_time ↦ elim (Bool-cases (test t)) [
    | inl hit ↦
        rw (in_time, hit) (0, omega arith, leb→le t limit in_time, hit, λ j l. absurd (omega arith))
    | inr miss ↦
        rw (in_time, miss)
          (First-suc test t limit (scan n test limit (t + minute_us)) miss
            (scan-First n test limit (t + minute_us) (omega arith)))
  ]
  | inr late ↦ rw late (λ j l. absurd (ground arith))
]

-- What is asked of a next time after an instant: it is a whole minute, later than the instant and
-- within the lookahead, it matches, and no whole minute between the two does; where there is none, no
-- whole minute within the lookahead matches.
abbrev pub IsNext : (ℕ → Bool) → ℕ → Option ℕ → Type 0
IsNext test after none =
    (v : ℕ) → v % minute_us ≡ 0 → after < v → v ≤ after + max_lookahead → test v ≡ false
IsNext test after (some t) =
    (t % minute_us ≡ 0)
    × (after < t)
    × (t ≤ after + max_lookahead)
    × (test t ≡ true)
    × ((v : ℕ) → v % minute_us ≡ 0 → after < v → v < t → test v ≡ false)

-- A whole minute after the instant, as one that the loop visits.
visited :
    (after v : ℕ)
    → v % minute_us ≡ 0
    → after < v
    → v
      ≡ after / minute_us * minute_us
        + minute_us
        + (v / minute_us - (after / minute_us + 1)) * minute_us
visited after v a h = omega arith

First-IsNext :
    (test : ℕ → Bool) (after : ℕ) (o : Option ℕ)
    → First test (after / minute_us * minute_us + minute_us) (after + max_lookahead) o
    → IsNext test after o
First-IsNext test after none h = λ v a lt l.
    let e = visited after v a lt in rw e (h (v / minute_us - (after / minute_us + 1)) (omega arith))
First-IsNext test after (some t) (k, q, l, p, m) = (
  omega arith,
  omega arith,
  l,
  p,
  λ v a lt b.
      let e = visited after v a lt in
      rw e (m (v / minute_us - (after / minute_us + 1)) (omega arith)),
)

-- `cron_next` returns exactly the next time that matches, from any instant, and `none` only where no
-- minute of the whole lookahead matches: its loop never stops for want of rounds.
pub next_from_exact :
    (spec : CronSpec) (after : ℕ) → IsNext (matches spec) after (next_from spec after)
unfolding next_from max_rounds
next_from_exact spec after = First-IsNext (matches spec) after _ (
    scan-First max_rounds (matches spec) (after + max_lookahead)
      (after / minute_us * minute_us + minute_us) (omega arith))

le_of_not : (u v : ℕ) → ¬ (v < u) → u ≤ v
le_of_not u v h = omega arith

-- A time that `cron_next` returns is a whole UTC minute after the reference, within the lookahead, and
-- it matches the expression.
pub cron_next_sound :
    (spec : CronSpec) (after t : DateTime)
    → cron_next spec after ≡ some t
    → (u : ℕ) × (t ≡ aware u)
      × (u % minute_us ≡ 0)
      × (instant after < u)
      × (u ≤ instant after + max_lookahead)
      × (matches spec u ≡ true)
unfolding cron_next
cron_next_sound spec after t h = elim (Option-cases (next_from spec (instant after))) [
  | inl q ↦ ground arith
  | inr (u, q) ↦
      let (a, lt, l, m, least) =
        subst (IsNext (matches spec) (instant after)) q (next_from_exact spec (instant after)) in
      (u, ground arith, a, lt, l, m)
]

-- If any whole minute after the reference and within the lookahead matches the expression, `cron_next`
-- returns a time, and one that is not later.
pub cron_next_least :
    (spec : CronSpec) (after : DateTime) (v : ℕ)
    → v % minute_us ≡ 0
    → instant after < v
    → v ≤ instant after + max_lookahead
    → matches spec v ≡ true
    → (u : ℕ) × (cron_next spec after ≡ some (aware u)) × (u ≤ v)
unfolding cron_next
cron_next_least spec after v a lt l m = elim (Option-cases (next_from spec (instant after))) [
  | inl q ↦
      let never =
        subst (IsNext (matches spec) (instant after)) q (next_from_exact spec (instant after)) in
      absurd (false≢true (sym (never v a lt l) ∙ m))
  | inr (u, q) ↦
      let found =
        subst (IsNext (matches spec) (instant after)) q (next_from_exact spec (instant after)) in
      (u, rw (q, cron_next), le_of_not u v (λ p. false≢true (sym (found.4 v a lt p) ∙ m)))
]
