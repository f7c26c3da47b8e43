-- ===== src/Agents/Cron/Rounds.antt =====
-- The loop of `cron_next` (agents/app/cron.py) as a relation of its rounds, and the search that follows it.
use funnelmanager.Prelude.{
  Bool, Bool-cases, Option, arith, false, inl, inr, leb, none, some, suc, true, zero, ℕ, ◌*◌, ◌+◌,
  ◌/◌, ◌<◌, ◌≡◌, ◌≤◌,
}
use funnelmanager.Calendar.{minute_us}
use funnelmanager.Agents.Cron.{CronSpec, matches, max_lookahead, max_rounds, next_from, scan}

-- The loop of `cron_next` as it runs: at a time past the limit it ends with nothing, at one that matches
-- with that time, and else it goes on at the next minute. There is a derivation only where it ends.
pub data Runs (test : ℕ → Bool) (limit : ℕ) : ℕ → Option ℕ → Type 0 where
  past : (t : ℕ) → limit < t → Runs test limit t none
  hit : (t : ℕ) → t ≤ limit → test t ≡ true → Runs test limit t (some t)
  next :
      (t : ℕ) (r : Option ℕ)
      → t ≤ limit
      → test t ≡ false
      → Runs test limit (t + minute_us) r
      → Runs test limit t r

-- With rounds that reach past the limit, the loop ends with what the search over them returns.
scan-Runs :
    (n : ℕ) (test : ℕ → Bool) (limit t : ℕ)
    → limit < t + n * minute_us
    → Runs test limit t (scan n test limit t)
unfolding scan
scan-Runs zero test limit t l = past t (omega arith)
scan-Runs (suc n) test limit t l =
    let rest = scan-Runs n test limit (t + minute_us) in
    elim (Bool-cases (leb t limit)) [
      | inl b ↦ elim (Bool-cases (test t)) [
        | inl y ↦ rw (b, y) (hit t (ground arith) y)
        | inr y ↦ rw (b, y) (next t _ (ground arith) y (rest (omega arith)))
      ]
      | inr b ↦ rw b (past t (ground arith))
    ]

-- The loop of `cron_next` ends from every reference, with what the search returns in its rounds: it starts
-- at the first whole minute after the reference, goes on minute by minute, and ends at the first that
-- matches or past the lookahead.
pub next_from-Runs :
    (spec : CronSpec) (at : ℕ)
    → Runs
        (matches spec)
        (at + max_lookahead)
        (at / minute_us * minute_us + minute_us)
        (next_from spec at)
unfolding next_from max_rounds
next_from-Runs spec at = scan-Runs max_rounds (matches spec) (at + max_lookahead) _ (omega arith)
