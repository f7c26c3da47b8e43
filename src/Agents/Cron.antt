-- ===== src/Agents/Cron.antt =====
-- agents/app/cron.py: 5-field cron expressions, and the search for the next time that one matches.
pub mod Field
pub mod Bounds
pub mod Search
pub mod Rounds
pub mod Interval
pub mod Tests
use funnelmanager.Prelude.{
  Bool, List, Option, Result, Text, [], after, any, err, false, if◌then◌else◌, leb, none, ok, some,
  suc, true, words, zero, ℕ, ◌%◌, ◌&&◌, ◌*◌, ◌+◌, ◌-◌, ◌/◌, ◌==◌, ◌>>=◌, ◌||◌, ◌∷◌,
}
use funnelmanager.Calendar.{aware, DateTime, instant, minute_us, minute, hour, weekday, month, day}
use funnelmanager.Agents.Cron.Field.{CronError, field_count, parse_field}

pub record CronSpec : Type 0 where
  pub minutes : List ℕ
  pub hours : List ℕ
  pub doms : List ℕ
  pub months : List ℕ
  pub dows : List ℕ
  pub dom_restricted : Bool
  pub dow_restricted : Bool

-- `parse_cron`: the fields are the words of the expression.
parse_fields : List Text → Result CronError CronSpec
parse_fields (f0 ∷ f1 ∷ f2 ∷ f3 ∷ f4 ∷ []) = do
  (minutes, _) ← parse_field 0 59 false f0
  (hours, _) ← parse_field 0 23 false f1
  (doms, dom_restricted) ← parse_field 1 31 false f2
  (months, _) ← parse_field 1 12 false f3
  (dows, dow_restricted) ← parse_field 0 6 true f4
  ok (record {
    minutes = minutes;
    hours = hours;
    doms = doms;
    months = months;
    dows = dows;
    dom_restricted = dom_restricted;
    dow_restricted = dow_restricted;
  })
parse_fields _ = err field_count

unfoldable pub parse_cron : Text → Result CronError CronSpec
unfolding parse_fields
parse_cron expr = parse_fields (words expr)

abbrev pub elem : ℕ → List ℕ → Bool
elem n vs = any (λ v. v == n) vs

-- `_matches`, on a UTC instant
unfoldable pub matches : CronSpec → ℕ → Bool
matches spec t =
    let dom_ok = elem (day t) spec.doms in
    let dow_ok = elem ((weekday t + 1) % 7) spec.dows in
    elem (minute t) spec.minutes
    && elem (hour t) spec.hours
    && elem (month t) spec.months
    && (if spec.dom_restricted && spec.dow_restricted
        then dom_ok || dow_ok
        else if spec.dom_restricted
        then dom_ok
        else if spec.dow_restricted
        then dow_ok
        else true)

-- `_MAX_LOOKAHEAD`, 1461 days in microseconds
abbrev pub max_lookahead : ℕ
max_lookahead = 126230400000000

-- The loop of `cron_next`, over any test. The first argument bounds its rounds.
unfoldable pub scan : ℕ → (ℕ → Bool) → ℕ → ℕ → Option ℕ
scan zero test limit t = none
scan (suc n) test limit t =
    let rest = scan n test limit (t + minute_us) in
    if leb t limit then (if test t then some t else rest) else none

-- More rounds than minutes in the lookahead.
unfoldable pub max_rounds : ℕ
max_rounds = 2103841

-- `cron_next` of a parsed expression, from a UTC instant
unfoldable pub next_from : CronSpec → ℕ → Option ℕ
next_from spec after =
    scan max_rounds (matches spec) (after + max_lookahead)
      (after / minute_us * minute_us + minute_us)

-- `cron_next` of a parsed expression, from a `datetime` that is naive or aware
unfoldable pub cron_next : CronSpec → DateTime → Option DateTime
cron_next spec after = elim (next_from spec (instant after)) [
  | some t ↦ some (aware t)
  | none ↦ none
]

-- The loop that samples the fire times: each from the one before it.
unfoldable pub fires_from : ℕ → CronSpec → ℕ → List ℕ
fires_from zero spec cursor = []
fires_from (suc n) spec cursor = elim (next_from spec cursor) [
  | none ↦ []
  | some t ↦ t ∷ fires_from n spec t
]

-- The gaps between consecutive fires, in minutes: fires are whole minutes apart, so the quotient is
-- exact, as the float is in the source.
unfoldable pub gaps : List ℕ → List ℕ
gaps [] = []
gaps (a ∷ []) = []
gaps (a ∷ b ∷ ts) = (b - a) / minute_us ∷ gaps (b ∷ ts)

-- `min(…)`, `none` where there is no gap
unfoldable pub minimum : List ℕ → Option ℕ
minimum [] = none
minimum (g ∷ gs) = elim (minimum gs) [ none ↦ some g | some m ↦ some (if leb g m then g else m) ]

-- `cron_min_interval_minutes` of a parsed expression
unfoldable pub min_interval : CronSpec → ℕ → ℕ → Option ℕ
min_interval spec after samples =
    minimum (gaps (fires_from (if leb samples 2 then 2 else samples) spec after))
