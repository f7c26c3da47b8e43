-- ===== src/Agents/Cron/Tests.antt =====
-- The self-check of agents/app/cron.py, and runs at concrete expressions.
use funnelmanager.Prelude.{
  All, In, List, Option, Text, [], after, arith, before, codes, err, false, has_char, none, ok,
  refl, some, split, strip, text_eq, true, words, ℕ, ◌%◌, ◌*◌, ◌+◌, ◌/◌, ◌<◌, ◌↔◌, ◌∷◌, ◌≡◌, ◌≤◌,
}
use funnelmanager.Calendar.{DateTime, aware, minute_us, minute, hour, weekday, month, day}
use funnelmanager.Agents.Cron.{
  instant, CronSpec, parse_cron, matches, max_lookahead, scan, max_rounds, next_from, cron_next,
  fires_from, gaps, minimum, min_interval,
}
use funnelmanager.Agents.Cron.Field.{
  py_int, checked_range, dow_range, dow_values, checked_values, range_values, item_step, item_range,
  parse_item, parse_items, parse_field, start_after_end, dow_out_of_range, value_out_of_range,
}
use funnelmanager.Agents.Cron.Bounds.{IsValid, parse_cron-IsValid, StepOf, checked_range_exact}
use funnelmanager.Agents.Cron.Rounds.{Runs, next_from-Runs}
use funnelmanager.Agents.Cron.Search.{cron_next_sound, cron_next_least}
use funnelmanager.Agents.Cron.Interval.{sampled, min_interval_least}

-- Thursday, 2026-08-06 10:30
abbrev base : DateTime
base = aware 63921609000000000

-- `cron_next` of a text, `none` also where it does not parse
abbrev next_of : Text → Option DateTime
next_of expr = elim (parse_cron expr) [ ok spec ↦ cron_next spec base | err e ↦ none ]

quarter : next_of (codes "*/15 * * * *") ≡ some (aware 63921609900000000)
unfolding parse_cron words parse_field parse_items parse_item item_step item_range range_values
    dow_values checked_values checked_range dow_range py_int strip split has_char before after
    text_eq cron_next next_from scan max_rounds matches minute hour weekday month day
quarter = refl

next_day : next_of (codes "30 10 * * *") ≡ some (aware 63921695400000000)
unfolding parse_cron words parse_field parse_items parse_item item_step item_range range_values
    dow_values checked_values checked_range dow_range py_int strip split has_char before after
    text_eq cron_next next_from scan max_rounds matches minute hour weekday month day
next_day = refl

or_rule : next_of (codes "0 0 13 * 5") ≡ some (aware 63921657600000000)
unfolding parse_cron words parse_field parse_items parse_item item_step item_range range_values
    dow_values checked_values checked_range dow_range py_int strip split has_char before after
    text_eq cron_next next_from scan max_rounds matches minute hour weekday month day
or_rule = refl

monday : next_of (codes "0 12 * * 1") ≡ some (aware 63921960000000000)
unfolding parse_cron words parse_field parse_items parse_item item_step item_range range_values
    dow_values checked_values checked_range dow_range py_int strip split has_char before after
    text_eq cron_next next_from scan max_rounds matches minute hour weekday month day
monday = refl

sunday : next_of (codes "0 0 * * 7") ≡ some (aware 63921830400000000)
unfolding parse_cron words parse_field parse_items parse_item item_step item_range range_values
    dow_values checked_values checked_range dow_range py_int strip split has_char before after
    text_eq cron_next next_from scan max_rounds matches minute hour weekday month day
sunday = refl

weekend : next_of (codes "0 0 * * 5-7") ≡ some (aware 63921657600000000)
unfolding parse_cron words parse_field parse_items parse_item item_step item_range range_values
    dow_values checked_values checked_range dow_range py_int strip split has_char before after
    text_eq cron_next next_from scan max_rounds matches minute hour weekday month day
weekend = refl

backwards : parse_cron (codes "* * * * 5-1") ≡ err start_after_end
unfolding parse_cron words parse_field parse_items parse_item item_step item_range range_values
    dow_values checked_values checked_range dow_range py_int strip split has_char before after
    text_eq
backwards = refl

eight : parse_cron (codes "* * * * 8") ≡ err dow_out_of_range
unfolding parse_cron words parse_field parse_items parse_item item_step item_range range_values
    dow_values checked_values checked_range dow_range py_int strip split has_char before after
    text_eq
eight = refl

sixty : parse_cron (codes "60 * * * *") ≡ err value_out_of_range
unfolding parse_cron words parse_field parse_items parse_item item_step item_range range_values
    dow_values checked_values checked_range dow_range py_int strip split has_char before after
    text_eq
sixty = refl

abbrev daily : CronSpec
daily = record {
  minutes = 0 ∷ 30 ∷ [];
  hours = 9 ∷ [];
  doms = 1 ∷ [];
  months = 8 ∷ [];
  dows = 0 ∷ [];
  dom_restricted = true;
  dow_restricted = true;
}

parse_cron-IsValid_example : IsValid daily
unfolding parse_cron words parse_field parse_items parse_item item_step item_range range_values
    dow_values checked_values checked_range dow_range py_int strip split has_char before after
    text_eq
parse_cron-IsValid_example = parse_cron-IsValid (codes "0,30 9 1 8 7") daily refl

abbrev burst : CronSpec
burst = record daily {
  minutes = 45 ∷ 50 ∷ [];
  hours = 10 ∷ [];
  dom_restricted = false;
  dow_restricted = false;
}

cron_next_sound_example :
    (u : ℕ) × (aware 63921609900000000 ≡ aware u)
    × (u % minute_us ≡ 0)
    × (instant base < u)
    × (u ≤ instant base + max_lookahead)
    × (matches burst u ≡ true)
unfolding cron_next next_from scan max_rounds matches minute hour weekday month day
cron_next_sound_example = cron_next_sound burst base (aware 63921609900000000) refl

cron_next_least_example :
    (u : ℕ) × (cron_next burst base ≡ some (aware u)) × (u ≤ 63921610200000000)
unfolding cron_next next_from scan max_rounds matches minute hour weekday month day
cron_next_least_example =
    cron_next_least burst base 63921610200000000 refl (omega arith) (omega arith) refl

min_interval_least_example :
    (1 ≤ 5)
    × In 5 (gaps (fires_from (sampled 2) burst 63921609000000000))
    × All (λ g. 5 ≤ g) (gaps (fires_from (sampled 2) burst 63921609000000000))
unfolding cron_next next_from scan max_rounds matches minute hour weekday month day fires_from gaps
    minimum min_interval
min_interval_least_example = min_interval_least burst 63921609000000000 2 5 refl

checked_range_exact_example :
    (vs : List ℕ) × (checked_range 31 0 59 30 10 0 ≡ ok vs) × ((v : ℕ) → In v vs ↔ StepOf 0 10 30 v)
checked_range_exact_example =
    checked_range_exact 31 0 59 30 10 0 (omega arith) (omega arith) (omega arith) (omega arith)

next_from-Runs_example :
    Runs
      (matches burst)
      (instant base + max_lookahead)
      (instant base / minute_us * minute_us + minute_us)
      (next_from burst (instant base))
next_from-Runs_example = next_from-Runs burst (instant base)
