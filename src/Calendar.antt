-- ===== src/Calendar.antt =====
-- Python's `datetime`, which libs, agents and jobs use: a point in time, and the calendar fields of one.
mod Tests
use funnelmanager.Prelude.{
  List, [], if◌then◌else◌, ltb, not, suc, ℕ, ◌%◌, ◌&&◌, ◌-◌, ◌/◌, ◌==◌, ◌||◌, ◌∷◌,
}

-- In microseconds since the first of January of the year 1: by a wall clock that names no zone, or
-- the instant of an aware `datetime`.
pub data DateTime : Type 0 where
  naive : ℕ → DateTime
  aware : ℕ → DateTime

-- The instant, where a naive time is taken to be UTC.
abbrev pub instant : DateTime → ℕ
instant (naive n) = n
instant (aware n) = n

-- One minute, in microseconds.
abbrev pub minute_us : ℕ
minute_us = 60000000

-- The minute and the hour of a UTC instant, its days since the first day of the year 1, and its
-- weekday from Monday, 0, which that first day was.
unfoldable pub minute : ℕ → ℕ
minute t = t / minute_us % 60

unfoldable pub hour : ℕ → ℕ
hour t = t / minute_us / 60 % 24

unfoldable pub days : ℕ → ℕ
days t = t / minute_us / 1440

unfoldable pub weekday : ℕ → ℕ
unfolding days
weekday t = days t % 7

-- The month, counted from `k`, and the day in it of the day `d`, over the lengths of the months.
month_day : ℕ → List ℕ → ℕ → ℕ × ℕ
month_day k [] d = (k, suc d)
month_day k (l ∷ ls) d =
    let rest = month_day (suc k) ls (d - l) in if ltb d l then (k, suc d) else rest

month_lengths : ℕ → List ℕ
month_lengths february = 31 ∷ february ∷ 31 ∷ 30 ∷ 31 ∷ 30 ∷ 31 ∷ 31 ∷ 30 ∷ 31 ∷ 30 ∷ 31 ∷ []

-- The month and the day of a number of days since the first day of the year 1: the cycles of 400,
-- 100, 4 and 1 years, where the last day of a cycle of 400 or of 4 is the 31st of December.
unfoldable pub month_and_day : ℕ → ℕ × ℕ
unfolding month_day month_lengths
month_and_day n =
    let in_400 = n % 146097 in
    let n100 = in_400 / 36524 in
    let in_100 = in_400 % 36524 in
    let n4 = in_100 / 1461 in
    let in_4 = in_100 % 1461 in
    let n1 = in_4 / 365 in
    let leap = n1 == 3 && (not (n4 == 24) || n100 == 3) in
    let found = month_day 1 (month_lengths (if leap then 29 else 28)) (in_4 % 365) in
    if n1 == 4 || n100 == 4 then (12, 31) else found

unfoldable pub month : ℕ → ℕ
unfolding month_and_day days
month t = (month_and_day (days t)).0

unfoldable pub day : ℕ → ℕ
unfolding month_and_day days
day t = (month_and_day (days t)).1
