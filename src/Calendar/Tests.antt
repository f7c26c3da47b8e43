-- ===== src/Calendar/Tests.antt =====
-- Days at the ends of the cycles of the calendar.
use funnelmanager.Prelude.{refl, ◌≡◌}
use funnelmanager.Calendar.{month_and_day}

leap_day : month_and_day 740405 ≡ (2, 29)
unfolding month_and_day
leap_day = refl

sixth_of_august : month_and_day 739833 ≡ (8, 6)
unfolding month_and_day
sixth_of_august = refl

end_of_2000 : month_and_day 730484 ≡ (12, 31)
unfolding month_and_day
end_of_2000 = refl

end_of_2024 : month_and_day 739250 ≡ (12, 31)
unfolding month_and_day
end_of_2024 = refl
