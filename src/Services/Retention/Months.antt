-- ===== src/Services/Retention/Months.antt =====
-- The cutoff of the purge: whole months before a date (services/retention_service.py).
use caps_dash.Prelude.{ℕ, ◌+◌, ◌*◌, ◌-◌, ◌/◌, ◌%◌, ◌≤◌, ◌≡◌, min, some, arith, ℕ_key}
use caps_dash.Services.Retention.{Date, months_before, days_in_month}

-- a date of the calendar
abbrev pub IsValid : Date → Type 0
IsValid d =
    (1 ≤ d.year)
    × (1 ≤ d.month)
    × (d.month ≤ 12)
    × (1 ≤ d.day)
    × (d.day ≤ days_in_month d.year d.month)

days_in_month_bounds :
    (year month : ℕ) → (28 ≤ days_in_month year month) × (days_in_month year month ≤ 31)
unfolding days_in_month
days_in_month_bounds year month = ground arith

-- The cutoff is a date of the calendar, exactly so many months earlier, on the same day or, where the
-- month is too short for that, on its last day.
pub months_before_lem :
    (moment : Date) (months : ℕ) (cutoff : Date)
    → IsValid moment
    → months_before moment months ≡ some cutoff
    → IsValid cutoff
      × (cutoff.year * 12 + cutoff.month + months ≡ moment.year * 12 + moment.month)
      × (cutoff.day ≡ min moment.day (days_in_month cutoff.year cutoff.month))
unfolding months_before
months_before_lem moment months cutoff valid h =
    let total = moment.year * 12 + (moment.month - 1) - months in
    let bounds = days_in_month_bounds (total / 12) (total % 12 + 1) in ground (arith, bounds.0)
