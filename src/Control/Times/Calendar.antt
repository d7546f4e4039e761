-- ===== src/Control/Times/Calendar.antt =====
-- src/control/protocol.rs: the Gregorian calendar, year by year and month by month.
use kiss_tnc_bridge.Prelude.{
  ℕ, zero, suc, ◌+◌, ◌*◌, ◌/◌, ◌%◌, ◌≤◌, ◌≡◌, Bool, ◌&&◌, ◌||◌, not, ◌==◌, arith, if◌then◌else◌,
}
use kiss_tnc_bridge.Control.Times.{Date}

abbrev pub is_leap : ℕ → Bool
is_leap y = (y % 4 == 0 && not (y % 100 == 0)) || y % 400 == 0

abbrev pub year_length : ℕ → ℕ
year_length y = if is_leap y then 366 else 365

-- The days of the years before a year, from year 0 on.
abbrev pub years_before : ℕ → ℕ
years_before zero = 0
years_before (suc y) = years_before y + year_length y

abbrev pub month_length : Bool → ℕ → ℕ
month_length leap m =
    if m == 2
    then if leap then 29 else 28
    else if m == 4 || m == 6 || m == 9 || m == 11
    then 30
    else 31

-- The days of the months before a month; months start at 1.
abbrev pub months_before : Bool → ℕ → ℕ
months_before leap zero = 0
months_before leap (suc zero) = 0
months_before leap (suc (suc m)) = months_before leap (suc m) + month_length leap (suc m)

-- A date of the calendar, the `n`th day from the start of year 0, which is day 0.
pub record IsDay (n : ℕ) (d : Date) : Type 0 where
  pub nth : n + 1 ≡ years_before d.year + months_before (is_leap d.year) d.month + d.day
  pub month_from : 1 ≤ d.month
  pub month_to : d.month ≤ 12
  pub day_from : 1 ≤ d.day
  pub day_to : d.day ≤ month_length (is_leap d.year) d.month

-- The leap years before a year are counted by division.
pub years_before_lem :
    (y : ℕ) → years_before y + (y + 99) / 100 ≡ 365 * y + (y + 3) / 4 + (y + 399) / 400
years_before_lem zero = omega arith
years_before_lem (suc y) = ground (arith, years_before_lem y)
