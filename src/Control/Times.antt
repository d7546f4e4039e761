-- ===== src/Control/Times.antt =====
-- src/control/protocol.rs: `rfc3339`. No difference in it is below 0, so that numbers without a sign
-- do.
pub mod Calendar
pub mod Dates
use Prim.Native.String.{String, ◌++◌ as append}
use kiss_tnc_bridge.Prelude.{
  ℕ, ◌+◌, ◌-◌, ◌*◌, ◌/◌, ◌%◌, Bool, Option, none, some, if◌then◌else◌, ltb, leb,
}
use kiss_tnc_bridge.Config.Text.{show_number}

pub record Date : Type 0 where
  pub year : ℕ
  pub month : ℕ
  pub day : ℕ

-- `yoe`, the year of the era, from its day `doe`.
unfoldable pub year_of_era : ℕ → ℕ
year_of_era doe = (doe - doe / 1460 + doe / 36524 - doe / 146096) / 365

-- `doy`, the day of a year that starts in March.
unfoldable pub day_of_year : ℕ → ℕ
unfolding year_of_era
day_of_year doe = let yoe = year_of_era doe in doe - (365 * yoe + yoe / 4 - yoe / 100)

-- `mp`, the month of such a year.
unfoldable pub month_of_year : ℕ → ℕ
month_of_year doy = (5 * doy + 2) / 153

-- The month and the day, and whether the next year has begun.
unfoldable pub civil_month : ℕ → ℕ
civil_month mp = if ltb mp 10 then mp + 3 else mp - 9

-- The date of a day, counted from 1970-01-01.
unfoldable pub civil : ℕ → Date
unfolding day_of_year month_of_year civil_month
civil days =
    let z = days + 719468 in
    let era = z / 146097 in
    let doe = z % 146097 in
    let doy = day_of_year doe in
    let mp = month_of_year doy in
    record {
      year = year_of_era doe + era * 400 + (if leb (civil_month mp) 2 then 1 else 0);
      month = civil_month mp;
      day = doy - (153 * mp + 2) / 5 + 1;
    }

-- `{:02}` and `{:04}`
unfoldable pub two_digits : ℕ → String
unfolding show_number
two_digits n = append (if ltb n 10 then "0" else "") (show_number n)

unfoldable pub four_digits : ℕ → String
unfolding show_number
four_digits n =
    append (if ltb n 10 then "000" else if ltb n 100 then "00" else if ltb n 1000 then "0" else "")
      (show_number n)

-- The seconds since 1970, none for a time before.
unfoldable pub rfc3339 : Option ℕ → String
unfolding civil two_digits four_digits
rfc3339 since =
    let secs : ℕ = elim since [ none ↦ 0 | some s ↦ s ] in
    let date = civil (secs / 86400) in
    let rem = secs % 86400 in
    append (four_digits date.year) (
      append "-" (
        append (two_digits date.month) (
          append "-" (
            append (two_digits date.day) (
              append "T" (
                append (two_digits (rem / 3600)) (
                  append ":" (
                    append (two_digits (rem % 3600 / 60))
                      (append ":" (append (two_digits (rem % 60)) "Z"))))))))))
