-- ===== src/Control/Times/Dates.antt =====
-- src/control/protocol.rs: the dates of `rfc3339` are those of the calendar.
use kiss_tnc_bridge.Prelude.{
  ℕ, zero, suc, ◌+◌, ◌-◌, ◌*◌, ◌/◌, ◌%◌, ◌≤◌, ◌<◌, ◌≡◌, Bool, true, false, refl, arith,
  if◌then◌else◌, ltb, leb, Bool-cases, ◌⊎◌, inl, inr,
}
use kiss_tnc_bridge.Control.Times.{year_of_era, day_of_year, month_of_year, civil_month, civil}
use kiss_tnc_bridge.Control.Times.Calendar.{
  is_leap, year_length, years_before, month_length, months_before, IsDay, years_before_lem,
}

year_of_era_bound : (doe : ℕ) → doe < 146097 → year_of_era doe ≤ 399
unfolding year_of_era
year_of_era_bound doe l = omega arith

-- The days of an era before a year of it, and the day in the year.
day_of_year_lem :
    (doe : ℕ)
    → doe < 146097
    → 365 * year_of_era doe + year_of_era doe / 4 + day_of_year doe ≡ doe + year_of_era doe / 100
unfolding day_of_year year_of_era
day_of_year_lem doe l = omega arith

day_of_year_bound : (doe : ℕ) → doe < 146097 → day_of_year doe < year_length (suc (year_of_era doe))
unfolding day_of_year year_of_era
day_of_year_bound doe l = ground arith

-- The months from March to December have the lengths that the division gives.
month_length_lem :
    (leap : Bool) (k : ℕ)
    → k ≤ 9
    → (153 * k + 2) / 5 + month_length leap (k + 3) ≡ (153 * (k + 1) + 2) / 5
month_length_lem leap k l = ground arith

months_before_lem :
    (leap : Bool) (k : ℕ)
    → k ≤ 9
    → months_before leap (suc (suc (suc k))) ≡ (if leap then 60 else 59) + (153 * k + 2) / 5
months_before_lem true zero l = omega arith
months_before_lem false zero l = omega arith
months_before_lem leap (suc k) l = ground (arith, months_before_lem leap k (omega arith))

leap_era : (y era : ℕ) → is_leap (suc (y + era * 400)) ≡ is_leap (suc y)
leap_era y era = ground arith

-- The first of March in `y`, and the days from there.
march :
    (z : ℕ)
    → years_before (suc (year_of_era (z % 146097) + z / 146097 * 400)) + day_of_year (z % 146097)
      ≡ z + 366
march z =
    let doe = z % 146097 in
    let l : doe < 146097 = omega arith in
    let y = year_of_era doe + z / 146097 * 400 in
    omega (arith, years_before_lem (suc y), day_of_year_lem doe l, year_of_era_bound doe l)

-- A day from March to December.
spring :
    (y v doy n : ℕ)
    → v ≡ y
    → month_of_year doy ≤ 9
    → years_before (suc y) + doy ≡ n + 306
    → IsDay n (record {
      year = v;
      month = month_of_year doy + 3;
      day = doy - (153 * month_of_year doy + 2) / 5 + 1;
    })
unfolding month_of_year
spring y v doy n p l h =
    let mp = month_of_year doy in
    let before = months_before_lem (is_leap y) mp l in
    let long = month_length_lem (is_leap y) mp l in
    rw p (record {
      nth = ground (arith, h, before);
      month_from = omega arith;
      month_to = omega arith;
      day_from = omega arith;
      day_to = omega (arith, long);
    })

month_of_year_lem : (doy : ℕ) → month_of_year doy ≡ (5 * doy + 2) / 153
unfolding month_of_year
month_of_year_lem doy = refl

-- A day of January or February.
winter :
    (y v doy n mp : ℕ)
    → v ≡ suc y
    → (mp ≡ 10) ⊎ (mp ≡ 11)
    → mp ≡ (5 * doy + 2) / 153
    → doy < year_length (suc y)
    → years_before (suc y) + doy ≡ n + 306
    → IsDay n (record { year = v; month = mp - 9; day = doy - (153 * mp + 2) / 5 + 1 })
winter y v doy n mp p (inl e) d l h =
    rw (e, p)
      (record {
        nth = omega (arith, e, d, h);
        month_from = omega arith;
        month_to = omega arith;
        day_from = omega arith;
        day_to = omega (arith, e, d);
      })
winter y v doy n mp p (inr e) d l h =
    rw (e, p)
      (record {
        nth = omega (arith, e, d, h);
        month_from = omega arith;
        month_to = omega arith;
        day_from = omega arith;
        day_to = ground (arith, e, d, l);
      })

month_of_year_bound : (doy : ℕ) → doy < 366 → month_of_year doy ≤ 11
unfolding month_of_year
month_of_year_bound doy l = omega arith

-- The date that the code gives for a day since 1970-01-01 is the date of that day in the Gregorian
-- calendar, where a year and a month have the lengths that they have there: just as many days have
-- passed since the start of the year 0, 719528 of them before 1970, the month is one of 12 and the
-- day is one of the month.
pub civil-IsDay : (days : ℕ) → IsDay (days + 719528) (civil days)
unfolding civil civil_month
civil-IsDay days =
    let z = days + 719468 in
    let doe = z % 146097 in
    let y = year_of_era doe + z / 146097 * 400 in
    let doy = day_of_year doe in
    let mp = month_of_year doy in
    let n = days + 719528 in
    let l : doe < 146097 = omega arith in
    let past : years_before (suc y) + doy ≡ n + 306 = omega (arith, march z) in
    let last : doy < year_length (suc y) =
      ground (arith, day_of_year_bound doe l, leap_era (year_of_era doe) (z / 146097)) in
    let most : mp ≤ 11 = month_of_year_bound doy (ground (arith, last)) in
    elim (Bool-cases (ltb mp 10)) [
      | inl e ↦
          let late : leb (mp + 3) 2 ≡ false = ground arith in
          rw (e, late) (spring y (y + 0) doy n (omega arith) (ground (arith, e)) past)
      | inr e ↦
          let early : leb (mp - 9) 2 ≡ true = ground arith in
          let two : (mp ≡ 10) ⊎ (mp ≡ 11) = ground (arith, e, most) in
          rw (e, early)
            (winter y (y + 1) doy n mp (omega arith) two (month_of_year_lem doy) last past)
    ]
