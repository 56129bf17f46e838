-- ===== src/Civil/RoundTrip.antt =====
-- Day counts and dates as inverses.
use rpi_omt_client.Prelude.{
  ℕ, ◌+◌, ◌-◌, ◌*◌, ◌/◌, ◌≤◌, ◌<◌, ◌≡◌, ap, arith, ltb, leb, if◌then◌else◌, ℤ, pos, negsuc,
  pos_part, neg_part, ◌+ℤ◌, ◌-ℤ◌, ◌*ℕ◌, div_euclid, rem_euclid, plus_parts, minus_parts,
  times_parts, equal_parts,
}
use rpi_omt_client.Civil.{
  epoch_days, era_days, year_of_era, days_before, month_prime, month_of, civil_from_days,
  days_from_civil,
}

pub rem_euclid-lt : (z : ℤ) → rem_euclid z era_days < era_days
unfolding rem_euclid
rem_euclid-lt (pos n) = omega arith
rem_euclid-lt (negsuc n) = omega arith

euclid_parts :
    (z : ℤ)
    → pos_part z + neg_part (div_euclid z era_days) * era_days
      ≡ neg_part z + pos_part (div_euclid z era_days) * era_days + rem_euclid z era_days
unfolding div_euclid rem_euclid
euclid_parts (pos n) = omega arith
euclid_parts (negsuc n) = omega arith

-- What an integer of the form 400 e + r is divided into.
div_year :
    (y e : ℤ) (r : ℕ)
    → r < 400
    → pos_part y + neg_part e * 400 ≡ neg_part y + pos_part e * 400 + r
    → (div_euclid y 400 ≡ e) × (rem_euclid y 400 ≡ r)
unfolding div_euclid rem_euclid
div_year (pos n) (pos e) r h p = (ap pos (omega (arith, p)), omega (arith, p))
div_year (pos n) (negsuc e) r h p = absurd (omega (arith, p))
div_year (negsuc n) (pos e) r h p = absurd (omega (arith, p))
div_year (negsuc n) (negsuc e) r h p = (ap negsuc (omega (arith, p)), omega (arith, p))

year_of_era-lt : (day : ℕ) → day < era_days → year_of_era day < 400
year_of_era-lt day h = omega arith

days_before-le : (day : ℕ) → day < era_days → days_before (year_of_era day) ≤ day
days_before-le day h = omega arith

pub day_of_year-le : (day : ℕ) → day < era_days → day - days_before (year_of_era day) ≤ 365
day_of_year-le day h = omega arith

day_of_era :
    (day : ℕ)
    → day < era_days
    → let yoe = year_of_era day in yoe * 365 + yoe / 4 - yoe / 100 + (day - days_before yoe) ≡ day
day_of_era day h = omega (arith, days_before-le day h)

-- Eras and days in an era, back to the count that they were taken from.
eras_and_days :
    (days : ℤ)
    → let shifted = days +ℤ pos epoch_days in
      div_euclid shifted era_days *ℕ era_days +ℤ pos (rem_euclid shifted era_days) -ℤ pos epoch_days
      ≡ days
eras_and_days days =
    let shifted = days +ℤ pos epoch_days in
    let era = div_euclid shifted era_days in
    let sum = era *ℕ era_days +ℤ pos (rem_euclid shifted era_days) in
    equal_parts (sum -ℤ pos epoch_days) days (
      omega (
        arith,
        minus_parts sum (pos epoch_days),
        plus_parts (era *ℕ era_days) (pos (rem_euclid shifted era_days)),
        times_parts era era_days,
        euclid_parts shifted,
        plus_parts days (pos epoch_days),
      ))

-- The month and the day of the month, back to the day of the year.
month_days :
    (doy : ℕ)
    → doy ≤ 365
    → let m = month_of (month_prime doy) in
      let prime = if ltb 2 m then m - 3 else m + 9 in
      (153 * prime + 2) / 5 + (doy - (153 * month_prime doy + 2) / 5 + 1) - 1 ≡ doy
month_days doy h = ground arith

-- The date of any day count, also before 1970, has this day count.
pub days_from_civil-civil_from_days : (days : ℤ) → days_from_civil (civil_from_days days) ≡ days
unfolding civil_from_days days_from_civil
days_from_civil-civil_from_days days =
    let shifted = days +ℤ pos epoch_days in
    let era = div_euclid shifted era_days in
    let doe = rem_euclid shifted era_days in
    let yoe = year_of_era doe in
    let doy = doe - days_before yoe in
    let late : ℕ = if leb (month_of (month_prime doy)) 2 then 1 else 0 in
    let y = pos yoe +ℤ era *ℕ 400 +ℤ pos late in
    let back = y -ℤ pos late in
    let small = rem_euclid-lt shifted in
    let q = div_year back era yoe (year_of_era-lt doe small) (
      omega (
        arith,
        minus_parts y (pos late),
        plus_parts (pos yoe +ℤ era *ℕ 400) (pos late),
        plus_parts (pos yoe) (era *ℕ 400),
        times_parts era 400,
      )) in
    rw q.0 (
      rw q.1 (
        rw (month_days doy (day_of_year-le doe small))
          (rw (day_of_era doe small) (eras_and_days days))))
