-- ===== src/Civil/Valid.antt =====
-- The dates of day counts are dates of the calendar.
use rpi_omt_client.Prelude.{
  ℕ, ◌+◌, ◌-◌, ◌*◌, ◌/◌, ◌%◌, ◌≤◌, ◌<◌, ◌≡◌, inl, inr, refl, arith, ltb, leb, if◌then◌else◌, Bool,
  get_or, holds_below, holds_at, Bool-cases, leb→le, ltb→lt, ap, ℤ, pos, pos_part, neg_part, ◌+ℤ◌,
  ◌*ℕ◌, plus_parts, times_parts, div_euclid, rem_euclid, true,
}
use rpi_omt_client.Rfc3339.{days_in, leap, days_in_month}
use rpi_omt_client.Civil.RoundTrip.{rem_euclid-lt, day_of_year-le}
use rpi_omt_client.Civil.{
  epoch_days, era_days, year_of_era, days_before, month_prime, month_of, civil_from_days,
}

-- The 366th day of a year that starts in March is the 29 February of a leap year.
long_year_four :
    (day : ℕ)
    → day < era_days
    → day - days_before (year_of_era day) ≡ 365
    → (year_of_era day + 1) % 4 ≡ 0
long_year_four day h e = omega arith

long_year_hundred :
    (day : ℕ)
    → day < era_days
    → day - days_before (year_of_era day) ≡ 365
    → (year_of_era day + 1) % 100 ≡ 0
    → (year_of_era day + 1) % 400 ≡ 0
long_year_hundred day h e c = omega arith

month_bounds :
    (doy : ℕ)
    → doy ≤ 365
    → let m = month_of (month_prime doy) in
      let d = doy - (153 * month_prime doy + 2) / 5 + 1 in (1 ≤ m) × (m ≤ 12) × (1 ≤ d) × (d ≤ 31)
month_bounds doy h = ground arith

-- In the first 365 days of a year that starts in March, each month has its days.
abbrev in_month : ℕ → Bool
in_month doy =
    leb (doy - (153 * month_prime doy + 2) / 5 + 1)
      (get_or days_in (month_of (month_prime doy) - 1) 0)

in_month_table : holds_below in_month 365 ≡ true
unfolding holds_below
in_month_table = refl

leap_year :
    (day y j k : ℕ)
    → day < era_days
    → day - days_before (year_of_era day) ≡ 365
    → y + 400 * k ≡ year_of_era day + 1 + 400 * j
    → leap y ≡ true
leap_year day y j k h e shift =
    let four : y % 4 ≡ 0 = omega (arith, long_year_four day h e, shift) in
    let again : (y % 100 ≡ 0) → (y % 400 ≡ 0) = λ c.
      let c' : (year_of_era day + 1) % 100 ≡ 0 = omega (arith, c, shift) in
      omega (arith, long_year_hundred day h e c', shift) in
    ground (arith, four, again)

last_month :
    (doy : ℕ)
    → doy ≡ 365
    → (month_of (month_prime doy) ≡ 2) × (doy - (153 * month_prime doy + 2) / 5 + 1 ≡ 29)
last_month doy e = ground arith

late_year :
    (late doy : ℕ)
    → doy ≡ 365
    → late ≡ (if leb (month_of (month_prime doy)) 2 then 1 else 0)
    → late ≡ 1
late_year late doy e h = ground arith

abbrev IsDate : ℕ → ℕ → ℕ → Type 0
IsDate y m d = (1 ≤ m) × (m ≤ 12) × (1 ≤ d) × (d ≤ days_in_month y m)

in_calendar :
    (doe y late j k : ℕ)
    → doe < era_days
    → let doy = doe - days_before (year_of_era doe) in
      let m = month_of (month_prime doy) in
      late ≡ (if leb m 2 then 1 else 0)
      → y + 400 * k ≡ year_of_era doe + late + 400 * j
      → IsDate y m (doy - (153 * month_prime doy + 2) / 5 + 1)
in_calendar doe y late j k small is_late shift =
    let doy = doe - days_before (year_of_era doe) in
    let le = day_of_year-le doe small in
    let b = month_bounds doy le in
    elim (Bool-cases (ltb doy 365)) [
      | inl first ↦
          let fits = leb→le _ _ (holds_at in_month 365 doy in_month_table (ltb→lt doy 365 first)) in
          (b.0, b.1, b.2, ground (arith, fits))
      | inr last ↦
          let end : doy ≡ 365 = ground arith in
          let m = last_month doy end in
          let leaps =
            leap_year doe y j k small end (omega (arith, shift, late_year late doy end is_late)) in
          (b.0, b.1, b.2, rw (m.0, m.1) (ground (arith, leaps)))
    ]

-- The year of a day count, as an equation between numbers.
year_shift :
    (yoe late : ℕ) (era : ℤ) (y : ℕ)
    → pos yoe +ℤ era *ℕ 400 +ℤ pos late ≡ pos y
    → y + 400 * neg_part era ≡ yoe + late + 400 * pos_part era
year_shift yoe late era y e = omega (
  arith,
  plus_parts (pos yoe +ℤ era *ℕ 400) (pos late),
  plus_parts (pos yoe) (era *ℕ 400),
  times_parts era 400,
  ap pos_part e,
  ap neg_part e,
)

pub civil_from_days-IsDate :
    (days : ℤ) (y : ℕ)
    → (civil_from_days days).year ≡ pos y
    → IsDate y (civil_from_days days).month (civil_from_days days).day
unfolding civil_from_days
civil_from_days-IsDate days y e =
    let shifted = days +ℤ pos epoch_days in
    let era = div_euclid shifted era_days in
    let doe = rem_euclid shifted era_days in
    let yoe = year_of_era doe in
    let doy = doe - days_before yoe in
    let small = rem_euclid-lt shifted in
    let late : ℕ = if leb (month_of (month_prime doy)) 2 then 1 else 0 in
    in_calendar doe y late (pos_part era) (neg_part era) small refl (year_shift yoe late era y e)
