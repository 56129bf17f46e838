-- ===== src/Civil.antt =====
-- The calendar of crates/omt-common/src/timefmt.rs: day counts since 1970-01-01 and proleptic Gregorian
-- dates. An `i64` is an integer with no ends: both callers of `civil_from_days` divide an i64 of seconds
-- by 86400, and `days_from_civil` is called with a year of four digits.
pub mod RoundTrip
pub mod Valid
mod Range
mod Tests
use rpi_omt_client.Prelude.{
  ℕ, ◌+◌, ◌-◌, ◌*◌, ◌/◌, ◌%◌, Bool, ltb, leb, if◌then◌else◌, ℤ, pos, ◌+ℤ◌, ◌-ℤ◌, ◌*ℕ◌, div_euclid,
  rem_euclid,
}

-- 0000-03-01 is this many days before 1970-01-01; an era is 400 years.
abbrev pub epoch_days : ℕ
epoch_days = 719468

abbrev pub era_days : ℕ
era_days = 146097

abbrev pub year_of_era : ℕ → ℕ
year_of_era day = (day - day / 1460 + day / 36524 - day / 146096) / 365

-- The days of an era before a year of it, which starts in March.
abbrev pub days_before : ℕ → ℕ
days_before year = 365 * year + year / 4 - year / 100

abbrev pub month_prime : ℕ → ℕ
month_prime day_of_year = (5 * day_of_year + 2) / 153

abbrev pub month_of : ℕ → ℕ
month_of prime = if ltb prime 10 then prime + 3 else prime - 9

-- Year, month and day.
pub record Date : Type 0 where
  pub year : ℤ
  pub month : ℕ
  pub day : ℕ

unfoldable pub civil_from_days : ℤ → Date
civil_from_days days =
    let shifted = days +ℤ pos epoch_days in
    let era = div_euclid shifted era_days in
    let day_of_era = rem_euclid shifted era_days in
    let yoe = year_of_era day_of_era in
    let day_of_year = day_of_era - days_before yoe in
    let prime = month_prime day_of_year in
    let month = month_of prime in
    record {
      year = pos yoe +ℤ era *ℕ 400 +ℤ pos (if leb month 2 then 1 else 0);
      month = month;
      day = day_of_year - (153 * prime + 2) / 5 + 1;
    }

unfoldable pub days_from_civil : Date → ℤ
days_from_civil date =
    let y = date.year -ℤ pos (if leb date.month 2 then 1 else 0) in
    let era = div_euclid y 400 in
    let yoe = rem_euclid y 400 in
    let prime = if ltb 2 date.month then date.month - 3 else date.month + 9 in
    let day_of_year = (153 * prime + 2) / 5 + date.day - 1 in
    era *ℕ era_days +ℤ pos (yoe * 365 + yoe / 4 - yoe / 100 + day_of_year) -ℤ pos epoch_days
