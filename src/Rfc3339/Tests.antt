-- ===== src/Rfc3339/Tests.antt =====
-- Runs of the date-times of crates/omt-common/src/timefmt.rs, and their theorems at concrete inputs.
use rpi_omt_client.Prelude.{
  ◌≡◌, refl, arith, none, some, ℤ, pos, negsuc, codes, ◌+ℤ◌, ◌-ℤ◌, ◌*ℕ◌, div_euclid, rem_euclid,
}
use rpi_omt_client.Decimal.{decimal}
use rpi_omt_client.Civil.{civil_from_days, days_from_civil}
use rpi_omt_client.Rfc3339.RoundTrip.{parse_rfc3339-rfc3339_millis}
use rpi_omt_client.Rfc3339.{
  split, rfc3339_millis, compact_utc, parse_rfc3339, read_fields, digits, field_value, behind,
  at_end, fraction, fraction_digits, scaled, zone, numeric_offset,
}

-- The unit tests of the source.
parses_a_fraction :
    parse_rfc3339 (codes "2023-11-14t22:13:20.5z") ≡ some (pos 1700000000, 500000000)
unfolding parse_rfc3339 read_fields digits field_value behind at_end fraction fraction_digits scaled
    zone days_from_civil ◌+ℤ◌ ◌-ℤ◌ ◌*ℕ◌ div_euclid rem_euclid
parses_a_fraction = refl

parses_an_offset : parse_rfc3339 (codes "2023-11-14T23:13:20+01:00") ≡ some (pos 1700000000, 0)
unfolding parse_rfc3339 read_fields digits field_value behind at_end fraction zone numeric_offset
    days_from_civil ◌+ℤ◌ ◌-ℤ◌ ◌*ℕ◌ div_euclid rem_euclid
parses_an_offset = refl

refuses_a_day : parse_rfc3339 (codes "2023-02-29T00:00:00Z") ≡ none
unfolding parse_rfc3339 read_fields digits field_value
refuses_a_day = refl

abbrev day_2000 : ℤ
day_2000 = pos 951782400

prints_compactly : compact_utc day_2000 ≡ codes "20000229T000000Z"
unfolding compact_utc decimal split civil_from_days ◌+ℤ◌ ◌*ℕ◌ div_euclid rem_euclid
prints_compactly = refl

prints_the_past : rfc3339_millis (negsuc 0) 0 ≡ codes "1969-12-31T23:59:59.000Z"
unfolding rfc3339_millis decimal split civil_from_days ◌+ℤ◌ ◌*ℕ◌ div_euclid rem_euclid
prints_the_past = refl

in_the_year_2023 : (split (pos 1700000000)).date.year ≡ pos 2023
unfolding split civil_from_days ◌+ℤ◌ ◌*ℕ◌ div_euclid rem_euclid
in_the_year_2023 = refl

parse_rfc3339-rfc3339_millis_example :
    parse_rfc3339 (rfc3339_millis (pos 1700000000) 999) ≡ some (pos 1700000000, 999000000)
parse_rfc3339-rfc3339_millis_example =
    parse_rfc3339-rfc3339_millis (pos 1700000000) 999 2023 in_the_year_2023 (omega arith)
