-- ===== src/Civil/Tests.antt =====
-- Runs of the calendar of crates/omt-common/src/timefmt.rs, and its theorems at concrete inputs.
use rpi_omt_client.Prelude.{◌≡◌, refl, pos, negsuc, ◌+ℤ◌, ◌*ℕ◌, div_euclid, rem_euclid}
use rpi_omt_client.Civil.{civil_from_days, days_from_civil}
use rpi_omt_client.Civil.RoundTrip.{days_from_civil-civil_from_days}

last_leap_day : civil_from_days (pos 11016) ≡ record { year = pos 2000; month = 2; day = 29 }
unfolding civil_from_days ◌+ℤ◌ ◌*ℕ◌ div_euclid rem_euclid
last_leap_day = refl

before_the_epoch : civil_from_days (negsuc 0) ≡ record { year = pos 1969; month = 12; day = 31 }
unfolding civil_from_days ◌+ℤ◌ ◌*ℕ◌ div_euclid rem_euclid
before_the_epoch = refl

days_from_civil-civil_from_days_example :
    days_from_civil (civil_from_days (negsuc 799999)) ≡ negsuc 799999
days_from_civil-civil_from_days_example = days_from_civil-civil_from_days (negsuc 799999)
