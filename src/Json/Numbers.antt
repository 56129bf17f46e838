-- ===== src/Json/Numbers.antt =====
-- The magnitude of an integer literal, and what the typed readers make of it.
use rpi_omt_client.Prelude.{
  ℕ, ◌+◌, ◌-◌, ◌*◌, ◌^◌, ◌<◌, ◌≡◌, none, some, [], ◌∷◌, arith, ltb, if◌then◌else◌, Bytes,
}
use rpi_omt_client.Decimal.Strict.{value_from, le-value_from}
use rpi_omt_client.Json.{magnitude_from}

-- From any start below 2 ^ 64 the checked fold over the digits gives their unbounded decimal value
-- when that is below 2 ^ 64, and nothing otherwise.
pub magnitude_from-value_from :
    (ds : Bytes) (m : ℕ)
    → m < 2 ^ 64
    → magnitude_from m ds
      ≡ (if ltb (value_from m ds) (2 ^ 64) then some (value_from m ds) else none)
unfolding magnitude_from
magnitude_from-value_from [] m h = ground arith
magnitude_from-value_from (d ∷ ds) m h =
    let v = m * 10 + (d - b'0') in
    ground (arith, le-value_from v ds, magnitude_from-value_from ds v)
