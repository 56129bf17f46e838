-- ===== src/Civil/Range.antt =====
-- The sums and products of `civil_from_days` for the day counts of `split`, as i64s.
use rpi_omt_client.Prelude.{
  ℕ, ◌<◌, ◌≤◌, ◌^◌, arith, ℤ, pos, negsuc, pos_part, neg_part, IsI64, ◌+ℤ◌, ◌*ℕ◌, div_euclid,
}
use rpi_omt_client.Civil.{epoch_days, era_days}

-- An integer well inside the i64s.
abbrev Below : ℕ → ℤ → Type 0
Below limit z = (pos_part z < limit) × (neg_part z < limit)

Below-IsI64 : (limit : ℕ) (z : ℤ) → limit ≤ 2 ^ 63 → Below limit z → IsI64 z
Below-IsI64 limit (pos n) h b = omega arith
Below-IsI64 limit (negsuc n) h b = omega arith

div_euclid-Below : (seconds : ℤ) → IsI64 seconds → Below (2 ^ 47) (div_euclid seconds 86400)
unfolding div_euclid
div_euclid-Below (pos n) h = omega arith
div_euclid-Below (negsuc n) h = omega arith

shifted-Below : (days : ℤ) → Below (2 ^ 47) days → Below (2 ^ 48) (days +ℤ pos epoch_days)
unfolding ◌+ℤ◌
shifted-Below (pos n) h = ground arith
shifted-Below (negsuc n) h = ground arith

era-Below :
    (shifted : ℤ)
    → Below (2 ^ 48) shifted
    → Below (2 ^ 49) (div_euclid shifted era_days *ℕ era_days)
unfolding div_euclid ◌*ℕ◌
era-Below (pos n) h = ground arith
era-Below (negsuc n) h = ground arith

-- For any i64 of seconds, the day count that `split` takes from it, that count from the start of the
-- first era, and the days before its era are i64s.
split_days-IsI64 :
    (seconds : ℤ)
    → IsI64 seconds
    → IsI64 (div_euclid seconds 86400)
      × IsI64 (div_euclid seconds 86400 +ℤ pos epoch_days)
      × IsI64 (div_euclid (div_euclid seconds 86400 +ℤ pos epoch_days) era_days *ℕ era_days)
split_days-IsI64 seconds h =
    let days = div_euclid-Below seconds h in
    let shifted = shifted-Below (div_euclid seconds 86400) days in
    let era = era-Below (div_euclid seconds 86400 +ℤ pos epoch_days) shifted in
    (
      Below-IsI64 (2 ^ 47) _ (omega arith) days,
      Below-IsI64 (2 ^ 48) _ (omega arith) shifted,
      Below-IsI64 (2 ^ 49) _ (omega arith) era,
    )
