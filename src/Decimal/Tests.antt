-- ===== src/Decimal/Tests.antt =====
-- Runs of `parse_u64`, and the theorems about it at concrete inputs.
use rpi_omt_client.Prelude.{◌≡◌, refl, none, some, arith, codes, ◌^◌, ◌-◌}
use rpi_omt_client.Decimal.{parse_u64, decimal}
use rpi_omt_client.Decimal.Strict.{parse_u64-strict, parse_u64-decimal}

strict :
    (parse_u64 (codes "6400") 65535 ≡ some 6400)
    × (parse_u64 (codes "") 65535 ≡ none)
    × (parse_u64 (codes "+1") 65535 ≡ none)
    × (parse_u64 (codes "65536") 65535 ≡ none)
    × (parse_u64 (codes "99999999999999999999999") 65535 ≡ none)
unfolding parse_u64
strict = (refl, refl, refl, refl, refl)

largest_u64 : decimal (2 ^ 64 - 1) ≡ codes "18446744073709551615"
unfolding decimal
largest_u64 = refl

parse_u64-strict_example : parse_u64 (codes "0060") 60 ≡ some 60
parse_u64-strict_example = parse_u64-strict (codes "0060") 60 (omega arith) (λ e. cc)

parse_u64-decimal_example : parse_u64 (decimal 6400) 65535 ≡ some 6400
parse_u64-decimal_example = parse_u64-decimal 6400 65535 (omega arith) (omega arith)
