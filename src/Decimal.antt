-- ===== src/Decimal.antt =====
-- `parse_u64` of crates/omt-common/src/buf.rs, the strict decimal reader that the target grammar, the
-- decode ceiling and the connector ids go through. `decimal` is Rust's own `Display` of an unsigned
-- integer of 64 bits at most, which the program's `format!` calls use.
pub mod Strict
pub mod Digits
mod Tests
use rpi_omt_client.Prelude.{
  ℕ, zero, suc, ◌+◌, ◌-◌, ◌*◌, ◌/◌, ◌%◌, ◌^◌, Bool, Option, none, some, [], ◌∷◌, ltb, leb, within,
  if◌then◌else◌, Bytes,
}

-- `u8::is_ascii_digit`
abbrev pub is_ascii_digit : ℕ → Bool
is_ascii_digit c = within b'0' b'9' c

-- `u64::checked_mul` and `u64::checked_add`, on the true result
abbrev pub checked64 : ℕ → Option ℕ
checked64 n = if ltb n (2 ^ 64) then some n else none

-- one round of the loop, up to the comparison with `max`
unfoldable pub next_value : ℕ → ℕ → Option ℕ
next_value value c = elim (checked64 (value * 10)) [
  | none ↦ none
  | some tens ↦ checked64 (tens + (c - b'0'))
]

unfoldable pub parse_digits : ℕ → Bytes → ℕ → Option ℕ
unfolding next_value
parse_digits value [] max = some value
parse_digits value (c ∷ cs) max =
    if is_ascii_digit c
    then elim (next_value value c) [
      | none ↦ none
      | some v ↦ if ltb max v then none else parse_digits v cs max
    ]
    else none

unfoldable pub parse_u64 : Bytes → ℕ → Option ℕ
unfolding parse_digits
parse_u64 [] max = none
parse_u64 (c ∷ cs) max = parse_digits 0 (c ∷ cs) max

abbrev pub digit_count : ℕ
digit_count = 20

pub decimal_onto : ℕ → ℕ → Bytes → Bytes
decimal_onto zero n out = out
decimal_onto (suc left) n out =
    let more = decimal_onto left (n / 10) ((n % 10 + b'0') ∷ out) in
    if ltb n 10 then (n + b'0') ∷ out else more

-- 20 digits hold any u64.
unfoldable pub decimal : ℕ → Bytes
unfolding decimal_onto
decimal n = decimal_onto digit_count n []
