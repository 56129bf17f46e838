-- ===== src/Decimal/Digits.antt =====
-- The digits that `decimal` prints, one by one, for small numbers.
use rpi_omt_client.Prelude.{
  ℕ, suc, ◌+◌, ◌/◌, ◌%◌, ◌≤◌, ◌<◌, ◌≡◌, ◌∙◌, false, [], ◌∷◌, arith, ltb, lt→ltb, Bytes,
}
use rpi_omt_client.Decimal.{decimal, decimal_onto}

last_digit : (left n : ℕ) (out : Bytes) → n < 10 → decimal_onto (suc left) n out ≡ (n + b'0') ∷ out
unfolding decimal_onto
last_digit left n out h = rw (lt→ltb n 10 h)

more_digits :
    (left n : ℕ) (out : Bytes)
    → 10 ≤ n
    → decimal_onto (suc left) n out ≡ decimal_onto left (n / 10) ((n % 10 + b'0') ∷ out)
unfolding decimal_onto
more_digits left n out h = let big : ltb n 10 ≡ false = ground arith in rw big

pub decimal-one : (n : ℕ) → n < 10 → decimal n ≡ (n + b'0') ∷ []
unfolding decimal
decimal-one n h = last_digit 19 n [] h

pub decimal-two : (n : ℕ) → 10 ≤ n → n < 100 → decimal n ≡ (n / 10 + b'0') ∷ (n % 10 + b'0') ∷ []
unfolding decimal
decimal-two n lo h = more_digits 19 n [] lo ∙ last_digit 18 (n / 10) _ (omega arith)

pub decimal-three :
    (n : ℕ)
    → 100 ≤ n
    → n < 1000
    → decimal n ≡ (n / 10 / 10 + b'0') ∷ (n / 10 % 10 + b'0') ∷ (n % 10 + b'0') ∷ []
unfolding decimal
decimal-three n lo h =
    more_digits 19 n [] (omega arith)
    ∙ more_digits 18 (n / 10) _ (omega arith)
    ∙ last_digit 17 (n / 10 / 10) _ (omega arith)

pub decimal-four :
    (n : ℕ)
    → 1000 ≤ n
    → n < 10000
    → decimal n
      ≡ (n / 10 / 10 / 10 + b'0')
        ∷ (n / 10 / 10 % 10 + b'0')
        ∷ (n / 10 % 10 + b'0')
        ∷ (n % 10 + b'0')
        ∷ []
unfolding decimal
decimal-four n lo h =
    more_digits 19 n [] (omega arith)
    ∙ more_digits 18 (n / 10) _ (omega arith)
    ∙ more_digits 17 (n / 10 / 10) _ (omega arith)
    ∙ last_digit 16 (n / 10 / 10 / 10) _ (omega arith)
