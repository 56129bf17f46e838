-- ===== src/Decimal/Strict.antt =====
-- The reader takes exactly the digit strings of a value in range, and reads back what is printed.
use rpi_omt_client.Prelude.{
  ℕ, zero, suc, ◌+◌, ◌-◌, ◌*◌, ◌/◌, ◌%◌, ◌^◌, ◌≤◌, ◌<◌, ◌≡◌, ◌≢◌, refl, ◌∙◌, true, ◌&&◌, Option,
  none, some, [], ◌∷◌, arith, ltb, leb, if◌then◌else◌, lt→ltb, le→leb, ap, all, Bytes, Bool-cases,
  inl, inr, ◌⊎◌,
}
use native.Mathlib.Nat.{pow-suc}
use rpi_omt_client.Decimal.{
  is_ascii_digit, parse_digits, parse_u64, digit_count, decimal_onto, decimal,
}

-- The number that a digit string stands for, after the digits of `acc`.
abbrev pub value_from : ℕ → Bytes → ℕ
value_from acc [] = acc
value_from acc (c ∷ cs) = value_from (acc * 10 + (c - b'0')) cs

pub le-value_from : (acc : ℕ) (s : Bytes) → acc ≤ value_from acc s
le-value_from acc [] = omega arith
le-value_from acc (c ∷ cs) = omega (arith, le-value_from (acc * 10 + (c - b'0')) cs)

abbrev accepts : ℕ → Bytes → ℕ → Option ℕ
accepts acc s max =
    if all is_ascii_digit s && leb (value_from acc s) max then some (value_from acc s) else none

parse_digits-accepts :
    (s : Bytes) (acc max : ℕ)
    → acc ≤ max
    → max < 2 ^ 64
    → parse_digits acc s max ≡ accepts acc s max
unfolding parse_digits
parse_digits-accepts [] acc max h fits = ground arith
parse_digits-accepts (c ∷ cs) acc max h fits =
    let v = acc * 10 + (c - b'0') in
    ground (arith, le-value_from v cs, parse_digits-accepts cs v max)

-- For a maximum that is a u64, a string that is not empty is accepted exactly when it holds ASCII
-- digits only and stands for a value of at most the maximum; the value is then returned.
pub parse_u64-strict :
    (s : Bytes) (max : ℕ)
    → max < 2 ^ 64
    → s ≢ []
    → parse_u64 s max
      ≡ (if all is_ascii_digit s && leb (value_from 0 s) max then some (value_from 0 s) else none)
unfolding parse_u64
parse_u64-strict [] max fits h = absurd (h refl)
parse_u64-strict (c ∷ cs) max fits h = parse_digits-accepts (c ∷ cs) 0 max (omega arith) fits

parse_nothing : (max v : ℕ) → parse_u64 [] max ≢ some v
unfolding parse_u64
parse_nothing max v h = cc

pub parse_u64-le : (s : Bytes) (max v : ℕ) → max < 2 ^ 64 → parse_u64 s max ≡ some v → v ≤ max
parse_u64-le [] max v fits h = absurd (parse_nothing max v h)
parse_u64-le (c ∷ cs) max v fits h = ground (arith, h, parse_u64-strict (c ∷ cs) max fits (λ e. cc))

decimal_onto-value :
    (left n : ℕ) (out : Bytes)
    → n < 10 ^ left
    → 0 < left
    → value_from 0 (decimal_onto left n out) ≡ value_from n out
unfolding decimal_onto
decimal_onto-value zero n out h pos_left = absurd (omega arith)
decimal_onto-value (suc zero) n out h pos_left =
    rw (lt→ltb n 10 h) (ap (λ k. value_from k out) (omega arith))
decimal_onto-value (suc (suc left)) n out h pos_left = elim (Bool-cases (ltb n 10)) [
  | inl small ↦ rw small (ap (λ k. value_from k out) (omega arith))
  | inr large ↦ rw large (
      decimal_onto-value (suc left) (n / 10) ((n % 10 + b'0') ∷ out)
        (omega (arith, pow-suc 10 (suc left))) (omega arith)
      ∙ ap (λ k. value_from k out) (omega arith))
]

decimal_onto-digits :
    (left n : ℕ) (out : Bytes)
    → all is_ascii_digit out ≡ true
    → all is_ascii_digit (decimal_onto left n out) ≡ true
unfolding decimal_onto
decimal_onto-digits zero n out h = h
decimal_onto-digits (suc left) n out h =
    ground (arith, decimal_onto-digits left (n / 10) ((n % 10 + b'0') ∷ out))

decimal_onto-ne-nil :
    (left n : ℕ) (out : Bytes) → (out ≢ []) ⊎ (0 < left) → decimal_onto left n out ≢ []
unfolding decimal_onto
decimal_onto-ne-nil zero n out (inl h) = h
decimal_onto-ne-nil zero n out (inr h) = absurd (omega arith)
decimal_onto-ne-nil (suc left) n out h = elim (Bool-cases (ltb n 10)) [
  | inl small ↦ rw small (λ e. cc)
  | inr large ↦ rw large (decimal_onto-ne-nil left (n / 10) ((n % 10 + b'0') ∷ out) (inl (λ e. cc)))
]

-- The decimal digits of any number that is at most the maximum, itself a u64, are read back as the
-- number.
pub parse_u64-decimal : (n max : ℕ) → n ≤ max → max < 2 ^ 64 → parse_u64 (decimal n) max ≡ some n
unfolding decimal
parse_u64-decimal n max h fits =
    let s = decimal_onto digit_count n [] in
    let same : value_from 0 s ≡ n =
      decimal_onto-value digit_count n [] (omega arith) (omega arith) in
    parse_u64-strict s max fits (decimal_onto-ne-nil digit_count n [] (inr (omega arith)))
    ∙ rw (decimal_onto-digits digit_count n [] refl, same) (rw (le→leb n max h))
