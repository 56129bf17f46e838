-- ===== src/Rfc3339/Fraction.antt =====
-- The fraction of a second: nine digits at most count, so that nanoseconds never reach a second.
use rpi_omt_client.Prelude.{
  ℕ, zero, suc, ◌+◌, ◌-◌, ◌*◌, ◌^◌, ◌≤◌, ◌<◌, ◌≡◌, refl, subst, true, Option, none, some, [], ◌∷◌,
  arith, ltb, if◌then◌else◌, Bytes, min, ℤ, drop, Option-cases, Bool-cases, inl, inr,
}
use rpi_omt_client.Decimal.{is_ascii_digit}
use rpi_omt_client.Rfc3339.{
  Fields, fraction_digits, scaled, fraction, zone, behind, at_end, read_fields, parse_rfc3339,
}
use native.Mathlib.Nat.{pow-suc, pow-zero}

one_more :
    (n frac c : ℕ)
    → is_ascii_digit c ≡ true
    → frac < 10 ^ min n 9
    → (if ltb n 9 then frac * 10 + (c - b'0') else frac) < 10 ^ min (n + 1) 9
one_more n frac c digit h = elim (Bool-cases (ltb n 9)) [
  | inl early ↦
      let here : min n 9 ≡ n = ground arith in
      let next : min (n + 1) 9 ≡ suc n = ground arith in
      let bound : frac < 10 ^ n = subst (λ k. frac < 10 ^ k) here h in
      let low : c ≤ b'9' = ground arith in rw (early, next) (omega (arith, pow-suc 10 n))
  | inr late ↦
      let here : min n 9 ≡ 9 = ground arith in
      let next : min (n + 1) 9 ≡ 9 = ground arith in
      rw (late, next) (subst (λ k. frac < 10 ^ k) here h)
]

-- `frac` has `n` digits, of which nine count.
fraction_digits-lt :
    (n frac : ℕ) (s : Bytes)
    → frac < 10 ^ min n 9
    → (fraction_digits n frac s).1 < 10 ^ min (fraction_digits n frac s).0 9
unfolding fraction_digits
fraction_digits-lt n frac [] h = h
fraction_digits-lt n frac (c ∷ cs) h = elim (Bool-cases (is_ascii_digit c)) [
  | inl digit ↦ rw digit (
      fraction_digits-lt (n + 1) (if ltb n 9 then frac * 10 + (c - b'0') else frac) cs
        (one_more n frac c digit h))
  | inr other ↦ rw other h
]

scaled-lt : (left digits frac : ℕ) → frac < 10 ^ digits → scaled left frac < 10 ^ (digits + left)
unfolding scaled
scaled-lt zero digits frac h = subst (λ k. frac < 10 ^ k) (omega arith) h
scaled-lt (suc left) digits frac h =
    subst (λ k. scaled left (frac * 10) < 10 ^ k) (omega arith)
      (scaled-lt left (suc digits) (frac * 10) (omega (arith, pow-suc 10 digits)))

scaled_fraction-lt : (n frac : ℕ) → frac < 10 ^ min n 9 → scaled (9 - n) frac < 10 ^ 9
scaled_fraction-lt n frac h =
    let nine : min n 9 + (9 - n) ≡ 9 = omega arith in
    subst (λ k. scaled (9 - n) frac < 10 ^ k) nine (scaled-lt (9 - n) (min n 9) frac h)

fraction-lt : (s rest : Bytes) (frac : ℕ) → fraction s ≡ some (frac, rest) → frac < 10 ^ 9
unfolding fraction
fraction-lt [] rest frac h = ground arith
fraction-lt (c ∷ cs) rest frac h = ground (
  arith,
  scaled_fraction-lt (fraction_digits 0 0 cs).0 (fraction_digits 0 0 cs).1
      (fraction_digits-lt 0 0 cs (omega (arith, pow-zero 10))),
)

at_end-lt :
    (f : Fields) (frac : ℕ) (o : Option (ℤ × Bytes)) (t : ℤ) (ns : ℕ)
    → frac < 10 ^ 9
    → at_end f frac o ≡ some (t, ns)
    → ns < 10 ^ 9
unfolding at_end
at_end-lt f frac none t ns small h = cc
at_end-lt f frac (some (offset, [])) t ns small h = ground arith
at_end-lt f frac (some (offset, c ∷ cs)) t ns small h = cc

behind-lt :
    (f : Fields) (o : Option (ℕ × Bytes)) (t : ℤ) (ns : ℕ)
    → ((frac : ℕ) (rest : Bytes) → o ≡ some (frac, rest) → frac < 10 ^ 9)
    → behind f o ≡ some (t, ns)
    → ns < 10 ^ 9
unfolding behind
behind-lt f none t ns small h = cc
behind-lt f (some (frac, rest)) t ns small h =
    at_end-lt f frac (zone rest) t ns (small frac rest refl) h

-- Whatever date-time is parsed, its nanoseconds are fewer than a second's, however many digits the
-- fraction has.
pub parse_rfc3339-lt : (s : Bytes) (t : ℤ) (ns : ℕ) → parse_rfc3339 s ≡ some (t, ns) → ns < 10 ^ 9
unfolding parse_rfc3339
parse_rfc3339-lt s t ns h = elim (Option-cases (read_fields s)) [
  | inl e ↦ cc
  | inr (f, e) ↦ ground (
    arith,
    behind-lt f (fraction (drop 19 s)) t ns (λ frac rest. fraction-lt (drop 19 s) rest frac),
  )
]
