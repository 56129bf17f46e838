-- ===== src/VmxBits/Loop.antt =====
-- The loop of `bits`, round by round.
use native.Mathlib.Nat.{mod-eq_of_lt, mul-le-mul_right, mul-le-mul, mul_assoc, add-mul}
use rpi_omt_client.Prelude.{
  ℕ, zero, suc, ◌+◌, ◌-◌, ◌*◌, ◌^◌, ◌≤◌, ◌<◌, ◌≡◌, inl, inr, refl, sym, ap, subst, ◌∙◌, min, false,
  arith, leb, ◌==◌, if◌then◌else◌, take, pos, Bool-cases,
}
use rpi_omt_client.VmxBits.{Reader, flush, shl64, bits_step, bits_rounds, bits}
use rpi_omt_client.VmxBits.Words.{value_from, value_from-pow, value_from-lt, pow-add}
use rpi_omt_client.VmxBits.Reading.{
  unread, IsReading, length-unread, take_bits_lem, after_take, after_take-IsReading,
  unread-after_take, length_next, AreBits-take-unread,
}
use rpi_omt_client.VmxBits.Counted.{
  flush-unread, pow_pos, bits_rounds_corrupt, ReadsBits, ReadsBits-after,
}

-- The shift loses no bit while there is room for all that is to come.
shift : ℕ → ℕ → ℕ
shift value c = if value == 0 then 0 else shl64 value c

two_le : (m : ℕ) → 2 ≤ suc m + 1
two_le m = omega arith

not_zero : (m : ℕ) → (suc m == 0) ≡ false
not_zero m = ground arith

shift_lem : (value c : ℕ) → (value + 1) * 2 ^ c ≤ 2 ^ 64 → shift value c ≡ value * 2 ^ c
unfolding shift
shift_lem zero c h = omega arith
shift_lem (suc m) c h = elim (Bool-cases (leb 64 c)) [
  | inl e ↦
      let big : 2 ^ 64 ≤ 2 ^ c =
        subst (λ (j : ℕ). 2 ^ 64 ≤ j)
          (sym (pow-add 64 (c - 64)) ∙ ap (λ (j : ℕ). 2 ^ j) (ground (arith, e)))
          (omega (arith, mul-le-mul_right (2 ^ 64) (pow_pos (c - 64)))) in
      absurd (omega (arith, mul-le-mul_right (2 ^ c) (two_le m)))
  | inr e ↦ rw (not_zero m, e) (mod-eq_of_lt (omega (arith, add-mul (suc m) 1 (2 ^ c), pow_pos c)))
]

room_left :
    (value c n y : ℕ)
    → c ≤ n
    → (value + 1) * 2 ^ n ≤ 2 ^ 64
    → y < 2 ^ c
    → ((value * 2 ^ c + y) + 1) * 2 ^ (n - c) ≤ 2 ^ 64
room_left value c n y h k l =
    let e : (value + 1) * 2 ^ c * 2 ^ (n - c) ≡ (value + 1) * 2 ^ n =
      mul_assoc (value + 1) (2 ^ c) (2 ^ (n - c))
      ∙ ap (λ (j : ℕ). (value + 1) * j)
          (sym (pow-add c (n - c)) ∙ ap (λ (j : ℕ). 2 ^ j) (omega arith)) in
    omega (
      arith,
      e,
      mul-le-mul_right {m = (value * 2 ^ c + y) + 1} {n = (value + 1) * 2 ^ c} (2 ^ (n - c))
          (omega (arith, add-mul value 1 (2 ^ c))),
    )

room_now : (value c n : ℕ) → c ≤ n → (value + 1) * 2 ^ n ≤ 2 ^ 64 → (value + 1) * 2 ^ c ≤ 2 ^ 64
room_now value c n h k =
    let e : (value + 1) * 2 ^ c * 2 ^ (n - c) ≡ (value + 1) * 2 ^ n =
      mul_assoc (value + 1) (2 ^ c) (2 ^ (n - c))
      ∙ ap (λ (j : ℕ). (value + 1) * j)
          (sym (pow-add c (n - c)) ∙ ap (λ (j : ℕ). 2 ^ j) (omega arith)) in
    omega (
      arith,
      e,
      mul-le-mul {n₁ = (value + 1) * 2 ^ c} {m₁ = 1} {n₂ = (value + 1) * 2 ^ c} {m₂ = 2 ^ (n - c)}
          (omega arith) (pow_pos (n - c)),
    )

-- One round behind the flush: the rest of the loop goes on from the next bits.
module _ (rounds n value : ℕ) (r : Reader) (v : IsReading r)
    (next : (n value : ℕ) (s : Reader)
      → n ≤ rounds
      → IsReading s
      → (value + 1) * 2 ^ n ≤ 2 ^ 64
      → ReadsBits n value s (bits_rounds rounds n value s))
    (c : ℕ) (fits : c ≤ r.bits_left) (part : c ≤ n) (some_bits : 0 < c) (bounded : n ≤ suc rounds)
    (room : (value + 1) * 2 ^ n ≤ 2 ^ 64) where
  taken : ℕ
  taken = value_from 0 (take c (unread r))

  taken_lt : taken < 2 ^ c
  unfolding taken
  taken_lt =
      subst (λ (j : ℕ). value_from 0 (take c (unread r)) < 2 ^ j) (length_next r v c fits)
        (value_from-lt (take c (unread r)) (AreBits-take-unread r v c fits))

  shifted_value : shift value c + taken ≡ value_from value (take c (unread r))
  unfolding taken
  shifted_value =
      ap (λ (j : ℕ). j + value_from 0 (take c (unread r)))
        (shift_lem value c (room_now value c n part room))
      ∙ (ap (λ (j : ℕ). value * 2 ^ j + value_from 0 (take c (unread r)))
            (sym (length_next r v c fits))
          ∙ sym (value_from-pow value (take c (unread r))))

  after_flush :
      bits_step (bits_rounds rounds) n value c (taken, after_take r v c fits)
      ≡ bits_rounds rounds (n - c) (shift value c + taken) (flush (after_take r v c fits))
  unfolding bits_step shift
  after_flush = refl

  step-ReadsBits :
      ReadsBits n value r
        (bits_rounds rounds (n - c) (shift value c + taken) (flush (after_take r v c fits)))
  step-ReadsBits = elim (flush-unread (after_take r v c fits) (after_take-IsReading r v c fits)) [
    | inl x ↦ inl (
        bits_rounds_corrupt rounds (n - c) (shift value c + taken) (flush (after_take r v c fits))
          x)
    | inr (w, u) ↦
        ReadsBits-after n c value (shift value c + taken) r (flush (after_take r v c fits))
          (bits_rounds rounds (n - c) (shift value c + taken) (flush (after_take r v c fits))) part
          (omega (arith, length-unread r v)) shifted_value (u ∙ unread-after_take r v c fits)
          (next (n - c) (shift value c + taken) (flush (after_take r v c fits)) (omega arith) w (
            subst (λ (j : ℕ). (j + taken + 1) * 2 ^ (n - c) ≤ 2 ^ 64)
              (sym (shift_lem value c (room_now value c n part room)))
              (room_left value c n taken part room taken_lt)))
  ]

bits_rounds-ReadsBits :
    (rounds n value : ℕ) (r : Reader)
    → n ≤ rounds
    → IsReading r
    → (value + 1) * 2 ^ n ≤ 2 ^ 64
    → ReadsBits n value r (bits_rounds rounds n value r)
unfolding bits_rounds value_from taken
bits_rounds-ReadsBits zero zero value r h v k = inr (refl, omega arith, v, refl)
bits_rounds-ReadsBits zero (suc m) value r h v k = absurd (omega arith)
bits_rounds-ReadsBits (suc rounds) zero value r h v k = inr (refl, omega arith, v, refl)
bits_rounds-ReadsBits (suc rounds) (suc m) value r h v k =
    rw (not_zero m) (elim (Bool-cases (min (suc m) r.bits_left == 0)) [
      | inl e ↦ rw e (inl refl)
      | inr e ↦
          let c = min (suc m) r.bits_left in
          rw (e, take_bits_lem r v (min (suc m) r.bits_left) (omega arith))
            (subst (ReadsBits (suc m) value r)
              (sym (
                after_flush rounds (suc m) value r v (bits_rounds-ReadsBits rounds)
                  (min (suc m) r.bits_left) (omega arith) (omega arith) (ground (arith, e)) h k))
              (step-ReadsBits rounds (suc m) value r v (bits_rounds-ReadsBits rounds)
                (min (suc m) r.bits_left) (omega arith) (omega arith) (ground (arith, e)) h k))
    ])

pow_le : (n : ℕ) → n ≤ 64 → (0 + 1) * 2 ^ n ≤ 2 ^ 64
pow_le n h = room_now 0 n 64 h (omega arith)

-- From a reader whose window holds the eight bytes at its position, a read of up to 64 bits either
-- leaves the stream marked as damaged, or answers with the next bits of the stream as a number, the
-- highest first, over the ends of windows, and leaves such a reader behind exactly these bits.
pub bits-ReadsBits : (r : Reader) (n : ℕ) → n ≤ 64 → IsReading r → ReadsBits n 0 r (bits r (pos n))
unfolding bits
bits-ReadsBits r n h v = bits_rounds-ReadsBits n n 0 r (omega arith) v (pow_le n h)
