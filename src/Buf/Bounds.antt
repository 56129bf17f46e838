-- ===== src/Buf/Bounds.antt =====
-- The bounds of a `BoundedBuf`: room for what was reserved, and never more than the limit.
use rpi_omt_client.Prelude.{
  ℕ, zero, suc, ◌+◌, ◌-◌, ◌*◌, ◌^◌, ◌≤◌, max, ◌≡◌, true, false, Option, some, [], ◌∷◌, ◌++◌, arith,
  ltb, leb, if◌then◌else◌, length, length-append, length-drop, Bytes, Option-cases, Bool-cases, inl,
  inr, tests, ap,
}
use rpi_omt_client.Buf.{
  BoundedBuf, usize_max, saturating_mul, double_until, growth_rounds, new_capacity, needed,
  reserve_to, reserve, append, hex, hex_text, consume, fail,
}
use native.Mathlib.Nat.{pow-suc, one-le-pow}

-- What the documentation of `try_reserve_exact` promises of a success.
abbrev pub Grants : (ℕ → ℕ → Option ℕ) → Type 0
Grants allocate =
    (len additional got : ℕ) → allocate len additional ≡ some got → len + additional ≤ got

pub record IsBounded (b : BoundedBuf) : Type 0 where
  pub limit_fits : b.limit ≤ usize_max
  pub in_limit : length b.contents ≤ b.limit
  pub in_capacity : length b.contents ≤ b.capacity

length-hex_text : (bytes : Bytes) → length (hex_text bytes) ≡ length bytes * 2
unfolding hex_text
length-hex_text [] = omega arith
length-hex_text (b ∷ bs) = omega (arith, length-hex_text bs)

saturating_mul-reaches :
    (rounds c need : ℕ)
    → need ≤ usize_max
    → need ≤ c * 2 ^ suc rounds
    → need ≤ saturating_mul c 2 * 2 ^ rounds
saturating_mul-reaches rounds c need fits h = elim (Bool-cases (leb (c * 2) usize_max)) [
  | inl small ↦
      let e : saturating_mul c 2 ≡ c * 2 = omega tests in
      rw e (omega (arith, ap (λ (t : ℕ). c * t) (pow-suc 2 rounds)))
  | inr big ↦
      let e : saturating_mul c 2 ≡ usize_max = ground arith in
      rw e (omega (arith, one-le-pow rounds 2 (omega arith)))
]

-- The doubling loop ends at or above `need` when its rounds are enough.
pub double_until-reaches :
    (rounds c need : ℕ)
    → need ≤ usize_max
    → need ≤ c * 2 ^ rounds
    → need ≤ double_until rounds c need
unfolding double_until
double_until-reaches zero c need fits h = omega arith
double_until-reaches (suc rounds) c need fits h = elim (Bool-cases (ltb c need)) [
  | inl more ↦ rw more (
      double_until-reaches rounds (saturating_mul c 2) need fits
        (saturating_mul-reaches rounds c need fits h))
  | inr done ↦ rw done (ground arith)
]

pub new_capacity-reaches :
    (b : BoundedBuf) (need : ℕ) → need ≤ usize_max → need ≤ b.limit → need ≤ new_capacity b need
unfolding new_capacity
new_capacity-reaches b need fits h =
    omega (arith, double_until-reaches growth_rounds (max b.capacity 64) need fits (omega arith))

-- A `true` from `reserve` is room for `extra` bytes, under the limit and in the allocation.
pub record HasRoom (b : BoundedBuf) (extra : ℕ) : Type 0 where
  pub under_limit : length b.contents + extra ≤ b.limit
  pub in_allocation : length b.contents + extra ≤ b.capacity

module _ (allocate : ℕ → ℕ → Option ℕ) where
  pub reserve_to-keeps :
      (b : BoundedBuf) (need : ℕ)
      → ((reserve_to allocate b need).0.contents ≡ b.contents)
        × ((reserve_to allocate b need).0.limit ≡ b.limit)
  unfolding reserve_to
  reserve_to-keeps b need = ground arith

  -- `reserve` touches neither the contents nor the limit.
  pub reserve-keeps :
      (b : BoundedBuf) (extra : ℕ)
      → ((reserve allocate b extra).0.contents ≡ b.contents)
        × ((reserve allocate b extra).0.limit ≡ b.limit)
  unfolding reserve needed
  reserve-keeps b extra = ground (arith, reserve_to-keeps b (length b.contents + extra))

  -- A refusal only marks the buffer.
  pub reserve-refused :
      (b : BoundedBuf) (extra : ℕ)
      → (reserve allocate b extra).1 ≡ false
      → (reserve allocate b extra).0 ≡ fail b
  unfolding reserve needed reserve_to
  reserve-refused b extra h = ground arith

module _ (allocate : ℕ → ℕ → Option ℕ) (grants : Grants allocate) where
  reserve_to_room :
      (b : BoundedBuf) (need : ℕ)
      → need ≤ b.limit
      → b.limit ≤ usize_max
      → (reserve_to allocate b need).1 ≡ true
      → length b.contents ≤ need
      → need ≤ (reserve_to allocate b need).0.capacity
  unfolding reserve_to
  reserve_to_room b need fits usize h low =
      let asked = new_capacity b need - length b.contents in
      elim (Option-cases (allocate (length b.contents) asked)) [
        | inl refused ↦ ground (arith, refused)
        | inr (got, granted) ↦ ground (
          arith,
          granted,
          grants (length b.contents) asked got granted,
          new_capacity-reaches b need (omega arith) fits,
        )
      ]

  pub reserve_room :
      (b : BoundedBuf) (extra : ℕ)
      → IsBounded b
      → (reserve allocate b extra).1 ≡ true
      → HasRoom (reserve allocate b extra).0 extra
  unfolding reserve needed
  reserve_room b extra v h = ground (
    arith,
    reserve_to-keeps allocate b (length b.contents + extra),
    reserve_to_room b (length b.contents + extra),
  )

  -- What both writers do after `reserve`: append as many bytes as were reserved, or nothing.
  abbrev written : BoundedBuf → Bytes → BoundedBuf
  written b bytes =
      let (b', room) = reserve allocate b (length bytes) in
      if room then record b' { contents = b'.contents ++ bytes } else b'

  written-IsBounded : (b : BoundedBuf) (bytes : Bytes) → IsBounded b → IsBounded (written b bytes)
  written-IsBounded b bytes v = elim (Bool-cases (reserve allocate b (length bytes)).1) [
    | inl room ↦ ground (
      arith,
      room,
      reserve-keeps allocate b (length bytes),
      reserve_room b (length bytes) v room,
      length-append (reserve allocate b (length bytes)).0.contents bytes,
    )
    | inr refused ↦ ground (arith, refused, reserve-refused allocate b (length bytes) refused)
  ]

  -- With an allocator that grants at least what is asked, appending any bytes keeps the contents of
  -- a buffer within its limit and within its allocation.
  pub append-IsBounded :
      (b : BoundedBuf) (bytes : Bytes) → IsBounded b → IsBounded (append allocate b bytes)
  unfolding append
  append-IsBounded b bytes v = written-IsBounded b bytes v

  -- So does `hex`, which writes two digits for each byte.
  pub hex-IsBounded :
      (b : BoundedBuf) (bytes : Bytes) → IsBounded b → IsBounded (hex allocate b bytes)
  unfolding hex
  hex-IsBounded b bytes v = elim (Bool-cases (leb (length bytes * 2) usize_max)) [
    | inl fits ↦
        rw (fits, hex) (rw (length-hex_text bytes) at (written-IsBounded b (hex_text bytes) v))
    | inr large ↦ rw (large, hex) (ground arith)
  ]

pub consume-IsBounded : (b : BoundedBuf) (n : ℕ) → IsBounded b → IsBounded (consume b n)
unfolding consume
consume-IsBounded b n v = ground (arith, length-drop n b.contents)
