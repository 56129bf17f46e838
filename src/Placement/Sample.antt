-- ===== src/Placement/Sample.antt =====
-- The resampling tables: every entry is a pixel of the source, and they never step back.
use rpi_omt_client.Prelude.{
  ℕ, zero, suc, ◌+◌, ◌*◌, ◌≤◌, ◌<◌, ◌^◌, ◌/◌, ◌≡◌, List, [], ◌∷◌, arith, lt→ltb, length, refl, ap,
}
use native.Mathlib.Nat.{
  div-lt_iff_lt-mul, le-div_iff_mul-le, div-mul-le_self, mul-le-mul_right, le_trans,
  div-le_of_le-mul,
}
use rpi_omt_client.Placement.{sample, table_from, table}

-- A destination pixel samples a pixel of the source.
pub sample-lt :
    (index destination source : ℕ) → 0 < source → sample index destination source < source
unfolding sample
sample-lt index destination source h = omega arith

-- The entries from `low` on never step back, and all are below `bound`.
abbrev pub Climbs : ℕ → ℕ → List ℕ → Type 0
Climbs low bound [] = Unit {0}
Climbs low bound (x ∷ xs) = (low ≤ x) × (x < bound) × Climbs x bound xs

abbrev coordinate : ℕ → ℕ → ℕ → ℕ
coordinate i d s = (2 * i + 1) * s / (2 * d)

mul-lt_left : (a b s : ℕ) → a < b → 0 < s → a * s < b * s
mul-lt_left a b s h pos_s = grind arith

coordinate-lt : (i d s : ℕ) → i < d → 0 < s → coordinate i d s < s
coordinate-lt i d s h pos_s =
    (div-lt_iff_lt-mul (omega arith)).1
      (grind (arith, mul-lt_left (2 * i + 1) (2 * d) s (omega arith) pos_s))

-- For an index inside the destination and a source length that is positive and below 2^64, the
-- clamps of the sampling map never act: it is the mapped pixel centre, rounded down.
pub sample-coordinate :
    (i d s : ℕ) → i < d → 0 < s → s < 2 ^ 64 → sample i d s ≡ (2 * i + 1) * s / (2 * d)
unfolding sample
sample-coordinate i d s h pos_s fits = ground (arith, coordinate-lt i d s h pos_s)

coordinate_mono : (i j d s : ℕ) → i ≤ j → 0 < d → coordinate i d s ≤ coordinate j d s
coordinate_mono i j d s h pos_d =
    (le-div_iff_mul-le (omega arith)).1
      (le_trans (div-mul-le_self ((2 * i + 1) * s) (2 * d)) (mul-le-mul_right s (omega arith)))

coordinate-le : (i d s : ℕ) → i ≤ d → 0 < d → coordinate i d s ≤ 2 * s
coordinate-le i d s h pos_d =
    div-le_of_le-mul (2 * d) (le_trans (mul-le-mul_right s (scaled i d h pos_d)) (omega arith))
  where
    scaled : (i d : ℕ) → i ≤ d → 0 < d → 2 * i + 1 ≤ 2 * d * 2
    scaled i d h pos_d = omega arith

-- `sample` never steps back, up to the pixel behind the last one.
pub sample_mono :
    (i j d s : ℕ) → i ≤ j → j ≤ d → 0 < d → 0 < s → s < 2 ^ 32 → sample i d s ≤ sample j d s
unfolding sample
sample_mono i j d s h k pos_d pos_s fits =
    ground (arith, coordinate_mono i j d s, coordinate-le i d s, coordinate-le j d s)

table_from-Climbs :
    (n from d s low : ℕ)
    → from + n ≤ d
    → 0 < s
    → s < 2 ^ 32
    → low ≤ sample from d s
    → Climbs low s (table_from n from d s)
unfolding table_from
table_from-Climbs zero from d s low h pos_s fits l = tt
table_from-Climbs (suc n) from d s low h pos_s fits l =
    rw (lt→ltb (sample from d s) (2 ^ 32) (omega (arith, sample-lt from d s pos_s))) (
      l,
      sample-lt from d s pos_s,
      table_from-Climbs n (from + 1) d s (sample from d s) (omega arith) pos_s fits
          (sample_mono from (from + 1) d s (omega arith) (omega arith) (omega arith) pos_s fits),
    )

length-table_from : (n from d s : ℕ) → length (table_from n from d s) ≡ n
unfolding table_from
length-table_from zero from d s = refl
length-table_from (suc n) from d s = ap suc (length-table_from n (from + 1) d s)

-- For a source length that is positive and below 2^32, a scaler's table has an entry for each
-- destination pixel, and its entries are pixels of the source that never step back.
pub table-Climbs :
    (n source : ℕ)
    → 0 < source
    → source < 2 ^ 32
    → (length (table n source) ≡ n) × Climbs 0 source (table n source)
table-Climbs n source pos_s fits = (
  length-table_from n 0 n source,
  table_from-Climbs n 0 n source 0 (omega arith) pos_s fits (omega arith),
)
