-- ===== src/Placement/Fit.antt =====
-- The geometry of the fitted picture: its place in the mode, and its sides against those of the source.
use rpi_omt_client.Prelude.{
  ℕ, ◌+◌, ◌*◌, ◌≤◌, ◌<◌, ◌/◌, ◌≡◌, some, arith, ◌⊎◌, inl, inr, leb, leb→le, not_leb→lt, Bool-cases,
  min, max, refl, subst, ◌^◌,
}
use native.Mathlib.Nat.{div-mul-le_self, lt-mul-div-succ, div-le_of_le-mul, mul_comm}
use rpi_omt_client.Placement.{Placement, centred, fit, to_usize}

-- Inside the mode, with black bars that differ by one pixel at most, and never empty.
pub record IsInside (mw mh : ℕ) (p : Placement) : Type 0 where
  pub width_positive : 0 < p.width
  pub height_positive : 0 < p.height
  pub right : p.x + p.width ≤ mw
  pub bottom : p.y + p.height ≤ mh
  pub centred_x : mw ≤ 2 * p.x + p.width + 1
  pub centred_y : mh ≤ 2 * p.y + p.height + 1

-- A side of the picture is the side `own` of the source at the scale that takes `across` to `filled`: the
-- ratios differ by less than a pixel, and the side is the whole pixel below, or one pixel.
pub record IsScaled (own across filled side : ℕ) : Type 0 where
  pub below : (side * across ≤ own * filled) ⊎ (side ≡ 1)
  pub above : own * filled < (side + 1) * across

-- One axis fills the mode, and the other is scaled as that one is.
abbrev pub KeepsRatio : ℕ → ℕ → ℕ → ℕ → Placement → Type 0
KeepsRatio sw sh mw mh p =
    ((p.height ≡ mh) × IsScaled sw sh mh p.width) ⊎ ((p.width ≡ mw) × IsScaled sh sw mw p.height)

centred-IsInside :
    (mw mh w h : ℕ) → 0 < w → 0 < h → w ≤ mw → h ≤ mh → IsInside mw mh (centred mw mh w h)
unfolding centred
centred-IsInside mw mh w h w0 h0 wm hm = omega arith

max_one : (n : ℕ) → 0 < n → max n 1 ≡ n
max_one n h = omega arith

-- The scaled side, as the code computes it, for a scale that keeps it within the mode.
max-IsScaled :
    (own across filled limit : ℕ)
    → 0 < across
    → limit < 2 ^ 64
    → own * filled ≤ limit * across
    → IsScaled own across filled (max (min (to_usize (own * filled / across) limit) limit) 1)
max-IsScaled own across filled limit positive usize fits =
    let n = own * filled / across in
    let least : n ≤ limit = div-le_of_le-mul across (rw (mul_comm across limit) fits) in
    let whole : min (to_usize n limit) limit ≡ n = ground (arith, least, usize) in
    let lower : n * across ≤ own * filled = div-mul-le_self (own * filled) across in
    let upper : own * filled < (n + 1) * across =
      rw (mul_comm (n + 1) across) (lt-mul-div-succ (own * filled) positive) in
    rw whole (elim (Bool-cases (leb 1 n)) [
      | inl some_pixels ↦
          let same : max n 1 ≡ n = ground (arith, some_pixels) in
          rw same (record { below = inl lower; above = upper })
      | inr no_pixel ↦
          let one : max n 1 ≡ 1 = ground (arith, no_pixel) in
          let none_whole : n ≡ 0 = ground (arith, no_pixel) in
          let first : own * filled < (0 + 1) * across =
            subst (λ k. own * filled < (k + 1) * across) none_whole upper in
          rw one (record { below = inr refl; above = omega (arith, first) })
    ])

-- A source and a mode with no empty side, the mode's sides being usizes, always have a placement: inside
-- the mode, centred to a pixel, never empty, and as wide as the mode or as high, with the other side
-- that of the source at the same scale, to the whole pixel below or one pixel.
pub fit-IsInside :
    (sw sh mw mh : ℕ)
    → 0 < sw
    → 0 < sh
    → 0 < mw
    → 0 < mh
    → mw < 2 ^ 64
    → mh < 2 ^ 64
    → (p : Placement) × (fit sw sh mw mh ≡ some p) × IsInside mw mh p × KeepsRatio sw sh mw mh p
unfolding fit centred
fit-IsInside sw sh mw mh a b c d e f = elim (Bool-cases (leb (sw * mh) (mw * sh))) [
  | inl narrow ↦
      let w = max (min (to_usize (sw * mh / sh) mw) mw) 1 in
      (
        centred mw mh w (max mh 1),
        ground (arith, narrow),
        centred-IsInside mw mh w (max mh 1) (omega arith) (omega arith) (omega arith) (omega arith),
        inl (max_one mh d, max-IsScaled sw sh mh mw b e (leb→le _ _ narrow)),
      )
  | inr wide ↦
      let h = max (min (to_usize (mw * sh / sw) mh) mh) 1 in
      (
        centred mw mh (max mw 1) h,
        ground (arith, wide),
        centred-IsInside mw mh (max mw 1) h (omega arith) (omega arith) (omega arith) (omega arith),
        inr (
          max_one mw c,
          rw (mul_comm mw sh) (
              max-IsScaled sh sw mw mh a f
                (omega (arith, not_leb→lt _ _ wide, mul_comm mw sh, mul_comm sw mh))),
        ),
      )
]
