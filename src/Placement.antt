-- ===== src/Placement.antt =====
-- The aspect-preserving fit of crates/omt-receiver/src/scale.rs. The products are of u128s and cannot
-- wrap for usizes; a `try_from` back to usize that fails has its fallback written out.
pub mod Fit
pub mod Sample
mod Tests
use rpi_omt_client.Prelude.{
  ℕ, zero, suc, ◌+◌, ◌-◌, ◌*◌, ◌/◌, ◌^◌, min, max, Bool, true, false, ◌&&◌, ◌||◌, Option, none,
  some, List, [], ◌∷◌, ltb, leb, ◌==◌, if◌then◌else◌, map,
}

pub record Placement : Type 0 where
  pub x : ℕ
  pub y : ℕ
  pub width : ℕ
  pub height : ℕ

-- `usize::try_from(n).unwrap_or(other)`
abbrev pub to_usize : ℕ → ℕ → ℕ
to_usize n other = if ltb n (2 ^ 64) then n else other

pub centred : ℕ → ℕ → ℕ → ℕ → Placement
centred mw mh width height = record {
  x = (mw - width) / 2;
  y = (mh - height) / 2;
  width = width;
  height = height;
}

pub fit : ℕ → ℕ → ℕ → ℕ → Option Placement
fit sw sh mw mh =
    let source_ratio = sw * mh in
    let mode_ratio = mw * sh in
    if sw == 0 || (sh == 0 || (mw == 0 || mh == 0))
    then none
    else if leb source_ratio mode_ratio
    then some (centred mw mh (max (min (to_usize (source_ratio / sh) mw) mw) 1) (max mh 1))
    else some (centred mw mh (max mw 1) (max (min (to_usize (mode_ratio / sw) mh) mh) 1))

pub fills : Placement → ℕ → ℕ → Bool
fills p mw mh = p.x == 0 && (p.y == 0 && (p.width == mw && p.height == mh))

pub sample : ℕ → ℕ → ℕ → ℕ
sample index destination source =
    min (to_usize ((2 * index + 1) * source / (2 * destination)) 0) (source - 1)

pub record Scaler : Type 0 where
  pub placement : Placement
  pub rows : List ℕ
  pub columns : List ℕ

-- `(from..from + n).map(..)`, with the cast to u32
pub table_from : ℕ → ℕ → ℕ → ℕ → List ℕ
unfolding sample
table_from zero from destination source = []
table_from (suc n) from destination source =
    (let s = sample from destination source in if ltb s (2 ^ 32) then s else 2 ^ 32 - 1)
    ∷ table_from n (from + 1) destination source

abbrev pub table : ℕ → ℕ → List ℕ
table n source = table_from n 0 n source

-- `none` is the error "Video frame geometry cannot be scaled".
pub new_scaler : ℕ → ℕ → Placement → Option Scaler
unfolding table_from
new_scaler sw sh p =
    if (sw == 0 || sh == 0)
      || ((leb (2 ^ 32) sw || leb (2 ^ 32) sh) || (p.width == 0 || p.height == 0))
    then none
    else some (record { placement = p; rows = table p.height sh; columns = table p.width sw })
