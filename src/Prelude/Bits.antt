-- ===== src/Prelude/Bits.antt =====
-- The top bit of a byte: the mask as arithmetic, from a table that is checked by evaluation.
use Prim.Native.Nat.{ℕ, zero, suc, ◌*◌, ◌/◌, ◌<◌, bit_and}
use mathlib.Core.Bool.{Bool, true, ◌&&◌}
use mathlib.Core.Path.{◌≡◌, refl}
use native.Mathlib.Omega.{arith}
use rpi_omt_client.Prelude.Tests.{◌==◌, ==_iff}

-- A test at every number below a bound.
unfoldable pub holds_below : (ℕ → Bool) → ℕ → Bool
holds_below test zero = true
holds_below test (suc n) = test n && holds_below test n

pub holds_at :
    (test : ℕ → Bool) (bound b : ℕ) → holds_below test bound ≡ true → b < bound → test b ≡ true
unfolding holds_below
holds_at test zero b h inside = absurd (omega arith)
holds_at test (suc n) b h inside = ground (arith, holds_at test n b)

abbrev masks_top : ℕ → Bool
masks_top b = bit_and b 0x80 == b / 128 * 128

masks_below_256 : holds_below masks_top 256 ≡ true
unfolding holds_below
masks_below_256 = refl

pub top_bit : (b : ℕ) → b < 256 → bit_and b 0x80 ≡ b / 128 * 128
top_bit b h = (==_iff _ _).0 (holds_at masks_top 256 b masks_below_256 h)
