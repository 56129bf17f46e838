-- ===== src/Prelude/Text.antt =====
-- Byte strings cut as Rust's `str` and slices are cut.
use Prim.Native.Nat.{ℕ, ◌+◌}
use mathlib.Core.Bool.{Bool, true, false, ◌&&◌}
use mathlib.Core.Option.{Option, none, some}
use mathlib.Core.List.{[], ◌∷◌}
use rpi_omt_client.Prelude.Tests.{◌==◌, within, if◌then◌else◌}
use rpi_omt_client.Prelude.Encoding.{Bytes}

-- `strip_prefix`
unfoldable pub strip_prefix : Bytes → Bytes → Option Bytes
strip_prefix [] s = some s
strip_prefix (p ∷ ps) [] = none
strip_prefix (p ∷ ps) (c ∷ cs) = if p == c then strip_prefix ps cs else none

abbrev pub before : ℕ → Option (Bytes × Bytes) → Option (Bytes × Bytes)
before c none = none
before c (some (head, tail)) = some (c ∷ head, tail)

-- `split_once` at a byte, from the left.
unfoldable pub split_once : ℕ → Bytes → Option (Bytes × Bytes)
split_once sep [] = none
split_once sep (c ∷ cs) = if c == sep then some ([], cs) else before c (split_once sep cs)

-- `rsplit_once` at a byte, from the right.
abbrev pub before_or : ℕ → ℕ → Bytes → Option (Bytes × Bytes) → Option (Bytes × Bytes)
before_or sep c cs (some (head, tail)) = some (c ∷ head, tail)
before_or sep c cs none = if c == sep then some ([], cs) else none

unfoldable pub rsplit_once : ℕ → Bytes → Option (Bytes × Bytes)
rsplit_once sep [] = none
rsplit_once sep (c ∷ cs) = before_or sep c cs (rsplit_once sep cs)

-- `split_once` at a separator of two bytes.
unfoldable pub split_once_two : ℕ → ℕ → Bytes → Option (Bytes × Bytes)
split_once_two a b [] = none
split_once_two a b (c ∷ []) = none
split_once_two a b (c ∷ d ∷ rest) =
    if (c == a) && (d == b) then some ([], rest) else before c (split_once_two a b (d ∷ rest))

-- `contains` a byte
unfoldable pub has_byte : ℕ → Bytes → Bool
has_byte b [] = false
has_byte b (c ∷ cs) = if c == b then true else has_byte b cs

-- `to_ascii_lowercase` of a byte, and the comparisons that look at it.
abbrev pub lower : ℕ → ℕ
lower c = if within b'A' b'Z' c then c + 32 else c

abbrev pub eq_ignore_ascii_case : ℕ → ℕ → Bool
eq_ignore_ascii_case a b = lower a == lower b

unfoldable pub equal_ignore_case : Bytes → Bytes → Bool
equal_ignore_case [] [] = true
equal_ignore_case (a ∷ xs) (b ∷ bs) = eq_ignore_ascii_case a b && equal_ignore_case xs bs
equal_ignore_case _ _ = false
