-- ===== src/Ceiling.antt =====
-- The decode ceiling of a board, crates/omt-receiver-core/src/ceiling.rs: its grammar
-- `WIDTHxHEIGHT@FPS[,...]` and what it admits. A text is its bytes. The errors are without their
-- texts.
pub mod Shapes
mod Tests
use rpi_omt_client.Prelude.{
  ℕ, ◌+◌, ◌*◌, Bool, true, false, not, ◌&&◌, ◌||◌, Option, none, some, List, [], ◌∷◌, ◌++◌, ltb,
  leb, ◌==◌, within, if◌then◌else◌, length, any, Bytes, codes, Result, ok, err, split_once, ℤ, pos,
  negsuc,
}
use rpi_omt_client.Decimal.{parse_u64, decimal}
use rpi_omt_client.Wire.{split_on}

abbrev pub ceiling_max_shapes : ℕ
ceiling_max_shapes = 4

-- The integers of a shape are at most 9999, as `number` reads them.
pub record Shape : Type 0 where
  pub width : ℕ
  pub height : ℕ
  pub fps : ℕ

pub data CeilingError : Type 0 where
  bad_shape outside too_many : CeilingError

unfoldable pub number : Bytes → Option ℕ
number [] = none
number (c ∷ cs) = if ltb 4 (length (c ∷ cs)) || (c == b'0') then none else parse_u64 (c ∷ cs) 9999

abbrev pub three_numbers : Option ℕ → Option ℕ → Option ℕ → Option Shape
three_numbers (some w) (some h) (some f) = some (record { width = w; height = h; fps = f })
three_numbers _ _ _ = none

unfoldable pub size_and_rate : Bytes → Option (Bytes × Bytes) → Option Shape
size_and_rate fps none = none
size_and_rate fps (some (w, h)) = three_numbers (number w) (number h) (number fps)

unfoldable pub parsed_shape : Option (Bytes × Bytes) → Option Shape
parsed_shape none = none
parsed_shape (some (size, fps)) = size_and_rate fps (split_once b'x' size)

unfoldable pub checked_shape : Option Shape → Result CeilingError Shape
checked_shape none = err bad_shape
checked_shape (some s) =
    if not (within 16 1920 s.width) || (not (within 16 1080 s.height) || not (within 1 60 s.fps))
    then err outside
    else ok s

unfoldable pub shape : Bytes → Result CeilingError Shape
shape field = checked_shape (parsed_shape (split_once b'@' field))

abbrev pub with_shape :
    Result CeilingError Shape → Result CeilingError (List Shape) → Result CeilingError (List Shape)
with_shape (err e) rest = err e
with_shape (ok s) (err e) = err e
with_shape (ok s) (ok ss) = ok (s ∷ ss)

-- The loop over the fields, with the number of shapes that are there.
unfoldable pub shapes_from : ℕ → List Bytes → Result CeilingError (List Shape)
shapes_from n [] = ok []
shapes_from n (field ∷ fields) =
    if n == ceiling_max_shapes
    then err too_many
    else with_shape (shape field) (shapes_from (n + 1) fields)

unfoldable pub parse : Bytes → Result CeilingError (List Shape)
parse text = let (field, fields) = split_on b',' text in shapes_from 0 (field ∷ fields)

abbrev pub described : Shape → Bytes
described s =
    decimal s.width
    ++ (codes "x" ++ (decimal s.height ++ (codes " at " ++ (decimal s.fps ++ codes " fps"))))

unfoldable pub described_after : List Shape → Bytes
described_after [] = []
described_after (s ∷ ss) = codes ", or " ++ (described s ++ described_after ss)

unfoldable pub describe : List Shape → Bytes
describe [] = []
describe (s ∷ ss) = described s ++ described_after ss

-- `z <= n` for an `i32`
abbrev pub int_le : ℤ → ℕ → Bool
int_le (pos m) n = leb m n
int_le (negsuc m) n = true

-- `rate_fits fps` is the comparison `rate <= f64::from(fps) + 0.01` of doubles.
module _ (rate_fits : ℕ → Bool) where
  abbrev pub fits_in : ℤ → ℤ → Shape → Bool
  fits_in width height s = int_le width s.width && (int_le height s.height && rate_fits s.fps)

  pub admits : List Shape → ℤ → ℤ → Bool
  admits shapes width height = any (fits_in width height) shapes
