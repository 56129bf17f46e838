-- ===== src/Ceiling/Tests.antt =====
-- Runs of crates/omt-receiver-core/src/ceiling.rs, and its theorem at a concrete input.
use rpi_omt_client.Prelude.{
  ◌≤◌, ◌≡◌, refl, true, List, [], ◌∷◌, length, leb, codes, ok, err, split_once, pos,
}
use rpi_omt_client.Decimal.{parse_u64, decimal}
use rpi_omt_client.Wire.{split_on}
use rpi_omt_client.Ceiling.{
  Shape, outside, bad_shape, parse, shapes_from, shape, checked_shape, parsed_shape, size_and_rate,
  number, describe, described_after, admits, ceiling_max_shapes,
}
use rpi_omt_client.Ceiling.Shapes.{AllInside, parse-AllInside}

abbrev two_shapes : List Shape
two_shapes =
    record { width = 1920; height = 1080; fps = 30 }
    ∷ record { width = 1280; height = 720; fps = 60 }
    ∷ []

parses_two : parse (codes "1920x1080@30,1280x720@60") ≡ ok two_shapes
unfolding parse shapes_from shape checked_shape parsed_shape size_and_rate number split_once
    split_on parse_u64
parses_two = refl

refuses_a_zero : parse (codes "01920x1080@30") ≡ err bad_shape
unfolding parse shapes_from shape checked_shape parsed_shape size_and_rate number split_once
    split_on parse_u64
refuses_a_zero = refl

refuses_too_wide : parse (codes "1921x1080@30") ≡ err outside
unfolding parse shapes_from shape checked_shape parsed_shape size_and_rate number split_once
    split_on parse_u64
refuses_too_wide = refl

describes_two : describe two_shapes ≡ codes "1920x1080 at 30 fps, or 1280x720 at 60 fps"
unfolding describe described_after decimal
describes_two = refl

-- 59.94 frames in a second fit 60, and not 30.
admits_the_small : admits (leb 60) two_shapes (pos 1280) (pos 720) ≡ true
unfolding admits
admits_the_small = refl

parse-AllInside_example :
    AllInside two_shapes × (1 ≤ length two_shapes) × (length two_shapes ≤ ceiling_max_shapes)
parse-AllInside_example = parse-AllInside (codes "1920x1080@30,1280x720@60") two_shapes parses_two
