-- ===== src/Ceiling/Shapes.antt =====
-- What an accepted ceiling is, and what it admits.
use rpi_omt_client.Prelude.{
  ℕ, ◌+◌, ◌≤◌, ◌≡◌, refl, ap, ◌==◌, Option, none, some, List, [], ◌∷◌, arith, length, Bytes, Result,
  ok, err, split_once, Bool-cases, inl, inr,
}
use rpi_omt_client.Wire.{split_on}
use rpi_omt_client.Ceiling.{
  Shape, CeilingError, ceiling_max_shapes, parsed_shape, checked_shape, shape, with_shape,
  shapes_from, parse,
}

-- Each shape is inside 1920x1080 at 60, and not below 16x16 at 1.
abbrev pub AllInside : List Shape → Type 0
AllInside [] = Unit {0}
AllInside (s ∷ ss) =
    ((16 ≤ s.width)
      × (s.width ≤ 1920)
      × (16 ≤ s.height)
      × (s.height ≤ 1080)
      × (1 ≤ s.fps)
      × (s.fps ≤ 60))
    × AllInside ss

checked_inside : (o : Option Shape) (s : Shape) → checked_shape o ≡ ok s → AllInside (s ∷ [])
unfolding checked_shape
checked_inside none s h = cc
checked_inside (some t) s h = ground arith

with_shape_ok :
    (r : Result CeilingError Shape) (rest : Result CeilingError (List Shape)) (ss : List Shape)
    → with_shape r rest ≡ ok ss
    → (s : Shape) × (t : List Shape) × (r ≡ ok s) × (rest ≡ ok t) × (ss ≡ s ∷ t)
with_shape_ok (err e) rest ss h = cc
with_shape_ok (ok s) (err e) ss h = cc
with_shape_ok (ok s) (ok t) ss h = (s, t, refl, refl, ground arith)

shape_inside : (field : Bytes) (s : Shape) → shape field ≡ ok s → AllInside (s ∷ [])
unfolding shape
shape_inside field s h = checked_inside (parsed_shape (split_once b'@' field)) s h

shapes_inside :
    (n : ℕ) (fields : List Bytes) (ss : List Shape)
    → n ≤ ceiling_max_shapes
    → shapes_from n fields ≡ ok ss
    → AllInside ss × (length ss ≡ length fields) × (n + length ss ≤ ceiling_max_shapes)
unfolding shapes_from
shapes_inside n [] [] h e = (tt, refl, omega arith)
shapes_inside n [] (s ∷ ss) h e = cc
shapes_inside n (f ∷ fs) ss h e = elim (Bool-cases (n == ceiling_max_shapes)) [
  | inl full ↦ ground (arith, e, full)
  | inr room ↦
      let (s, t, first, others, whole) =
        with_shape_ok (shape f) (shapes_from (n + 1) fs) ss (ground (arith, e, room)) in
      let rest = shapes_inside (n + 1) fs t (ground arith) others in
      (
        rw whole ((shape_inside f s first).0, rest.0),
        omega (arith, ap length whole, rest.1),
        omega (arith, ap length whole, rest.2),
      )
]

-- A ceiling that is accepted has one to four shapes, each from 16x16 at 1 to 1920x1080 at 60.
pub parse-AllInside :
    (text : Bytes) (ss : List Shape)
    → parse text ≡ ok ss
    → AllInside ss × (1 ≤ length ss) × (length ss ≤ ceiling_max_shapes)
unfolding parse
parse-AllInside text ss h =
    let (field, fields) = split_on b',' text in
    let v = shapes_inside 0 (field ∷ fields) ss (omega arith) h in
    (v.0, omega (arith, v.1), omega (arith, v.2))
