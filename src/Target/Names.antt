-- ===== src/Target/Names.antt =====
-- The characters that a source name may not have.
use rpi_omt_client.Prelude.{
  ℕ, zero, suc, ◌/◌, ◌^◌, ◌≤◌, ◌<◌, ◌≡◌, refl, sym, ap, subst, ◌∙◌, arith, Bool, true, false, ◌||◌,
  any, within, List, [], ◌∷◌, ◌++◌, length, take, drop, length-take, length-drop, take-append-drop,
  ltb, if◌then◌else◌,
}
use rpi_omt_client.Target.{is_forbidden_name_char, forbidden_name_ranges, search_ranges, at_middle}
use native.Mathlib.Nat.{pow-suc, pow-zero}

abbrev pub Range : Type 0
Range = ℕ × ℕ

abbrev pub in_range : ℕ → Range → Bool
in_range cp (low, high) = within low high cp

-- Ranges in order, apart from one another, from `from` on.
abbrev IsSorted : ℕ → List Range → Type 0
IsSorted from [] = Unit {0}
IsSorted from ((low, high) ∷ rest) = (from ≤ low) × (low ≤ high) × IsSorted (suc high) rest

none_below :
    (from cp : ℕ) (rs : List Range) → IsSorted from rs → cp < from → any (in_range cp) rs ≡ false
none_below from cp [] v h = refl
none_below from cp ((low, high) ∷ rest) v h =
    ground (arith, none_below (suc high) cp rest v.2 (omega arith))

IsSorted-after :
    (from : ℕ) (before : List Range) (low high : ℕ) (after : List Range)
    → IsSorted from (before ++ ((low, high) ∷ after))
    → (from ≤ low) × (low ≤ high) × IsSorted (suc high) after
IsSorted-after from [] low high after v = v
IsSorted-after from ((l, h) ∷ rest) low high after v =
    let w = IsSorted-after (suc h) rest low high after v.2 in (omega arith, w.1, w.2)

IsSorted-before :
    (from : ℕ) (before after : List Range) → IsSorted from (before ++ after) → IsSorted from before
IsSorted-before from [] after v = tt
IsSorted-before from ((l, h) ∷ rest) after v = (v.0, v.1, IsSorted-before (suc h) rest after v.2)

none_before :
    (from cp : ℕ) (before : List Range) (low high : ℕ) (after : List Range)
    → IsSorted from (before ++ ((low, high) ∷ after))
    → low ≤ cp
    → any (in_range cp) before ≡ false
none_before from cp [] low high after v h = refl
none_before from cp ((l, u) ∷ rest) low high after v h =
    let w = IsSorted-after (suc u) rest low high after v.2 in
    ground (arith, none_before (suc u) cp rest low high after v.2 h)

any-append :
    (cp : ℕ) (xs ys : List Range)
    → any (in_range cp) (xs ++ ys) ≡ any (in_range cp) xs || any (in_range cp) ys
any-append cp [] ys = refl
any-append cp (x ∷ xs) ys = ground (arith, any-append cp xs ys)

-- One halving: the range in the middle decides where to go on.
middle :
    (from cp : ℕ) (before : List Range) (low high : ℕ) (after : List Range)
    → IsSorted from (before ++ ((low, high) ∷ after))
    → (if ltb high cp
        then any (in_range cp) after
        else if ltb cp low
        then any (in_range cp) before
        else true)
      ≡ any (in_range cp) (before ++ ((low, high) ∷ after))
middle from cp before low high after v =
    let w = IsSorted-after from before low high after v in
    rw (any-append cp before ((low, high) ∷ after)) (
      ground
        (arith, none_before from cp before low high after v, none_below (suc high) cp after w.2))

at_middle-any :
    (rounds from cp : ℕ) (left rest : List Range)
    → ((b : ℕ) (rs : List Range)
        → IsSorted b rs
        → length rs < 2 ^ rounds
        → search_ranges rounds rs cp ≡ any (in_range cp) rs)
    → IsSorted from (left ++ rest)
    → length left < 2 ^ rounds
    → length rest ≤ 2 ^ rounds
    → length left ≤ length rest
    → at_middle (search_ranges rounds) left rest cp ≡ any (in_range cp) (left ++ rest)
unfolding at_middle
at_middle-any rounds from cp [] [] ih v small_left small even = refl
at_middle-any rounds from cp (x ∷ xs) [] ih v small_left small even = absurd (omega arith)
at_middle-any rounds from cp left ((low, high) ∷ right) ih v small_left small even =
    let w = IsSorted-after from left low high right v in
    rw
      (
        ih (suc high) right w.2 (omega arith),
        ih from left (IsSorted-before from left ((low, high) ∷ right) v) small_left,
      )
      (middle from cp left low high right v)

search_ranges-any :
    (rounds from cp : ℕ) (rs : List Range)
    → IsSorted from rs
    → length rs < 2 ^ rounds
    → search_ranges rounds rs cp ≡ any (in_range cp) rs
unfolding search_ranges
search_ranges-any zero from cp [] v h = refl
search_ranges-any zero from cp (r ∷ rs) v h = absurd (omega (arith, pow-zero 2))
search_ranges-any (suc rounds) from cp rs v h =
    let half = length rs / 2 in
    let whole = take-append-drop half rs in
    at_middle-any rounds from cp (take half rs) (drop half rs)
      (λ b xs. search_ranges-any rounds b cp xs) (subst (IsSorted from) (sym whole) v)
      (omega (arith, length-take half rs, pow-suc 2 rounds))
      (omega (arith, length-drop half rs, pow-suc 2 rounds))
      (omega (arith, length-take half rs, length-drop half rs))
    ∙ ap (any (in_range cp)) whole

-- For any character the binary search over the forbidden ranges answers as a look at every one of
-- them.
pub is_forbidden_name_char-any :
    (cp : ℕ) → is_forbidden_name_char cp ≡ any (in_range cp) forbidden_name_ranges
unfolding is_forbidden_name_char
is_forbidden_name_char-any cp =
    search_ranges-any 5 0 cp forbidden_name_ranges (omega arith) (omega arith)
