-- ===== src/Auth/Registry.antt =====
-- The registry as a bag of records: what sorting and removing keep.
use rpi_omt_client.Prelude.{
  ℕ, zero, suc, ◌+◌, ◌≤◌, ◌<◌, ◌≡◌, refl, Bool, true, false, ltb, some, List, [], ◌∷◌, arith,
  length, if◌then◌else◌, Bool-cases, Option-cases, inl, inr,
}
use rpi_omt_client.Auth.{
  Record, expires_before, insert_sorted, sort_by_key, last_of, but_last, swap_remove, position,
  oldest_from, oldest, evict, maximum_sessions,
}

-- How many records pass a test.
unfoldable pub count : (Record → Bool) → List Record → ℕ
count test [] = 0
count test (r ∷ rs) = (if test r then 1 else 0) + count test rs

count-insert_sorted :
    (test : Record → Bool) (r : Record) (rs : List Record)
    → count test (insert_sorted r rs) ≡ count test (r ∷ rs)
unfolding count insert_sorted
count-insert_sorted test r [] = refl
count-insert_sorted test r (x ∷ xs) = ground (arith, count-insert_sorted test r xs)

pub count-sort_by_key :
    (test : Record → Bool) (rs : List Record) → count test (sort_by_key rs) ≡ count test rs
unfolding count sort_by_key
count-sort_by_key test [] = refl
count-sort_by_key test (r ∷ rs) =
    omega (arith, count-insert_sorted test r (sort_by_key rs), count-sort_by_key test rs)

count-last_of :
    (test : Record → Bool) (r : Record) (rs : List Record)
    → count test (last_of r rs ∷ but_last r rs) ≡ count test (r ∷ rs)
unfolding count
count-last_of test r [] = refl
count-last_of test r (x ∷ xs) = omega (arith, count-last_of test x xs)

position_here :
    (test : Record → Bool) (r : Record) (rs : List Record)
    → position test (r ∷ rs) ≡ some 0
    → test r ≡ true
unfolding position
position_here test r rs h = elim (Bool-cases (test r)) [
  | inl e ↦ e
  | inr e ↦ elim (Option-cases (position test rs)) [
    | inl p ↦ ground (arith, h, e, p)
    | inr (i, p) ↦ ground (arith, h, e, p)
  ]
]

position_later :
    (test : Record → Bool) (r : Record) (rs : List Record) (i : ℕ)
    → position test (r ∷ rs) ≡ some (suc i)
    → (test r ≡ false) × (position test rs ≡ some i)
unfolding position
position_later test r rs i h = elim (Bool-cases (test r)) [
  | inl e ↦ ground (arith, h, e)
  | inr e ↦ elim (Option-cases (position test rs)) [
    | inl p ↦ ground (arith, h, e, p)
    | inr (j, p) ↦ ground (arith, h, e, p)
  ]
]

-- The first record that passes, if one is removed, takes itself out of the count.
pub count-swap_remove :
    (test : Record → Bool) (i : ℕ) (rs : List Record)
    → position test rs ≡ some i
    → count test (swap_remove i rs) + 1 ≡ count test rs
unfolding count swap_remove position
count-swap_remove test i [] h = cc
count-swap_remove test zero (r ∷ []) h = rw (position_here test r [] h)
count-swap_remove test zero (r ∷ x ∷ xs) h =
    rw (position_here test r (x ∷ xs) h) (omega (arith, count-last_of test x xs))
count-swap_remove test (suc i) (r ∷ xs) h =
    let later = position_later test r xs i h in omega (arith, count-swap_remove test i xs later.1)

length-but_last : (r : Record) (rs : List Record) → length (but_last r rs) ≡ length rs
length-but_last r [] = refl
length-but_last r (x ∷ xs) = omega (arith, length-but_last x xs)

pub length-swap_remove :
    (i : ℕ) (rs : List Record) → i < length rs → length (swap_remove i rs) + 1 ≡ length rs
unfolding swap_remove
length-swap_remove i [] h = absurd (omega arith)
length-swap_remove zero (r ∷ []) h = refl
length-swap_remove zero (r ∷ x ∷ xs) h = omega (arith, length-but_last x xs)
length-swap_remove (suc i) (r ∷ xs) h = omega (arith, length-swap_remove i xs (omega arith))

oldest_from-lt :
    (best : ℕ) (r : Record) (at : ℕ) (rs : List Record)
    → best < at
    → oldest_from best r at rs < at + length rs
unfolding oldest_from
oldest_from-lt best r at [] h = omega arith
oldest_from-lt best r at (x ∷ xs) h = omega (
  arith,
  oldest_from-lt (if expires_before x r then at else best) (if expires_before x r then x else r)
      (at + 1) xs (ground arith),
)

oldest-lt : (rs : List Record) → 0 < length rs → oldest rs < length rs
unfolding oldest
oldest-lt [] h = absurd (omega arith)
oldest-lt (r ∷ rs) h = omega (arith, oldest_from-lt 0 r 1 rs (omega arith))

-- With rounds enough, no more records stay than the cap.
pub length-evict :
    (rounds : ℕ) (rs : List Record)
    → length rs ≤ rounds + maximum_sessions
    → length (evict rounds rs) ≤ maximum_sessions
unfolding evict
length-evict zero rs h = omega arith
length-evict (suc rounds) rs h = elim (Bool-cases (ltb maximum_sessions (length rs))) [
  | inl over ↦ rw over (
      length-evict rounds (swap_remove (oldest rs) rs)
        (omega (arith, length-swap_remove (oldest rs) rs (oldest-lt rs (ground arith)))))
  | inr fits ↦ rw fits (ground arith)
]
