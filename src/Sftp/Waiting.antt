-- ===== src/Sftp/Waiting.antt =====
-- The writes that wait for an answer, by their ids, and what an answer may name.
use rpi_omt_client.Prelude.{
  ℕ, zero, suc, ◌+◌, ◌-◌, ◌%◌, ◌^◌, ◌≤◌, ◌<◌, ◌≡◌, ◌≢◌, refl, sym, ap, ◌∙◌, Bool, true, false, List,
  [], ◌∷◌, arith, ltb, ◌==◌, ==_iff, if◌then◌else◌, length, replicate, get_or, Bool-cases, inl, inr,
}
use rpi_omt_client.Sftp.{Upload, max_in_flight, behind_by, mark, next_of, is_not_made, upload_start}

abbrev pub count : ℕ → List ℕ → ℕ
count a [] = 0
count a (x ∷ xs) = (if x == a then 1 else 0) + count a xs

-- The list without the first `a`.
pub erase : ℕ → List ℕ → List ℕ
erase a [] = []
erase a (x ∷ xs) = if x == a then xs else x ∷ erase a xs

pub count-erase :
    (a b : ℕ) (xs : List ℕ)
    → 0 < count b xs
    → count a (erase b xs) + (if b == a then 1 else 0) ≡ count a xs
unfolding erase
count-erase a b [] h = absurd (omega arith)
count-erase a b (x ∷ xs) h = ground (arith, count-erase a b xs)

pub length-erase : (b : ℕ) (xs : List ℕ) → 0 < count b xs → length (erase b xs) + 1 ≡ length xs
unfolding erase
length-erase b [] h = absurd (omega arith)
length-erase b (x ∷ xs) h = ground (arith, length-erase b xs)

-- One of the 32 ids before the next one.
abbrev IsRecent : ℕ → ℕ → Type 0
IsRecent next id = (1 ≤ behind_by next id) × (behind_by next id ≤ max_in_flight)

-- The ids of the writes that wait for an answer: as many as are in flight, and a marked slot is that of such
-- a write when a recent id is looked up in it.
pub record IsTracked (u : Upload) (waiting : List ℕ) : Type 0 where
  pub few : u.in_flight ≤ max_in_flight
  pub fits : u.next_id < 2 ^ 32
  pub in_flight_is : length waiting ≡ u.in_flight
  pub known :
      (id : ℕ)
      → id < 2 ^ 32
      → IsRecent u.next_id id
      → get_or u.pending (id % max_in_flight) false ≡ true
      → 0 < count id waiting

get_or-mark_other :
    (i j : ℕ) (b : Bool) (bs : List Bool) → i ≢ j → get_or (mark i b bs) j false ≡ get_or bs j false
unfolding mark
get_or-mark_other i j b [] h = refl
get_or-mark_other zero zero b (x ∷ xs) h = absurd (h refl)
get_or-mark_other zero (suc j) b (x ∷ xs) h = refl
get_or-mark_other (suc i) zero b (x ∷ xs) h = refl
get_or-mark_other (suc i) (suc j) b (x ∷ xs) h = get_or-mark_other i j b xs (λ e. h (ap suc e))

get_or-mark_off : (i : ℕ) (bs : List Bool) → get_or (mark i false bs) i false ≡ false
unfolding mark
get_or-mark_off i [] = refl
get_or-mark_off zero (x ∷ xs) = refl
get_or-mark_off (suc i) (x ∷ xs) = get_or-mark_off i xs

next_of-lt : (n : ℕ) → next_of n < 2 ^ 32
next_of-lt n = omega arith

-- A recent id other than the one just given away was recent before, and has another slot.
next_of-IsRecent :
    (n id : ℕ)
    → n < 2 ^ 32
    → id < 2 ^ 32
    → id ≢ n
    → IsRecent (next_of n) id
    → IsRecent n id × (n % max_in_flight ≢ id % max_in_flight)
next_of-IsRecent n id a b c d = omega arith

made_known :
    (n : ℕ) (pending : List Bool) (waiting : List ℕ)
    → n < 2 ^ 32
    → ((id : ℕ)
        → id < 2 ^ 32
        → IsRecent n id
        → get_or pending (id % max_in_flight) false ≡ true
        → 0 < count id waiting)
    → (id : ℕ) → id < 2 ^ 32
    → IsRecent (next_of n) id
    → get_or (mark (n % max_in_flight) true pending) (id % max_in_flight) false ≡ true
    → 0 < count id (n ∷ waiting)
made_known n pending waiting a known id b r g = elim (Bool-cases (n == id)) [
  | inl e ↦ ground (arith, e)
  | inr e ↦
      let (before, slot) = next_of-IsRecent n id a b (λ p. ground (arith, p, e)) r in
      let old =
        known id b before (
          sym (get_or-mark_other (n % max_in_flight) (id % max_in_flight) true pending slot) ∙ g) in
      omega (arith, old)
]

-- A write that is sent waits.
pub sent-IsTracked :
    (u v : Upload) (waiting : List ℕ)
    → IsTracked u waiting
    → u.in_flight < max_in_flight
    → v.in_flight ≡ u.in_flight + 1
    → v.next_id ≡ next_of u.next_id
    → v.pending ≡ mark (u.next_id % max_in_flight) true u.pending
    → IsTracked v (u.next_id ∷ waiting)
sent-IsTracked u v waiting t few f n p = record {
  few = omega (arith, few, f);
  fits = rw n (next_of-lt u.next_id);
  in_flight_is = omega (arith, f, t.in_flight_is);
  known = rw (n, p) (made_known u.next_id u.pending waiting t.fits t.known);
}

-- An answer that is taken names a write that waits.
pub taken_waits :
    (u : Upload) (waiting : List ℕ) (id : ℕ)
    → IsTracked u waiting
    → id < 2 ^ 32
    → is_not_made u id ≡ false
    → 0 < count id waiting
unfolding is_not_made
taken_waits u waiting id t h n =
    let mark_is = Bool-cases (get_or u.pending (id % max_in_flight) false) in
    let close = Bool-cases (ltb max_in_flight (behind_by u.next_id id)) in
    let here = Bool-cases (u.next_id == id) in
    let far : (behind_by u.next_id id ≤ max_in_flight) × (u.next_id ≢ id) =
      (ground (arith, n, mark_is, close, here), ground (arith, n, mark_is, close, here)) in
    t.known id h (omega (arith, far, t.fits)) (ground (arith, n, mark_is, close, here))

answered_known :
    (n done : ℕ) (pending : List Bool) (waiting : List ℕ)
    → 0 < count done waiting
    → ((id : ℕ)
        → id < 2 ^ 32
        → IsRecent n id
        → get_or pending (id % max_in_flight) false ≡ true
        → 0 < count id waiting)
    → (id : ℕ) → id < 2 ^ 32
    → IsRecent n id
    → get_or (mark (done % max_in_flight) false pending) (id % max_in_flight) false ≡ true
    → 0 < count id (erase done waiting)
answered_known n done pending waiting w known id b r g =
    elim (Bool-cases (done % max_in_flight == id % max_in_flight)) [
      | inl e ↦
          let slot = (==_iff (done % max_in_flight) (id % max_in_flight)).0 e in
          let off = get_or-mark_off (done % max_in_flight) pending in cc (off, slot, g)
      | inr e ↦
          let slot : done % max_in_flight ≢ id % max_in_flight = λ p. ground (arith, p, e) in
          let other : (done == id) ≡ false = ground (arith, e) in
          let old = known id b r (
            sym (get_or-mark_other (done % max_in_flight) (id % max_in_flight) false pending slot)
            ∙ g) in
          ground (arith, old, other, count-erase id done waiting w)
    ]

-- What is answered waits no longer.
pub answered-IsTracked :
    (u v : Upload) (waiting : List ℕ) (id : ℕ)
    → IsTracked u waiting
    → 0 < count id waiting
    → v.in_flight ≡ u.in_flight - 1
    → v.next_id ≡ u.next_id
    → v.pending ≡ mark (id % max_in_flight) false u.pending
    → IsTracked v (erase id waiting)
answered-IsTracked u v waiting id t w f n p = record {
  few = omega (arith, f, t.few);
  fits = rw n t.fits;
  in_flight_is = omega (arith, f, t.in_flight_is, length-erase id waiting w);
  known = rw (n, p) (answered_known u.next_id id u.pending waiting w t.known);
}

get_or-replicate : (n i : ℕ) → get_or (replicate n false) i false ≡ false
get_or-replicate zero i = refl
get_or-replicate (suc n) zero = refl
get_or-replicate (suc n) (suc i) = get_or-replicate n i

-- At the start no write waits.
pub start-IsTracked : IsTracked upload_start []
start-IsTracked = record {
  few = omega arith;
  fits = omega arith;
  in_flight_is = refl;
  known = λ id b r g. cc (get_or-replicate 32 (id % max_in_flight), g);
}
