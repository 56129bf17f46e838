-- ===== src/Queue/Invariant.antt =====
-- The account of a queue, its byte count and its spares, and the rules for the dropping loops.
use rpi_omt_client.Prelude.{
  ℕ, zero, suc, ◌+◌, ◌-◌, ◌≤◌, ◌≡◌, refl, Bool, false, List, [], ◌∷◌, ◌++◌, arith, length, max,
  drop, length-drop, ap, Bool-cases, inl, inr,
}
use rpi_omt_client.Frame.{Frame, Buffer}
use rpi_omt_client.Queue.{Queue, recycle, drop_front, drop_oldest, drop_while, spare_buffers}

abbrev pub total : List Frame → ℕ
total [] = 0
total (f ∷ fs) = f.len + total fs

pub total-append : (xs ys : List Frame) → total (xs ++ ys) ≡ total xs + total ys
total-append [] ys = omega arith
total-append (x ∷ xs) ys = omega (arith, total-append xs ys)

nil-of-length : (fs : List Frame) → length fs ≡ 0 → fs ≡ []
nil-of-length [] h = refl
nil-of-length (f ∷ fs) h = absurd (omega arith)

abbrev pub largest : List Frame → ℕ
largest [] = 0
largest (f ∷ fs) = max f.len (largest fs)

pub largest-append : (xs ys : List Frame) → largest (xs ++ ys) ≡ max (largest xs) (largest ys)
largest-append [] ys = omega arith
largest-append (x ∷ xs) ys = omega (arith, largest-append xs ys)

-- What every operation keeps: the byte count is exact, every frame fits the cap by itself, and the
-- spare buffers are few.
pub record IsAccounted (q : Queue) : Type 0 where
  pub exact : q.bytes ≡ total q.frames
  pub fit : largest q.frames ≤ q.byte_cap
  pub few_spares : length q.spares ≤ spare_buffers

pub recycle-IsAccounted : (q : Queue) (b : Buffer) → IsAccounted q → IsAccounted (recycle q b)
unfolding recycle
recycle-IsAccounted q b v = ground arith

drop_front-IsAccounted :
    (fs : List Frame) (q : Queue) → q.frames ≡ fs → IsAccounted q → IsAccounted (drop_front fs q)
unfolding drop_front
drop_front-IsAccounted [] q e v = v
drop_front-IsAccounted (x ∷ xs) q e v =
    recycle-IsAccounted (record q { frames = xs; bytes = q.bytes - x.len }) x.buffer
      (omega (arith, v, ap total e, ap largest e))

pub drop_oldest-IsAccounted : (q : Queue) → IsAccounted q → IsAccounted (drop_oldest q)
unfolding drop_oldest
drop_oldest-IsAccounted q v = drop_front-IsAccounted q.frames q refl v

-- `drop_oldest` takes one frame from the front, and leaves the cap, the kind and the interval.
pub record IsShorter (q r : Queue) : Type 0 where
  pub frames_are : r.frames ≡ drop 1 q.frames
  pub cap_is : r.byte_cap ≡ q.byte_cap
  pub kind_is : r.kind ≡ q.kind
  pub interval_is : r.interval_ns ≡ q.interval_ns

drop_front-IsShorter : (fs : List Frame) (q : Queue) → q.frames ≡ fs → IsShorter q (drop_front fs q)
unfolding drop_front recycle
drop_front-IsShorter [] q e = record {
  frames_are = rw e;
  cap_is = refl;
  kind_is = refl;
  interval_is = refl;
}
drop_front-IsShorter (x ∷ xs) q e = record {
  frames_are = rw e (ground arith);
  cap_is = ground arith;
  kind_is = ground arith;
  interval_is = ground arith;
}

pub drop_oldest-IsShorter : (q : Queue) → IsShorter q (drop_oldest q)
unfolding drop_oldest
drop_oldest-IsShorter q = drop_front-IsShorter q.frames q refl

-- The rule for both dropping loops.
pub drop_while-IsAccounted :
    (test : Queue → Bool) (rounds : ℕ) (q : Queue) (d : ℕ)
    → IsAccounted q
    → IsAccounted (drop_while test rounds q d).0
unfolding drop_while
drop_while-IsAccounted test zero q d v = v
drop_while-IsAccounted test (suc rounds) q d v = elim (Bool-cases (test q)) [
  | inl more ↦
      rw (more, drop_while)
        (drop_while-IsAccounted test rounds (drop_oldest q) (d + 1) (drop_oldest-IsAccounted q v))
  | inr done ↦ rw (done, drop_while) v
]

-- With a round for each frame, and a test that fails on an empty queue, the loop ends by its test.
pub drop_while_stops :
    (test : Queue → Bool)
    → ((q : Queue) → q.frames ≡ [] → test q ≡ false)
    → (rounds : ℕ) (q : Queue) (d : ℕ) → length q.frames ≤ rounds
    → test (drop_while test rounds q d).0 ≡ false
unfolding drop_while
drop_while_stops test empty zero q d h = empty q (nil-of-length q.frames (omega arith))
drop_while_stops test empty (suc rounds) q d h = elim (Bool-cases (test q)) [
  | inl more ↦
      rw (more, drop_while)
        (drop_while_stops test empty rounds (drop_oldest q) (d + 1)
          (omega (arith, ap length ((drop_oldest-IsShorter q).frames_are), length-drop 1 q.frames)))
  | inr done ↦ rw (done, drop_while) done
]
