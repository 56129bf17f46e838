-- ===== src/Queue/Dropping.antt =====
-- What the two dropping loops of a push take from the front of a queue, and what they leave.
use rpi_omt_client.Prelude.{
  ℕ, zero, suc, ◌+◌, ◌≤◌, ◌<◌, ◌≡◌, refl, ◌∙◌, Bool, true, false, List, [], ◌∷◌, ◌++◌, arith, ltb,
  length, length-drop, Bool-cases, inl, inr, drop, ap,
}
use rpi_omt_client.Frame.{Frame}
use rpi_omt_client.Queue.{
  Queue, drop_oldest, drop_while, not_empty, audio_backlog_exceeded, over_limit,
}
use rpi_omt_client.Queue.Invariant.{total, largest, IsAccounted, IsShorter, drop_oldest-IsShorter}

pub drop-suc {ℓ} : {A : Type ℓ} (n : ℕ) (xs : List A) → drop n (drop 1 xs) ≡ drop (suc n) xs
drop-suc zero [] = refl
drop-suc (suc n) [] = refl
drop-suc n (x ∷ xs) = refl

-- After a dropping loop that began with the count `d`.
pub record IsDropped (q : Queue) (d : ℕ) (r : Queue × ℕ) : Type 0 where
  pub gone : ℕ
  pub counted : r.1 ≡ d + gone
  pub frames_are : r.0.frames ≡ drop gone q.frames
  pub cap_is : r.0.byte_cap ≡ q.byte_cap
  pub kind_is : r.0.kind ≡ q.kind
  pub interval_is : r.0.interval_ns ≡ q.interval_ns

nothing-IsDropped : (q : Queue) (d : ℕ) → IsDropped q d (q, d)
nothing-IsDropped q d = record {
  gone = 0;
  counted = omega arith;
  frames_are = refl;
  cap_is = refl;
  kind_is = refl;
  interval_is = refl;
}

one_more-IsDropped :
    (q r : Queue) (d : ℕ) (s : Queue × ℕ) → IsShorter q r → IsDropped r (d + 1) s → IsDropped q d s
one_more-IsDropped q r d s h v = record {
  gone = suc v.gone;
  counted = omega (arith, v.counted);
  frames_are = v.frames_are ∙ rw (h.frames_are) (drop-suc v.gone q.frames);
  cap_is = v.cap_is ∙ h.cap_is;
  kind_is = v.kind_is ∙ h.kind_is;
  interval_is = v.interval_is ∙ h.interval_is;
}

pub drop_while-IsDropped :
    (test : Queue → Bool) (rounds : ℕ) (q : Queue) (d : ℕ)
    → IsDropped q d (drop_while test rounds q d)
unfolding drop_while
drop_while-IsDropped test zero q d = nothing-IsDropped q d
drop_while-IsDropped test (suc rounds) q d = elim (Bool-cases (test q)) [
  | inl more ↦
      rw (more, drop_while)
        (one_more-IsDropped q (drop_oldest q) d _ (drop_oldest-IsShorter q)
          (drop_while-IsDropped test rounds (drop_oldest q) (d + 1)))
  | inr done ↦ rw (done, drop_while) (nothing-IsDropped q d)
]

pub not_empty-false : (q : Queue) → q.frames ≡ [] → not_empty q ≡ false
not_empty-false q e = rw e (ground arith)

pub nil_of_not_empty : (q : Queue) → not_empty q ≡ false → q.frames ≡ []
nil_of_not_empty q h = nil_of_length q.frames h
  where
    nil_of_length : (fs : List Frame) → ltb 0 (length fs) ≡ false → fs ≡ []
    nil_of_length [] e = refl
    nil_of_length (g ∷ gs) e = absurd (ground arith)

pub over_limit-false : (q : Queue) → q.frames ≡ [] → over_limit q ≡ false
unfolding over_limit
over_limit-false q e = rw e (ground arith)

over_limit_many : (q : Queue) → over_limit q ≡ true → 1 < length q.frames
unfolding over_limit
over_limit_many q h = ground (arith, h, Bool-cases (ltb 1 (length q.frames)))

pub over_limit_one : (q : Queue) → length q.frames ≤ 1 → over_limit q ≡ false
unfolding over_limit audio_backlog_exceeded
over_limit_one q h = ground arith

pub drop_while_idle :
    (test : Queue → Bool) (rounds : ℕ) (q : Queue) (d : ℕ)
    → test q ≡ false
    → drop_while test rounds q d ≡ (q, d)
unfolding drop_while
drop_while_idle test zero q d h = refl
drop_while_idle test (suc rounds) q d h = rw (h, drop_while)

pub drop-append : (n : ℕ) (xs ys : List Frame) → n ≤ length xs → drop n (xs ++ ys) ≡ drop n xs ++ ys
drop-append zero xs ys h = refl
drop-append (suc n) [] ys h = absurd (omega arith)
drop-append (suc n) (x ∷ xs) ys h = drop-append n xs ys (omega arith)

-- The last frame of a queue is never over a limit by itself, so the loop leaves it.
pub drop_while_keeps_one :
    (rounds : ℕ) (q : Queue) (d : ℕ)
    → 0 < length q.frames
    → 0 < length (drop_while over_limit rounds q d).0.frames
unfolding drop_while
drop_while_keeps_one zero q d h = h
drop_while_keeps_one (suc rounds) q d h = elim (Bool-cases (over_limit q)) [
  | inl more ↦
      rw (more, drop_while) (drop_while_keeps_one rounds (drop_oldest q) (d + 1) (one_left q more))
  | inr done ↦ rw (done, drop_while) h
]
  where
    one_left : (q : Queue) → over_limit q ≡ true → 0 < length (drop_oldest q).frames
    one_left q more = omega (
      arith,
      over_limit_many q more,
      ap length ((drop_oldest-IsShorter q).frames_are),
      length-drop 1 q.frames,
    )

total-le-largest : (fs : List Frame) → length fs ≤ 1 → total fs ≤ largest fs
total-le-largest [] h = omega arith
total-le-largest (f ∷ []) h = omega arith
total-le-largest (f ∷ g ∷ fs) h = absurd (omega arith)

-- A queue that is not over its limit is under its cap, because each frame is.
pub under_cap : (q : Queue) → IsAccounted q → over_limit q ≡ false → q.bytes ≤ q.byte_cap
unfolding over_limit
under_cap q v h = ground (arith, v, total-le-largest q.frames)
