-- ===== src/Queue/Needed.antt =====
-- When the dropping loop of a push takes a frame, against what is too much for a queue.
use rpi_omt_client.Prelude.{
  ℕ, zero, suc, ◌+◌, ◌*◌, ◌≤◌, ◌<◌, ◌≡◌, refl, subst, true, Option, none, some, List, [], ◌∷◌, ◌++◌,
  arith, ltb, length, drop, Bool-cases, inl, inr, ◌⊎◌,
}
use rpi_omt_client.Frame.{Frame}
use rpi_omt_client.Queue.{
  Queue, drop_oldest, drop_while, audio_backlog_ns, audio_backlog_exceeded, over_limit,
}
use rpi_omt_client.Queue.Invariant.{
  total, IsAccounted, drop_oldest-IsAccounted, drop_oldest-IsShorter,
}
use rpi_omt_client.Queue.Dropping.{drop-suc, drop-append}

-- More bytes than the cap, or more than 100 ms of frames.
abbrev pub TooMuch : ℕ → Option ℕ → List Frame → Type 0
TooMuch cap interval fs =
    (cap < total fs) ⊎ ((i : ℕ) × (interval ≡ some i) × (audio_backlog_ns < i * length fs))

backlog_exceeded :
    (q : Queue)
    → audio_backlog_exceeded q ≡ true
    → (i : ℕ) × (q.interval_ns ≡ some i) × (audio_backlog_ns < i * length q.frames)
unfolding audio_backlog_exceeded
backlog_exceeded q h = long q.interval_ns refl
  where
    long :
        (o : Option ℕ)
        → q.interval_ns ≡ o
        → (i : ℕ) × (q.interval_ns ≡ some i) × (audio_backlog_ns < i * length q.frames)
    long none e = absurd (ground (arith, e, h))
    long (some i) e = (i, e, ground (arith, e, h))

over_limit-TooMuch :
    (q : Queue) → IsAccounted q → over_limit q ≡ true → TooMuch q.byte_cap q.interval_ns q.frames
unfolding over_limit
over_limit-TooMuch q v h = elim (Bool-cases (ltb q.byte_cap q.bytes)) [
  | inl bytes ↦ inl (ground (arith, bytes, v))
  | inr few ↦
      inr (backlog_exceeded q (ground (arith, few, h, Bool-cases (ltb 1 (length q.frames)))))
]

-- The count of a dropping loop that began with `d`: nothing was dropped, or the frames before the last
-- drop were too much.
abbrev pub IsNeeded : Queue → ℕ → ℕ → Type 0
IsNeeded q d count =
    (count ≡ d)
    ⊎ ((m : ℕ) × (count ≡ d + suc m) × TooMuch q.byte_cap q.interval_ns (drop m q.frames))

pub drop_while-IsNeeded :
    (rounds : ℕ) (q : Queue) (d : ℕ)
    → IsAccounted q
    → IsNeeded q d (drop_while over_limit rounds q d).1
unfolding drop_while
drop_while-IsNeeded zero q d v = inl refl
drop_while-IsNeeded (suc rounds) q d v = elim (Bool-cases (over_limit q)) [
  | inl more ↦
      rw (more, drop_while)
        (one_before q d v more _
          (drop_while-IsNeeded rounds (drop_oldest q) (d + 1) (drop_oldest-IsAccounted q v)))
  | inr done ↦ rw (done, drop_while) (inl refl)
]
  where
    one_before :
        (q : Queue) (d : ℕ)
        → IsAccounted q
        → over_limit q ≡ true
        → (count : ℕ) → IsNeeded (drop_oldest q) (d + 1) count
        → IsNeeded q d count
    one_before q d v more count (inl e) = inr (0, omega (arith, e), over_limit-TooMuch q v more)
    one_before q d v more count (inr (m, e, much)) =
        let s = drop_oldest-IsShorter q in
        inr (
          suc m,
          omega (arith, e),
          subst (TooMuch q.byte_cap q.interval_ns) (drop-suc m q.frames)
              (rw (s.frames_are, s.cap_is, s.interval_is) at much),
        )

-- What a push has dropped of some frames with another behind them: nothing, or no more than it had to.
abbrev pub IsLeast : ℕ → Option ℕ → List Frame → Frame → ℕ → Type 0
IsLeast cap interval fs f count =
    (count ≡ 0) ⊎ ((m : ℕ) × (count ≡ suc m) × TooMuch cap interval (drop m fs ++ (f ∷ [])))

pub IsNeeded-IsLeast :
    (q r : Queue) (f : Frame) (count : ℕ)
    → r.frames ≡ q.frames ++ (f ∷ [])
    → r.byte_cap ≡ q.byte_cap
    → count ≤ length q.frames
    → IsNeeded r 0 count
    → IsLeast q.byte_cap r.interval_ns q.frames f count
IsNeeded-IsLeast q r f count e c short (inl nothing) = inl nothing
IsNeeded-IsLeast q r f count e c short (inr (m, n, much)) = inr (
  m,
  omega (arith, n),
  rw (e, c, drop-append m q.frames (f ∷ []) (omega (arith, n, short))) at much,
)
