-- ===== src/Queue/Order.antt =====
-- What a push of a wanted frame does to the frames of a queue.
use rpi_omt_client.Prelude.{
  ℕ, ◌+◌, ◌≤◌, ◌<◌, ◌≡◌, sym, subst, ◌∙◌, Bool, true, false, not, [], ◌∷◌, ◌++◌, arith, ltb, length,
  length-append, length-drop, Bool-cases, inl, inr, ℤ, drop, ap, ◌||◌,
}
use rpi_omt_client.Frame.{Frame}
use rpi_omt_client.Queue.{
  Queue, QueueKind, video, audio, drop_while, is_wanted, not_empty, over_limit, make_way, store,
  push,
}
use rpi_omt_client.Queue.Invariant.{
  total-append, largest-append, IsAccounted, recycle-IsAccounted, drop_while-IsAccounted,
  drop_while_stops,
}
use rpi_omt_client.Queue.Needed.{IsLeast, IsNeeded, drop_while-IsNeeded, IsNeeded-IsLeast}
use rpi_omt_client.Queue.Dropping.{
  IsDropped, drop_while-IsDropped, nil_of_not_empty, not_empty-false, over_limit-false,
  over_limit_one, drop_while_idle, drop-append, drop_while_keeps_one, under_cap,
}

module _ (nanoseconds : ℤ → ℤ → ℕ) (grants : ℕ → Bool) where
  abbrev pub stored : Queue → Frame → Queue
  stored q f = record q { bytes = q.bytes + f.len; frames = q.frames ++ (f ∷ []) }

  stored-IsAccounted :
      (q : Queue) (f : Frame) → f.len ≤ q.byte_cap → IsAccounted q → IsAccounted (stored q f)
  stored-IsAccounted q f h v =
      omega (arith, v, total-append q.frames (f ∷ []), largest-append q.frames (f ∷ []))

  pub store-IsAccounted :
      (q : Queue) (f : Frame) (d : ℕ)
      → f.len ≤ q.byte_cap
      → IsAccounted q
      → IsAccounted (store nanoseconds grants q f d).0
  unfolding store
  store-IsAccounted q f d h v = elim (Bool-cases (grants (length q.frames))) [
    | inl room ↦
        rw (room, store)
          (drop_while-IsAccounted over_limit _ (stored q f) d (stored-IsAccounted q f h v))
    | inr full ↦ rw (full, store) (recycle-IsAccounted q f.buffer v)
  ]

  pub store_ends :
      (q : Queue) (f : Frame) (d : ℕ)
      → grants (length q.frames) ≡ true
      → over_limit (store nanoseconds grants q f d).0 ≡ false
  unfolding store
  store_ends q f d room =
      rw (room, store) (drop_while_stops over_limit over_limit-false _ (stored q f) d (omega arith))

  pub store-IsDropped :
      (q : Queue) (f : Frame) (d : ℕ)
      → grants (length q.frames) ≡ true
      → IsDropped (stored q f) d (store nanoseconds grants q f d)
  unfolding store
  store-IsDropped q f d room = rw (room, store) (drop_while-IsDropped over_limit _ (stored q f) d)

  -- The stored frame itself is not dropped.
  store_keeps_one :
      (q : Queue) (f : Frame) (d : ℕ)
      → grants (length q.frames) ≡ true
      → 0 < length (store nanoseconds grants q f d).0.frames
  unfolding store
  store_keeps_one q f d room =
      rw (room, store)
        (drop_while_keeps_one _ (stored q f) d (omega (arith, length-append q.frames (f ∷ []))))

  store-IsNeeded :
      (q : Queue) (f : Frame) (d : ℕ)
      → grants (length q.frames) ≡ true
      → f.len ≤ q.byte_cap
      → IsAccounted q
      → IsNeeded (stored q f) d (store nanoseconds grants q f d).1
  unfolding store
  store-IsNeeded q f d room fits v =
      rw (room, store) (drop_while-IsNeeded _ (stored q f) d (stored-IsAccounted q f fits v))

  store_joins :
      (q : Queue) (f : Frame) (d n : ℕ)
      → grants (length q.frames) ≡ true
      → (store nanoseconds grants q f d).0.frames ≡ drop n (q.frames ++ (f ∷ []))
      → (n ≤ length q.frames)
        × ((store nanoseconds grants q f d).0.frames ≡ drop n q.frames ++ (f ∷ []))
  store_joins q f d n room e =
      let short : n ≤ length q.frames = omega (
        arith,
        ap length e,
        store_keeps_one q f d room,
        length-drop n (q.frames ++ (f ∷ [])),
        length-append q.frames (f ∷ []),
      ) in
      (short, e ∙ drop-append n q.frames (f ∷ []) short)

  pub make_way-IsAccounted :
      (kind : QueueKind) (q : Queue) (f : Frame)
      → IsAccounted q
      → IsAccounted (make_way nanoseconds grants kind q f).0
        × ((make_way nanoseconds grants kind q f).0.byte_cap ≡ q.byte_cap)
  unfolding make_way
  make_way-IsAccounted video q f v = (
    drop_while-IsAccounted not_empty (length q.frames) q 0 v,
    (drop_while-IsDropped not_empty (length q.frames) q 0).cap_is,
  )
  make_way-IsAccounted audio q f v = ground (arith, v)

  -- Whatever frame is pushed, wanted or not, and whether or not the allocator has room, a queue
  -- whose byte count is exact, whose frames each fit the cap and whose spares are few enough stays
  -- such a queue.
  pub push-IsAccounted :
      (q : Queue) (f : Frame) → IsAccounted q → IsAccounted (push nanoseconds grants q f).0
  unfolding push
  push-IsAccounted q f v = elim (Bool-cases (not (is_wanted q.kind f) || ltb q.byte_cap f.len)) [
    | inl refused ↦ rw (refused, push) (recycle-IsAccounted q f.buffer v)
    | inr taken ↦
        let (account, same_cap) = make_way-IsAccounted q.kind q f v in
        rw (taken, push) (store-IsAccounted _ f _ (ground (arith, taken, same_cap)) account)
  ]

  -- The frames that a wanted frame finds after `make_way`, and the count so far.
  make_way_audio :
      (q : Queue) (f : Frame)
      → ((make_way nanoseconds grants audio q f).0.frames ≡ q.frames)
        × ((make_way nanoseconds grants audio q f).1 ≡ 0)
  unfolding make_way
  make_way_audio q f = ground arith

  pub make_way_video :
      (q : Queue) (f : Frame) → (make_way nanoseconds grants video q f).0.frames ≡ []
  unfolding make_way
  make_way_video q f =
      nil_of_not_empty (drop_while not_empty (length q.frames) q 0).0
        (drop_while_stops not_empty not_empty-false (length q.frames) q 0 (omega arith))

  push_taken :
      (q : Queue) (f : Frame) (kind : QueueKind)
      → q.kind ≡ kind
      → is_wanted kind f ≡ true
      → f.len ≤ q.byte_cap
      → push nanoseconds grants q f
        ≡ store nanoseconds grants
            (make_way nanoseconds grants kind q f).0
            f
            (make_way nanoseconds grants kind q f).1
  unfolding push
  push_taken q f kind same wanted fits = ground (arith, same, wanted, fits)

  -- Stored in an empty queue, a frame is alone and stays.
  pub store_first :
      (q : Queue) (f : Frame) (d : ℕ)
      → q.frames ≡ []
      → grants (length q.frames) ≡ true
      → (store nanoseconds grants q f d).0.frames ≡ f ∷ []
  unfolding store
  store_first q f d none_left room =
      let short : length (q.frames ++ (f ∷ [])) ≤ 1 =
        omega (arith, ap length none_left, length-append q.frames (f ∷ [])) in
      rw (room, store)
        (rw (drop_while_idle over_limit _ (stored q f) d (over_limit_one (stored q f) short))
          (ap (λ l. l ++ (f ∷ [])) none_left))

  -- When the allocator does not refuse and the byte count of an audio queue is exact, an audio frame
  -- that is wanted and no larger than the byte cap joins the end of the queue; what the push drops
  -- is the front of the frames that were there, as many as it counts, and no more than it has to: the
  -- frames before the last drop are more bytes than the cap or more than 100 ms of audio; and the queue
  -- ends with its bytes within the cap and over neither of its limits.
  pub push_audio :
      (q : Queue) (f : Frame)
      → IsAccounted q
      → q.kind ≡ audio
      → is_wanted audio f ≡ true
      → f.len ≤ q.byte_cap
      → ((n : ℕ) → grants n ≡ true)
      → ((push nanoseconds grants q f).1 ≤ length q.frames)
        × ((push nanoseconds grants q f).0.frames
            ≡ drop (push nanoseconds grants q f).1 q.frames ++ (f ∷ []))
        × IsLeast q.byte_cap
            (push nanoseconds grants q f).0.interval_ns
            q.frames
            f
            (push nanoseconds grants q f).1
        × ((push nanoseconds grants q f).0.bytes ≤ (push nanoseconds grants q f).0.byte_cap)
        × (over_limit (push nanoseconds grants q f).0 ≡ false)
  push_audio q f v kind wanted fits room =
      let s = make_way nanoseconds grants audio q f in
      let r = store nanoseconds grants s.0 f s.1 in
      let (account, same_cap) = make_way-IsAccounted audio q f v in
      let (old, zero_yet) = make_way_audio q f in
      let has_room = room (length s.0.frames) in
      let fits_still : f.len ≤ s.0.byte_cap = omega (arith, same_cap) in
      let dropped = store-IsDropped s.0 f s.1 has_room in
      let count : r.1 ≡ dropped.gone = omega (arith, dropped.counted, zero_yet) in
      let ends = store_ends s.0 f s.1 has_room in
      let stays = store-IsAccounted s.0 f s.1 fits_still account in
      let joined = store_joins s.0 f s.1 dropped.gone has_room dropped.frames_are in
      let few : r.1 ≤ length q.frames = omega (arith, joined.0, count, ap length old) in
      let needed = store-IsNeeded s.0 f s.1 has_room fits_still account in
      let least =
        IsNeeded-IsLeast q (stored s.0 f) f r.1 (ap (λ fs. fs ++ (f ∷ [])) old) same_cap few
          (subst (λ d. IsNeeded (stored s.0 f) d r.1) zero_yet needed) in
      rw (push_taken q f audio kind wanted fits) (
        few,
        cc (joined.1, count, old),
        subst (λ o. IsLeast q.byte_cap o q.frames f r.1) (sym dropped.interval_is) least,
        under_cap r.0 stays ends,
        ends,
      )

  -- When the allocator does not refuse, a video frame that is wanted and no larger than the byte cap
  -- is alone in a video queue after its push.
  pub push_video :
      (q : Queue) (f : Frame)
      → q.kind ≡ video
      → is_wanted video f ≡ true
      → f.len ≤ q.byte_cap
      → ((n : ℕ) → grants n ≡ true)
      → (push nanoseconds grants q f).0.frames ≡ f ∷ []
  push_video q f kind wanted fits room =
      let s = make_way nanoseconds grants video q f in
      rw (push_taken q f video kind wanted fits)
        (store_first s.0 f s.1 (make_way_video q f) (room (length s.0.frames)))
