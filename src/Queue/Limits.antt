-- ===== src/Queue/Limits.antt =====
-- The limits of a queue over any push.
use rpi_omt_client.Prelude.{
  ℕ, ◌≤◌, ◌≡◌, ◌∙◌, Bool, false, not, ◌||◌, ◌&&◌, [], arith, ltb, length, ap, ℤ, Bool-cases, inl,
  inr, ◌⊎◌, refl,
}
use rpi_omt_client.Frame.{Frame, Buffer}
use rpi_omt_client.Queue.{
  Queue, QueueKind, video, audio, not_empty, spare_buffers, recycle, is_wanted, make_way, store,
  push,
}
use rpi_omt_client.Queue.Invariant.{IsAccounted, total}
use rpi_omt_client.Queue.Order.{
  make_way-IsAccounted, store-IsAccounted, store_ends, make_way_video, store_first, store-IsDropped,
  push-IsAccounted,
}
use rpi_omt_client.Queue.Dropping.{under_cap, drop_while-IsDropped}

-- No more bytes than the cap, and one frame at most if the queue is for video.
abbrev Holds : QueueKind → Queue → Type 0
Holds kind q = (q.bytes ≤ q.byte_cap) × (q.kind ≡ kind) × ((kind ≡ audio) ⊎ (length q.frames ≤ 1))

-- A queue with an exact account that holds no more than it may.
pub record IsLimited (q : Queue) : Type 0 where
  pub account : IsAccounted q
  pub within : q.bytes ≤ q.byte_cap
  pub single : (q.kind ≡ audio) ⊎ (length q.frames ≤ 1)

recycle-Holds :
    (kind : QueueKind) (q : Queue) (b : Buffer) → Holds kind q → Holds kind (recycle q b)
unfolding recycle
recycle-Holds kind q b v =
    elim (Bool-cases (ltb 0 b.capacity && ltb (length q.spares) spare_buffers)) [
      | inl e ↦ rw e v
      | inr e ↦ rw e v
    ]

module _ (nanoseconds : ℤ → ℤ → ℕ) (grants : ℕ → Bool) where
  -- What is left once way is made for a frame.
  make_way-Holds :
      (kind : QueueKind) (q : Queue) (f : Frame)
      → IsAccounted q
      → Holds kind q
      → Holds kind (make_way nanoseconds grants kind q f).0
  unfolding make_way
  make_way-Holds video q f v h =
      let none_left = make_way_video nanoseconds grants q f in
      let (account, same_cap) = make_way-IsAccounted nanoseconds grants video q f v in
      (
        omega (arith, account.exact, ap total none_left),
        (drop_while-IsDropped not_empty (length q.frames) q 0).kind_is ∙ h.1,
        inr (omega (arith, ap length none_left)),
      )
  make_way-Holds audio q f v h = ground (arith, h)

  first_frame :
      (kind : QueueKind) (q : Queue) (f : Frame)
      → (kind ≡ audio) ⊎ ((make_way nanoseconds grants kind q f).0.frames ≡ [])
  first_frame video q f = inr (make_way_video nanoseconds grants q f)
  first_frame audio q f = inl refl

  store_refused :
      (kind : QueueKind) (q : Queue) (f : Frame) (d : ℕ)
      → grants (length q.frames) ≡ false
      → Holds kind q
      → Holds kind (store nanoseconds grants q f d).0
  unfolding store
  store_refused kind q f d full h = rw (full, store) (recycle-Holds kind q f.buffer h)

  store-Holds :
      (kind : QueueKind) (q : Queue) (f : Frame) (d : ℕ)
      → f.len ≤ q.byte_cap
      → IsAccounted q
      → (kind ≡ audio) ⊎ (q.frames ≡ [])
      → Holds kind q
      → Holds kind (store nanoseconds grants q f d).0
  store-Holds kind q f d fits v first h = elim (Bool-cases (grants (length q.frames))) [
    | inl room ↦
        let r = (store nanoseconds grants q f d).0 in
        let dropped = store-IsDropped nanoseconds grants q f d room in
        (
          under_cap r (store-IsAccounted nanoseconds grants q f d fits v)
              (store_ends nanoseconds grants q f d room),
          dropped.kind_is ∙ h.1,
          elim first [
            | inl sound ↦ inl sound
            | inr none_left ↦
                inr (omega (arith, ap length (store_first nanoseconds grants q f d none_left room)))
          ],
        )
    | inr full ↦ store_refused kind q f d full h
  ]

  push-Holds :
      (q : Queue) (f : Frame)
      → IsAccounted q
      → Holds q.kind q
      → Holds q.kind (push nanoseconds grants q f).0
  unfolding push
  push-Holds q f v h = elim (Bool-cases (not (is_wanted q.kind f) || ltb q.byte_cap f.len)) [
    | inl refused ↦ rw (refused, push) (recycle-Holds q.kind q f.buffer h)
    | inr taken ↦
        let (account, same_cap) = make_way-IsAccounted nanoseconds grants q.kind q f v in
        rw (taken, push)
          (store-Holds q.kind _ f _ (ground (arith, taken, same_cap)) account
            (first_frame q.kind q f) (make_way-Holds q.kind q f v h))
  ]

  -- Whatever frame is pushed, wanted or not, and whether or not the allocator has room, a queue
  -- whose byte count is exact and within its cap, whose frames each fit the cap, whose spares are few
  -- enough and, if it is for video, that holds one frame at most, stays such a queue of its kind.
  pub push-IsLimited :
      (q : Queue) (f : Frame)
      → IsLimited q
      → IsLimited (push nanoseconds grants q f).0 × ((push nanoseconds grants q f).0.kind ≡ q.kind)
  push-IsLimited q f v =
      let h = push-Holds q f v.account (v.within, refl, v.single) in
      (
        record {
          account = push-IsAccounted nanoseconds grants q f v.account;
          within = h.0;
          single = elim h.2 [ inl sound ↦ inl (h.1 ∙ sound) | inr few ↦ inr few ];
        },
        h.1,
      )
