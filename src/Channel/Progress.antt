-- ===== src/Channel/Progress.antt =====
-- Progress: a call that is handed reads enough for what is missing of a frame has returned.
use rpi_omt_client.Prelude.{
  ℕ, suc, ◌+◌, ◌-◌, ◌≤◌, ◌<◌, ◌≡◌, ◌≢◌, refl, sym, subst, min, [], ◌∷◌, List, Bool, true, false,
  Option, none, some, Result, ok, err, arith, length, length-take, take, drop, Bytes, ltb, ◌==◌,
  if◌then◌else◌, Bool-cases, inl, inr, Option-cases,
}
use rpi_omt_client.Protocol.{
  FrameType, metadata, video, audio, FrameHeader, ProtoError, header_size, extension, maximum,
  parse_frame_header, video_max_size,
}
use rpi_omt_client.Protocol.Bounds.{parse_frame_header-IsFramed}
use rpi_omt_client.Channel.{
  Channel, Partial, Event, Answer, Round, when_full, on_header, on_fixed, on_body, on_read,
  make_room, step, room, receive_loop, receive_inner, finish, keeps_channel, close, ready,
  interrupted, blocked, read_failed, started, body_budget_ms, overwrite, blocked_answer,
}

-- The longest data that a header can ask for.
abbrev pub data_limit : ℕ
data_limit = 32 + video_max_size

-- The reads that a frame can still take: one for each byte that is missing of it.
abbrev pub missing : Partial → Option FrameHeader → ℕ
missing p none = (header_size - p.fixed_len) + data_limit
missing p (some h) = h.data_length - p.body_len

abbrev pub missing_of : Channel → ℕ
missing_of c = missing c.partial c.partial.header

-- The events that are reads of the socket, a closed one included.
abbrev pub reads : List Event → ℕ
reads [] = 0
reads (ready n now header_ns complete_ns ∷ es) = suc (reads es)
reads (interrupted ∷ es) = reads es
reads (blocked now left_now poll ∷ es) = reads es
reads (read_failed code ∷ es) = reads es

-- A round answers, or misses less than before.
abbrev Advances : ℕ → Round → Type 0
Advances n (c, none) = missing_of c < n
Advances n (c, some a) = Unit {0}

Advances-if :
    (n : ℕ) (b : Bool) (x y : Round) → Advances n x → Advances n y → Advances n (if b then x else y)
Advances-if n true x y hx hy = hx
Advances-if n false x y hx hy = hy

data_length-le :
    (b : Bytes) (h : FrameHeader) → parse_frame_header b ≡ ok h → h.data_length ≤ data_limit
data_length-le b h e = limit h.frame_type h.data_length (parse_frame_header-IsFramed b e).bounded
  where
    limit : (kind : FrameType) (n : ℕ) → n ≤ extension kind + maximum kind → n ≤ data_limit
    limit metadata n k = omega arith
    limit video n k = omega arith
    limit audio n k = omega arith

when_full-Advances :
    (n : ℕ) (c : Channel) (h : FrameHeader) (complete_ns : ℕ)
    → c.partial.header ≡ some h
    → h.data_length - c.partial.body_len < n
    → Advances n (when_full c h complete_ns)
unfolding when_full
when_full-Advances n c h complete_ns e k = elim (Bool-cases (c.partial.body_len == h.data_length)) [
  | inl full ↦ rw (full, when_full) tt
  | inr more ↦ rw (more, when_full) (rw e k)
]

module _ (grants : ℕ → Option ℕ) where
  on_header-Advances :
      (n : ℕ) (c : Channel) (complete_ns : ℕ) (r : Result ProtoError FrameHeader)
      → parse_frame_header c.partial.fixed ≡ r
      → data_limit < n
      → Advances n (on_header grants c complete_ns r)
  unfolding on_header
  on_header-Advances n c complete_ns (err e) p k = tt
  on_header-Advances n c complete_ns (ok h) p k =
      elim (Option-cases (make_room grants c.frame h.data_length)) [
        | inl refused ↦ rw (refused, on_header) tt
        | inr (f, made) ↦
            rw (made, on_header)
              (when_full-Advances n
                (record c { frame = f; partial = record c.partial { header = some h } }) h
                complete_ns refl (omega (arith, data_length-le c.partial.fixed h p)))
      ]

  on_fixed-Advances :
      (n : ℕ) (c : Channel) (chunk : Bytes) (header_ns complete_ns : ℕ)
      → c.partial.header ≡ none
      → 0 < length chunk
      → c.partial.fixed_len < header_size
      → (header_size - c.partial.fixed_len) + data_limit ≡ n
      → Advances n (on_fixed grants c chunk header_ns complete_ns)
  unfolding on_fixed
  on_fixed-Advances n c chunk header_ns complete_ns e k less m =
      elim (Bool-cases (ltb (c.partial.fixed_len + length chunk) header_size)) [
        | inl more ↦ rw (more, on_fixed) (rw e (omega arith))
        | inr full ↦
            rw (full, on_fixed)
              (on_header-Advances n
                (record c {
                  partial = record c.partial {
                    fixed = overwrite c.partial.fixed_len chunk c.partial.fixed;
                    fixed_len = c.partial.fixed_len + length chunk;
                    header_ns = header_ns;
                  };
                })
                complete_ns _ refl (omega arith))
      ]

  on_body-Advances :
      (n : ℕ) (c : Channel) (h : FrameHeader) (chunk : Bytes) (complete_ns : ℕ)
      → c.partial.header ≡ some h
      → 0 < length chunk
      → length chunk ≤ h.data_length - c.partial.body_len
      → h.data_length - c.partial.body_len ≡ n
      → Advances n (on_body grants c h chunk complete_ns)
  unfolding on_body
  on_body-Advances n c h chunk complete_ns e k fits m =
      when_full-Advances n
        (record c {
          frame = record c.frame {
            buffer = record c.frame.buffer {
              contents = overwrite c.partial.body_len chunk c.frame.buffer.contents;
            };
          };
          partial = record c.partial { body_len = c.partial.body_len + length chunk };
        })
        h complete_ns e (omega arith)

  abbrev with_budget : Channel → ℕ → Channel
  with_budget c now = record c {
    partial = record c.partial {
      budget_ms = if started c.partial then c.partial.budget_ms else now + body_budget_ms;
    };
  }

  on_read-Advances :
      (c : Channel) (o : Option FrameHeader) (chunk : Bytes) (now header_ns complete_ns : ℕ)
      → c.partial.header ≡ o
      → length chunk ≤ room c.partial
      → Advances (missing_of c) (on_read grants c chunk now header_ns complete_ns)
  unfolding on_read room
  on_read-Advances c o [] now header_ns complete_ns e k = tt
  on_read-Advances c none (b ∷ bs) now header_ns complete_ns e k =
      rw (e, on_read)
        (on_fixed-Advances ((header_size - c.partial.fixed_len) + data_limit) (with_budget c now)
          (b ∷ bs) header_ns complete_ns e (omega arith) (let k' = rw (e, room) at k in omega arith)
          refl)
  on_read-Advances c (some h) (b ∷ bs) now header_ns complete_ns e k =
      rw (e, on_read)
        (on_body-Advances (h.data_length - c.partial.body_len) (with_budget c now) h (b ∷ bs)
          complete_ns e (omega arith) (let k' = rw (e, room) at k in omega arith) refl)

  step-Advances :
      (deadline_ms : ℕ) (wait : Bool) (c : Channel) (n now header_ns complete_ns : ℕ)
      → Advances (missing_of c) (step grants deadline_ms wait c (ready n now header_ns complete_ns))
  unfolding step
  step-Advances deadline_ms wait c n now header_ns complete_ns =
      let size = min n (room c.partial) in
      on_read-Advances (record c { incoming = drop size c.incoming }) c.partial.header
        (take size c.incoming) now header_ns complete_ns refl
        (omega (arith, length-take (min n (room c.partial)) c.incoming))

  -- A call that has returned.
  abbrev Returns : Channel × Option Answer → Type 0
  Returns (c, none) = ⊥
  Returns (c, some a) = Unit {0}

  -- The rest of the loop behind a round.
  after_step : ℕ → Bool → List Event → Round → Channel × Option Answer
  after_step deadline_ms wait es (c, none) = receive_loop grants deadline_ms wait c es
  after_step deadline_ms wait es (c, some a) = (c, some a)

  after_step_lem :
      (deadline_ms : ℕ) (wait : Bool) (es : List Event) (r : Round)
      → ◌≡◌ {A = Channel × Option Answer}
          (elim r.1 [ none ↦ receive_loop grants deadline_ms wait r.0 es | some a ↦ (r.0, some a) ])
          (after_step deadline_ms wait es r)
  unfolding after_step
  after_step_lem deadline_ms wait es (c, none) = refl
  after_step_lem deadline_ms wait es (c, some a) = refl

  receive_loop-after_step :
      (deadline_ms : ℕ) (wait : Bool) (c : Channel) (e : Event) (es : List Event)
      → receive_loop grants deadline_ms wait c (e ∷ es)
        ≡ after_step deadline_ms wait es (step grants deadline_ms wait c e)
  unfolding receive_loop
  receive_loop-after_step deadline_ms wait c e es =
      after_step_lem deadline_ms wait es (step grants deadline_ms wait c e)

  after_step-Returns :
      (deadline_ms : ℕ) (wait : Bool) (n : ℕ) (es : List Event) (r : Round)
      → Advances n r
      → n ≤ reads es
      → ((c : Channel)
          → missing_of c < reads es
          → Returns (receive_loop grants deadline_ms wait c es))
      → Returns (after_step deadline_ms wait es r)
  unfolding after_step
  after_step-Returns deadline_ms wait n es (c, none) less k next = next c (omega arith)
  after_step-Returns deadline_ms wait n es (c, some a) less k next = tt

  stays-Returns :
      (deadline_ms : ℕ) (wait : Bool) (c : Channel) (es : List Event) (a : Option Answer)
      → Returns (receive_loop grants deadline_ms wait c es)
      → Returns (after_step deadline_ms wait es (c, a))
  unfolding after_step
  stays-Returns deadline_ms wait c es none next = next
  stays-Returns deadline_ms wait c es (some a) next = tt

  by_event :
      (deadline_ms : ℕ) (wait : Bool) (c : Channel) (e : Event) (es : List Event)
      → missing_of c < reads (e ∷ es)
      → ((d : Channel)
          → missing_of d < reads es
          → Returns (receive_loop grants deadline_ms wait d es))
      → Returns (after_step deadline_ms wait es (step grants deadline_ms wait c e))
  unfolding step after_step
  by_event deadline_ms wait c (ready n now header_ns complete_ns) es k next =
      after_step-Returns deadline_ms wait (missing_of c) es
        (step grants deadline_ms wait c (ready n now header_ns complete_ns))
        (step-Advances deadline_ms wait c n now header_ns complete_ns) (omega arith) next
  by_event deadline_ms wait c interrupted es k next = next c k
  by_event deadline_ms wait c (blocked now left_now poll) es k next =
      stays-Returns deadline_ms wait c es
        (blocked_answer c.partial deadline_ms wait now left_now poll) (next c k)
  by_event deadline_ms wait c (read_failed code) es k next = tt

  receive_loop-Returns :
      (deadline_ms : ℕ) (wait : Bool) (c : Channel) (es : List Event)
      → missing_of c < reads es
      → Returns (receive_loop grants deadline_ms wait c es)
  receive_loop-Returns deadline_ms wait c [] k = absurd (omega arith)
  receive_loop-Returns deadline_ms wait c (e ∷ es) k =
      subst Returns (sym (receive_loop-after_step deadline_ms wait c e es))
        (by_event deadline_ms wait c e es k (λ d. receive_loop-Returns deadline_ms wait d es))

  Returns-ne : (r : Channel × Option Answer) → Returns r → r.1 ≢ none
  Returns-ne (c, none) h = absurd h
  Returns-ne (c, some a) h = λ e. cc

  finished-Returns :
      (r : Channel × Option Answer)
      → Returns r
      → Returns (elim r.1 [
        | none ↦ (r.0, none)
        | some a ↦ if keeps_channel a then (r.0, some a) else (close r.0, some a)
      ])
  finished-Returns (c, none) h = absurd h
  finished-Returns (c, some a) h = elim (Bool-cases (keeps_channel a)) [
    | inl e ↦ rw e tt
    | inr e ↦ rw e tt
  ]

  Returns-if :
      (b : Bool) (x y : Channel × Option Answer)
      → Returns x
      → Returns y
      → Returns (if b then x else y)
  Returns-if true x y hx hy = hx
  Returns-if false x y hx hy = hy

  receive_inner-Returns :
      (deadline_ms : ℕ) (wait : Bool) (c : Channel) (es : List Event)
      → missing_of c < reads es
      → Returns (receive_inner grants deadline_ms wait c es)
  unfolding receive_inner
  receive_inner-Returns deadline_ms wait c es k =
      Returns-if c.connected (receive_loop grants deadline_ms wait c es) _
        (receive_loop-Returns deadline_ms wait c es k) tt

  finish-Returns :
      (deadline_ms : ℕ) (wait : Bool) (c : Channel) (es : List Event)
      → missing_of c < reads es
      → Returns (finish grants deadline_ms wait c es)
  unfolding finish
  finish-Returns deadline_ms wait c es k =
      finished-Returns (receive_inner grants deadline_ms wait c es)
        (receive_inner-Returns deadline_ms wait c es k)

  -- A call that is to finish a frame does not wait for ever: when the events that it is given hold
  -- more reads of the socket than bytes are missing of the frame, which are those of its body, or
  -- before a header is known those of the header and of the longest body, it returns, with a frame,
  -- an error or the deadline.
  pub finish-answers :
      (deadline_ms : ℕ) (wait : Bool) (c : Channel) (es : List Event)
      → missing_of c < reads es
      → (finish grants deadline_ms wait c es).1 ≢ none
  finish-answers deadline_ms wait c es k =
      Returns-ne (finish grants deadline_ms wait c es) (finish-Returns deadline_ms wait c es k)
