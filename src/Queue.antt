-- ===== src/Queue.antt =====
-- The handoff from the socket to the display and the audio device, crates/omt-receiver/src/handoff.rs.
-- Two things are parameters: `nanoseconds samples rate` is the rounded quotient that the code takes in
-- floating point, and `grants n` says whether the allocator has room for one more than `n` frames.
pub mod Invariant
pub mod Dropping
pub mod Needed
pub mod Order
pub mod Limits
mod Tests
use rpi_omt_client.Prelude.{
  ℕ, zero, suc, ◌+◌, ◌-◌, ◌*◌, Bool, true, false, not, ◌&&◌, ◌||◌, Option, none, some, List, [],
  ◌∷◌, ◌++◌, ltb, if◌then◌else◌, length, ℤ, int_positive,
}
use rpi_omt_client.Protocol.{FrameType, FrameHeader, AudioHeader, is_video, is_audio}
use rpi_omt_client.Frame
use rpi_omt_client.Frame.{Frame, Buffer, empty_buffer}

abbrev pub audio_backlog_ns : ℕ
audio_backlog_ns = 100000000

abbrev pub spare_buffers : ℕ
spare_buffers = 4

pub data QueueKind : Type 0 where
  video audio : QueueKind

-- The frames, oldest first; the spares, last recycled first. `bytes` counts what is queued.
pub record Queue : Type 0 where
  pub frames : List Frame
  pub bytes : ℕ
  pub byte_cap : ℕ
  pub interval_ns : Option ℕ
  pub kind : QueueKind
  pub spares : List Buffer

abbrev pub new : QueueKind → ℕ → Queue
new kind byte_cap = record {
  frames = [];
  bytes = 0;
  byte_cap = byte_cap;
  interval_ns = none;
  kind = kind;
  spares = [];
}

first_spare : List Buffer → Queue → Buffer × Queue
first_spare [] q = (empty_buffer, q)
first_spare (b ∷ bs) q = (b, record q { spares = bs })

pub take_spare : Queue → Buffer × Queue
unfolding first_spare
take_spare q = first_spare q.spares q

pub recycle : Queue → Buffer → Queue
recycle q buffer =
    if ltb 0 buffer.capacity && ltb (length q.spares) spare_buffers
    then record q { spares = buffer ∷ q.spares }
    else q

pop_front : List Frame → Queue → Option (Frame × Queue)
pop_front [] q = none
pop_front (f ∷ fs) q = some (f, record q { frames = fs; bytes = q.bytes - f.len })

drop_front : List Frame → Queue → Queue
drop_front [] q = q
drop_front (f ∷ fs) q = recycle (record q { frames = fs; bytes = q.bytes - f.len }) f.buffer

pub drop_oldest : Queue → Queue
unfolding drop_front
drop_oldest q = drop_front q.frames q

pub pop : Queue → Option (Frame × Queue)
unfolding pop_front
pop q = pop_front q.frames q

-- `while test { self.drop_oldest(); dropped += 1; }`, for a test that is false on an empty queue:
-- as many rounds as there are frames are enough.
pub drop_while : (Queue → Bool) → ℕ → Queue → ℕ → Queue × ℕ
drop_while test zero q dropped = (q, dropped)
drop_while test (suc rounds) q dropped = elim (test q) [
  | true ↦ drop_while test rounds (drop_oldest q) (dropped + 1)
  | false ↦ (q, dropped)
]

abbrev pub is_some {ℓ} : {A : Type ℓ} → Option A → Bool
is_some none = false
is_some (some a) = true

abbrev has_type : (FrameType → Bool) → Frame → Bool
has_type is_type f = elim (Frame.frame_type f) [ none ↦ false | some t ↦ is_type t ]

pub is_wanted : QueueKind → Frame → Bool
is_wanted video f = is_some f.video && has_type is_video f
is_wanted audio f = is_some f.audio && has_type is_audio f

abbrev pub not_empty : Queue → Bool
not_empty q = ltb 0 (length q.frames)

pub audio_backlog_exceeded : Queue → Bool
audio_backlog_exceeded q = elim q.interval_ns [
  | none ↦ false
  | some interval ↦ ltb 1 (length q.frames) && ltb audio_backlog_ns (interval * length q.frames)
]

pub over_limit : Queue → Bool
unfolding audio_backlog_exceeded
over_limit q = ltb 1 (length q.frames) && (ltb q.byte_cap q.bytes || audio_backlog_exceeded q)

module _ (nanoseconds : ℤ → ℤ → ℕ) (grants : ℕ → Bool) where
  -- The tests on the quotient itself pass for any two positive `i32`s.
  pub audio_interval_ns : AudioHeader → Option ℕ
  audio_interval_ns h =
      if not (int_positive h.samples_per_channel) || not (int_positive h.sample_rate)
      then none
      else some (nanoseconds h.samples_per_channel h.sample_rate)

  -- What a frame does to the queue before it is stored: a video queue is a single slot, and an audio
  -- queue takes over the newest interval.
  pub make_way : QueueKind → Queue → Frame → Queue × ℕ
  unfolding audio_interval_ns
  make_way video q f = drop_while not_empty (length q.frames) q 0
  make_way audio q f = elim f.audio [
    | none ↦ (q, 0)
    | some h ↦ elim (audio_interval_ns h) [
      | none ↦ (q, 0)
      | some interval ↦ (record q { interval_ns = some interval }, 0)
    ]
  ]

  pub store : Queue → Frame → ℕ → Queue × ℕ
  unfolding over_limit
  store q f dropped =
      if grants (length q.frames)
      then (let stored = record q { bytes = q.bytes + f.len; frames = q.frames ++ (f ∷ []) } in
          drop_while over_limit (length stored.frames) stored dropped)
      else (recycle q f.buffer, dropped)

  pub push : Queue → Frame → Queue × ℕ
  push q f =
      if not (is_wanted q.kind f) || ltb q.byte_cap f.len
      then (recycle q f.buffer, 0)
      else let (q', dropped) = make_way q.kind q f in store q' f dropped
