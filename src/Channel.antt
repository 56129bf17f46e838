-- ===== src/Channel.antt =====
-- The receiver's network entry point, crates/omt-receiver/src/channel.rs: a frame is read in whatever
-- pieces the socket holds, and a partial frame survives a deadline.
-- What the loop asks of its surroundings comes as a list of events, one for each `stream.read`, with
-- the clock values and the answer of `poll` that the round goes on to ask for. `incoming` is what the
-- peer has sent and the loop has not read.
pub mod Buffers
pub mod Steps
pub mod Reassembly
pub mod Progress
mod Tests
use rpi_omt_client.Prelude.{
  ℕ, zero, suc, ◌+◌, ◌-◌, ◌*◌, min, max, Bool, true, false, not, ◌&&◌, ◌||◌, Option, none, some,
  List, [], ◌∷◌, ◌++◌, String, ltb, leb, ◌==◌, if◌then◌else◌, length, take, drop, replicate, Bytes,
  Result, ok, err,
}
use rpi_omt_client.Protocol.{
  FrameType, FrameHeader, VideoHeader, AudioHeader, ProtoError, metadata, video, audio, header_size,
  parse_frame_header, parse_video_header, parse_audio_header,
}
use rpi_omt_client.Frame.{Frame, Buffer, no_frame}

abbrev pub body_budget_ms : ℕ
body_budget_ms = 6000

pub data Recv : Type 0 where
  received would_block timed_out failed : Recv

-- The explanation beside a result that is not OK.
pub data Reason : Type 0 where
  text : String → Reason
  proto : ProtoError → Reason
  os : ℕ → Reason

pub record Partial : Type 0 where
  pub fixed : Bytes
  pub fixed_len : ℕ
  pub header : Option FrameHeader
  pub header_ns : ℕ
  pub body_len : ℕ
  pub budget_ms : ℕ

abbrev pub no_partial : Partial
no_partial = record {
  fixed = replicate header_size 0;
  fixed_len = 0;
  header = none;
  header_ns = 0;
  body_len = 0;
  budget_ms = 0;
}

abbrev pub started : Partial → Bool
started p = ltb 0 p.fixed_len

pub record Channel : Type 0 where
  pub connected : Bool
  pub frame : Frame
  pub partial : Partial
  pub incoming : Bytes

-- `poll_fds`: no descriptor ready, at the clock value that is asked next; ready; or an error.
pub data Poll : Type 0 where
  nothing : ℕ → Poll
  woken : Poll
  poll_failed : ℕ → Poll

pub data Event : Type 0 where
  -- at most `n` bytes are there; `now_ms`, and `monotonic_ns` for the header and the last byte
  ready : (n now header_ns complete_ns : ℕ) → Event
  interrupted : Event
  -- `now_ms` for the budget and for what is left, and the poll
  blocked : (now left_now : ℕ) → Poll → Event
  read_failed : ℕ → Event

abbrev pub Answer : Type 0
Answer = Recv × Option Reason

abbrev refuse : Reason → Answer
refuse r = (failed, some r)

-- `target[..n].copy_from_slice(chunk)` at an offset
pub overwrite : ℕ → Bytes → Bytes → Bytes
overwrite at chunk xs = take at xs ++ (chunk ++ drop (at + length chunk) xs)

-- `Vec::resize` to a length that is not below
abbrev pub grown : Bytes → ℕ → Bytes
grown xs n = xs ++ replicate (n - length xs) 0

-- Validates a fully read frame's extended header and publishes it. The frame has no header until it
-- has validated.
abbrev pub published : Frame → FrameHeader → ℕ → ℕ → Frame
published f header header_ns complete_ns = record f {
  len = header.data_length;
  header_ns = header_ns;
  complete_ns = complete_ns;
  video = none;
  audio = none;
  header = none;
}

pub complete_video : Frame → FrameHeader → Result ProtoError VideoHeader → Frame × Answer
complete_video f header (ok v) =
    (record f { video = some v; header = some header }, (received, none))
complete_video f header (err e) = (f, refuse (proto e))

pub complete_audio : Frame → FrameHeader → Result ProtoError AudioHeader → Frame × Answer
complete_audio f header (ok a) =
    (record f { audio = some a; header = some header }, (received, none))
complete_audio f header (err e) = (f, refuse (proto e))

pub complete_as : FrameType → Frame → FrameHeader → Bytes → Frame × Answer
complete_as metadata g header bytes = (record g { header = some header }, (received, none))
complete_as video g header bytes = complete_video g header (parse_video_header header bytes)
complete_as audio g header bytes = complete_audio g header (parse_audio_header header bytes)

pub complete : Frame → FrameHeader → ℕ → ℕ → Frame × Answer
complete f header header_ns complete_ns =
    complete_as header.frame_type (published f header header_ns complete_ns) header
      (take header.data_length f.buffer.contents)

-- The bytes that this read asks for.
pub room : Partial → ℕ
room p = elim p.header [ none ↦ header_size - p.fixed_len | some h ↦ h.data_length - p.body_len ]

-- A round goes on, or the call returns.
abbrev pub Round : Type 0
Round = Channel × Option Answer

pub when_full : Channel → FrameHeader → ℕ → Round
when_full c h complete_ns =
    if c.partial.body_len == h.data_length
    then (let (f, answer) = complete c.frame h c.partial.header_ns complete_ns in
        (record c { frame = f; partial = no_partial }, some answer))
    else (c, none)

pub close : Channel → Channel
close c = record c { partial = no_partial; connected = false }

abbrev pub keeps_channel : Answer → Bool
keeps_channel (received, _) = true
keeps_channel (would_block, _) = true
keeps_channel _ = false

-- `ErrorKind::WouldBlock`: the call returns, or waits for the next event.
pub blocked_answer : Partial → ℕ → Bool → ℕ → ℕ → Poll → Option Answer
blocked_answer p deadline_ms wait now left_now poll =
    let until = if started p && wait then max deadline_ms p.budget_ms else deadline_ms in
    if started p && leb p.budget_ms now
    then some (timed_out, some (text "OMT frame was truncated by a timeout"))
    else if leb until left_now
    then some (would_block, some (text "OMT socket deadline expired"))
    else elim poll [
      | nothing later ↦
          if ltb later until then some (would_block, some (text "OMT read interrupted")) else none
      | woken ↦ none
      | poll_failed code ↦ some (refuse (os code))
    ]

module _ (grants : ℕ → Option ℕ) where
  -- `grants n` is the capacity after `try_reserve_exact` up to `n` bytes, or the allocator's refusal.
  pub make_room : Frame → ℕ → Option Frame
  make_room f required =
      if ltb (length f.buffer.contents) required
      then elim (grants required) [
        | none ↦ none
        | some capacity ↦ some (record f {
          buffer = record { contents = grown f.buffer.contents required; capacity = capacity };
        })
      ]
      else some f

  pub on_header : Channel → ℕ → Result ProtoError FrameHeader → Round
  on_header c complete_ns (err e) = (c, some (refuse (proto e)))
  on_header c complete_ns (ok h) = elim (make_room c.frame h.data_length) [
    | none ↦ (c, some (refuse (text "unable to allocate the bounded OMT frame")))
    | some f ↦
        when_full (record c { frame = f; partial = record c.partial { header = some h } }) h
          complete_ns
  ]

  pub on_fixed : Channel → Bytes → ℕ → ℕ → Round
  on_fixed c chunk header_ns complete_ns =
      let p = c.partial in
      let p' = record p {
        fixed = overwrite p.fixed_len chunk p.fixed;
        fixed_len = p.fixed_len + length chunk;
      } in
      if ltb p'.fixed_len header_size
      then (record c { partial = p' }, none)
      else on_header (record c { partial = record p' { header_ns = header_ns } }) complete_ns
          (parse_frame_header p'.fixed)

  pub on_body : Channel → FrameHeader → Bytes → ℕ → Round
  on_body c h chunk complete_ns =
      let f = c.frame in
      let p = c.partial in
      when_full
        (record c {
          frame = record f {
            buffer = record f.buffer { contents = overwrite p.body_len chunk f.buffer.contents };
          };
          partial = record p { body_len = p.body_len + length chunk };
        })
        h complete_ns

  -- A read of `chunk`, which is empty when the peer has closed the connection.
  pub on_read : Channel → Bytes → ℕ → ℕ → ℕ → Round
  on_read c [] now header_ns complete_ns = (c, some (refuse (text "OMT source disconnected")))
  on_read c (b ∷ bs) now header_ns complete_ns =
      let p = c.partial in
      let budget = if started p then p.budget_ms else now + body_budget_ms in
      let c' = record c { partial = record p { budget_ms = budget } } in
      elim p.header [
        | none ↦ on_fixed c' (b ∷ bs) header_ns complete_ns
        | some h ↦ on_body c' h (b ∷ bs) complete_ns
      ]

  pub step : ℕ → Bool → Channel → Event → Round
  step deadline_ms wait c (ready n now header_ns complete_ns) =
      let size = min n (room c.partial) in
      on_read (record c { incoming = drop size c.incoming }) (take size c.incoming) now header_ns
        complete_ns
  step deadline_ms wait c interrupted = (c, none)
  step deadline_ms wait c (blocked now left_now poll) =
      (c, blocked_answer c.partial deadline_ms wait now left_now poll)
  step deadline_ms wait c (read_failed code) = (c, some (refuse (os code)))

  -- The loop; with no answer it is still waiting for its next event.
  pub receive_loop : ℕ → Bool → Channel → List Event → Channel × Option Answer
  receive_loop deadline_ms wait c [] = (c, none)
  receive_loop deadline_ms wait c (e ∷ es) =
      let (c', answer) = step deadline_ms wait c e in
      elim answer [ none ↦ receive_loop deadline_ms wait c' es | some a ↦ (c', some a) ]

  pub receive_inner : ℕ → Bool → Channel → List Event → Channel × Option Answer
  receive_inner deadline_ms wait c events =
      if c.connected
      then receive_loop deadline_ms wait c events
      else (c, some (refuse (text "OMT socket closed")))

  -- `finish`, behind `receive`, `receive_until` and `receive_ready`
  pub finish : ℕ → Bool → Channel → List Event → Channel × Option Answer
  finish deadline_ms wait c events =
      let (c', answer) = receive_inner deadline_ms wait c events in
      elim answer [
        | none ↦ (c', none)
        | some a ↦ if keeps_channel a then (c', some a) else (close c', some a)
      ]
