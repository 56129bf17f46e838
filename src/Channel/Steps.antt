-- ===== src/Channel/Steps.antt =====
-- Reassembly: whatever pieces the socket hands over, and whatever deadlines pass in between, the bytes
-- of a frame are kept in order, and a received frame is exactly the next bytes of the stream.
use rpi_omt_client.Prelude.{
  ℕ, ◌≤◌, ◌<◌, ◌≡◌, refl, ap, ◌∙◌, sym, subst, append-nil, ==_iff, [], ◌++◌, Bool, true, false,
  Option, none, some, Result, ok, err, if◌then◌else◌, arith, length, length-take, take, Bytes, ◌==◌,
  Bool-cases, inl, inr, Option-cases,
}
use rpi_omt_client.Protocol.{
  FrameHeader, VideoHeader, AudioHeader, ProtoError, FrameType, metadata, video, audio, header_size,
  parse_frame_header, parse_video_header, parse_audio_header,
}
use rpi_omt_client.Frame.{Frame, payload}
use rpi_omt_client.Channel.{
  Channel, Partial, received, would_block, timed_out, failed, Answer, Round, complete,
  complete_video, complete_audio, complete_as, when_full, make_room, on_header, no_partial,
}
use rpi_omt_client.Channel.Buffers.{length-grown}

-- The bytes of the current frame that have been read: `sofar`, with the header still open, or closed.
pub record ReadsHeader (sofar : Bytes) (p : Partial) : Type 0 where
  pub count : p.fixed_len ≡ length sofar
  pub short : p.fixed_len < header_size
  pub wide : length p.fixed ≡ header_size
  pub kept : take p.fixed_len p.fixed ≡ sofar
  pub no_body : p.body_len ≡ 0

pub record ReadsBody (sofar : Bytes) (h : FrameHeader) (p : Partial) (f : Frame) : Type 0 where
  pub wide : length p.fixed ≡ header_size
  pub parsed : parse_frame_header p.fixed ≡ ok h
  pub held : h.data_length ≤ length f.buffer.contents
  pub short : p.body_len ≤ h.data_length
  pub kept : sofar ≡ p.fixed ++ take p.body_len f.buffer.contents

abbrev pub Phase : Bytes → Option FrameHeader → Partial → Frame → Type 0
Phase sofar none p f = ReadsHeader sofar p
Phase sofar (some h) p f = ReadsBody sofar h p f

abbrev pub Reading : Bytes → Channel → Type 0
Reading sofar c = Phase sofar c.partial.header c.partial c.frame

-- `wire` is one whole frame, which `f` holds.
pub record IsFrameOf (wire : Bytes) (f : Frame) : Type 0 where
  pub fixed : Bytes
  pub body : Bytes
  pub header : FrameHeader
  pub splits : wire ≡ fixed ++ body
  pub fixed_length : length fixed ≡ header_size
  pub parsed : parse_frame_header fixed ≡ ok header
  pub body_length : length body ≡ header.data_length
  pub header_is : f.header ≡ some header
  pub payload_is : payload f ≡ body

-- What a round may leave: a part of a frame, or a whole one and a clean start, or a failure.
abbrev pub Good : Bytes → Round → Type 0
Good sofar (c, none) = Reading sofar c
Good sofar (c, some (received, _)) = IsFrameOf sofar c.frame × Reading [] c
Good sofar (c, some (would_block, _)) = Reading sofar c
Good sofar (c, some _) = Unit {0}

pub Good-if :
    (sofar : Bytes) (b : Bool) (x y : Round)
    → Good sofar x
    → Good sofar y
    → Good sofar (if b then x else y)
Good-if sofar true x y gx gy = gx
Good-if sofar false x y gx gy = gy

Reading-no_partial : ReadsHeader [] no_partial
Reading-no_partial = record {
  count = refl;
  short = omega arith;
  wide = refl;
  kept = refl;
  no_body = refl;
}

-- The frame that `complete` leaves holds `wire`, if it is received.
abbrev Completes : Bytes → Frame × Answer → Type 0
Completes wire (f, (received, _)) = IsFrameOf wire f
Completes wire (f, (failed, _)) = Unit {0}
Completes wire (f, _) = ⊥

module _ (wire : Bytes) (h : FrameHeader) (p : Partial) (f : Frame) where
  abbrev Published : Frame → Type 0
  Published g = (g.buffer ≡ f.buffer) × (g.len ≡ h.data_length)

  IsFrameOf-Published :
      (g : Frame)
      → ReadsBody wire h p f
      → p.body_len ≡ h.data_length
      → Published g
      → g.header ≡ some h
      → IsFrameOf wire g
  IsFrameOf-Published g v full same e = record {
    fixed = p.fixed;
    body = take h.data_length f.buffer.contents;
    header = h;
    splits = rw (← full) v.kept;
    fixed_length = v.wide;
    parsed = v.parsed;
    body_length = omega (arith, v.held, length-take h.data_length f.buffer.contents);
    header_is = e;
    payload_is = cc (same.0, same.1);
  }

  complete_video-Completes :
      (g : Frame) (r : Result ProtoError VideoHeader)
      → ReadsBody wire h p f
      → p.body_len ≡ h.data_length
      → Published g
      → Completes wire (complete_video g h r)
  unfolding complete_video
  complete_video-Completes g (ok v) body full same =
      IsFrameOf-Published (record g { video = some v; header = some h }) body full same refl
  complete_video-Completes g (err e) body full same = tt

  complete_audio-Completes :
      (g : Frame) (r : Result ProtoError AudioHeader)
      → ReadsBody wire h p f
      → p.body_len ≡ h.data_length
      → Published g
      → Completes wire (complete_audio g h r)
  unfolding complete_audio
  complete_audio-Completes g (ok v) body full same =
      IsFrameOf-Published (record g { audio = some v; header = some h }) body full same refl
  complete_audio-Completes g (err e) body full same = tt

  complete_as-Completes :
      (kind : FrameType) (g : Frame) (bytes : Bytes)
      → ReadsBody wire h p f
      → p.body_len ≡ h.data_length
      → Published g
      → Completes wire (complete_as kind g h bytes)
  unfolding complete_as
  complete_as-Completes metadata g bytes body full same =
      IsFrameOf-Published (record g { header = some h }) body full same refl
  complete_as-Completes video g bytes body full same =
      complete_video-Completes g (parse_video_header h bytes) body full same
  complete_as-Completes audio g bytes body full same =
      complete_audio-Completes g (parse_audio_header h bytes) body full same

Good-Completes :
    (wire : Bytes) (c : Channel) (r : Frame × Answer)
    → Completes wire r
    → Good wire (record c { frame = r.0; partial = no_partial }, some r.1)
Good-Completes wire c (f, (received, _)) h = (h, Reading-no_partial)
Good-Completes wire c (f, (failed, _)) h = tt
Good-Completes wire c (f, (would_block, _)) h = absurd h
Good-Completes wire c (f, (timed_out, _)) h = absurd h

-- A body that has been read as far as its frame reaches is a frame; one that has not stays.
pub when_full-Good :
    (wire : Bytes) (c : Channel) (h : FrameHeader) (complete_ns : ℕ)
    → c.partial.header ≡ some h
    → ReadsBody wire h c.partial c.frame
    → Good wire (when_full c h complete_ns)
unfolding when_full
when_full-Good wire c h complete_ns e v = elim (Bool-cases (c.partial.body_len == h.data_length)) [
  | inl full ↦
      rw (full, when_full)
        (Good-Completes wire c _ (
          unfold complete in
          complete_as-Completes wire h c.partial c.frame h.frame_type _ _ v ((==_iff _ _).0 full)
            (refl, refl)))
  | inr more ↦ rw (more, when_full) (subst (λ o. Phase wire o c.partial c.frame) (sym e) v)
]

module _ (grants : ℕ → Option ℕ) where
  make_room_holds :
      (f g : Frame) (n : ℕ) → make_room grants f n ≡ some g → n ≤ length g.buffer.contents
  unfolding make_room
  make_room_holds f g n e = ground (arith, length-grown f.buffer.contents n)

  pub on_header-Good :
      (wire : Bytes) (c : Channel) (complete_ns : ℕ) (r : Result ProtoError FrameHeader)
      → length c.partial.fixed ≡ header_size
      → c.partial.body_len ≡ 0
      → c.partial.fixed ≡ wire
      → parse_frame_header c.partial.fixed ≡ r
      → Good wire (on_header grants c complete_ns r)
  unfolding on_header
  on_header-Good wire c complete_ns (err e) wide no_body same parsed = tt
  on_header-Good wire c complete_ns (ok h) wide no_body same parsed =
      elim (Option-cases (make_room grants c.frame h.data_length)) [
        | inl refused ↦ rw (refused, on_header) tt
        | inr (f, made) ↦
            rw (made, on_header)
              (when_full-Good wire
                (record c { frame = f; partial = record c.partial { header = some h } }) h
                complete_ns refl
                (record {
                  wide = wide;
                  parsed = parsed;
                  held = make_room_holds c.frame f h.data_length made;
                  short = omega arith;
                  kept =
                      sym same
                      ∙ sym (
                          ap (λ n. c.partial.fixed ++ take n f.buffer.contents) no_body
                          ∙ append-nil c.partial.fixed);
                }))
      ]
