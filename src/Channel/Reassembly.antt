-- ===== src/Channel/Reassembly.antt =====
-- The loop over any events: nothing is lost or read twice, and a received frame is exactly the next
-- bytes of the stream.
use rpi_omt_client.Prelude.{
  ℕ, ◌+◌, ◌-◌, ◌≤◌, ◌≡◌, refl, ap, ◌∙◌, sym, subst, [], ◌∷◌, ◌++◌, List, Bool, true, false, Option,
  none, some, Result, ok, err, arith, length, length-append, length-take, take, take_all, drop,
  Bytes, ltb, Bool-cases, inl, inr, append_assoc, take-append-drop, min, Option-cases,
}
use rpi_omt_client.Protocol.{FrameHeader, ProtoError, header_size, parse_frame_header}
use rpi_omt_client.Channel.{
  Channel, Partial, received, would_block, Event, Answer, Round, when_full, on_header, on_fixed,
  on_body, on_read, blocked_answer, timed_out, failed, make_room, step, room, receive_loop,
  overwrite, ready, interrupted, blocked, read_failed, Poll,
}
use rpi_omt_client.Channel.Buffers.{take-overwrite, length-overwrite}
use rpi_omt_client.Channel.Steps.{
  ReadsHeader, ReadsBody, Phase, Reading, Good, when_full-Good, on_header-Good,
}

abbrev receives : Option Answer → Bool
receives (some (received, _)) = true
receives _ = false

module _ (grants : ℕ → Option ℕ) where
  on_fixed-Good :
      (sofar chunk : Bytes) (c : Channel) (header_ns complete_ns : ℕ)
      → c.partial.header ≡ none
      → ReadsHeader sofar c.partial
      → length chunk ≤ header_size - c.partial.fixed_len
      → Good (sofar ++ chunk) (on_fixed grants c chunk header_ns complete_ns)
  unfolding on_fixed
  on_fixed-Good sofar chunk c header_ns complete_ns e v fits =
      elim (Bool-cases (ltb (c.partial.fixed_len + length chunk) header_size)) [
        | inl more ↦
            rw (more, on_fixed)
              (subst (λ o. Phase (sofar ++ chunk) o p' c.frame) (sym e)
                (record {
                  count = omega (arith, v.count, length-append sofar chunk);
                  short = ground (arith, more);
                  wide = wide;
                  kept = kept;
                  no_body = v.no_body;
                }))
        | inr full ↦
            rw (full, on_fixed)
              (on_header-Good grants (sofar ++ chunk)
                (record c { partial = record p' { header_ns = header_ns } }) complete_ns
                (parse_frame_header p'.fixed) wide v.no_body
                (sym (take_all p'.fixed p'.fixed_len (ground (arith, full, wide))) ∙ kept) refl)
      ]
    where
      p' : Partial
      p' = record c.partial {
        fixed = overwrite c.partial.fixed_len chunk c.partial.fixed;
        fixed_len = c.partial.fixed_len + length chunk;
      }

      wide : length p'.fixed ≡ header_size
      wide =
          length-overwrite c.partial.fixed_len chunk c.partial.fixed
            (omega (arith, v.wide, v.short))
          ∙ v.wide

      kept : take p'.fixed_len p'.fixed ≡ sofar ++ chunk
      kept =
          take-overwrite c.partial.fixed_len chunk c.partial.fixed (omega (arith, v.wide, v.short))
          ∙ ap (λ t. t ++ chunk) v.kept

  on_body-Good :
      (sofar chunk : Bytes) (c : Channel) (h : FrameHeader) (complete_ns : ℕ)
      → c.partial.header ≡ some h
      → ReadsBody sofar h c.partial c.frame
      → length chunk ≤ h.data_length - c.partial.body_len
      → Good (sofar ++ chunk) (on_body grants c h chunk complete_ns)
  unfolding on_body
  on_body-Good sofar chunk c h complete_ns e v fits =
      when_full-Good (sofar ++ chunk) c' h complete_ns e (record {
        wide = v.wide;
        parsed = v.parsed;
        held = omega (arith, v.held, v.short, length-overwrite at chunk bytes inside);
        short = omega (arith, v.short);
        kept =
            ap (λ t. t ++ chunk) v.kept
            ∙ append_assoc c.partial.fixed (take at bytes) chunk
            ∙ ap (λ t. c.partial.fixed ++ t)
                (sym (take-overwrite at chunk bytes (omega (arith, v.held, v.short))));
      })
    where
      at : ℕ
      at = c.partial.body_len

      bytes : Bytes
      bytes = c.frame.buffer.contents

      inside : at + length chunk ≤ length bytes
      inside = omega (arith, v.held, v.short, fits)

      c' : Channel
      c' = record c {
        frame = record c.frame {
          buffer = record c.frame.buffer { contents = overwrite at chunk bytes };
        };
        partial = record c.partial { body_len = at + length chunk };
      }

  room_header : (p : Partial) → p.header ≡ none → room p ≡ header_size - p.fixed_len
  unfolding room
  room_header p e = ground (arith, e)

  room_body :
      (p : Partial) (h : FrameHeader) → p.header ≡ some h → room p ≡ h.data_length - p.body_len
  unfolding room
  room_body p h e = ground (arith, e)

  on_read-Good :
      (sofar chunk : Bytes) (c : Channel) (now header_ns complete_ns : ℕ) (o : Option FrameHeader)
      → c.partial.header ≡ o
      → Phase sofar o c.partial c.frame
      → length chunk ≤ room c.partial
      → Good (sofar ++ chunk) (on_read grants c chunk now header_ns complete_ns)
  unfolding on_read
  on_read-Good sofar [] c now header_ns complete_ns o e v fits = tt
  on_read-Good sofar (b ∷ bs) c now header_ns complete_ns none e v fits =
      rw (e, on_read)
        (on_fixed-Good sofar (b ∷ bs) _ header_ns complete_ns e
          (record {
            count = v.count;
            short = v.short;
            wide = v.wide;
            kept = v.kept;
            no_body = v.no_body;
          })
          (omega (arith, room_header c.partial e)))
  on_read-Good sofar (b ∷ bs) c now header_ns complete_ns (some h) e v fits =
      rw (e, on_read)
        (on_body-Good sofar (b ∷ bs) _ h complete_ns e
          (record {
            wide = v.wide;
            parsed = v.parsed;
            held = v.held;
            short = v.short;
            kept = v.kept;
          })
          (omega (arith, room_body c.partial h e)))

  Good-quiet :
      (sofar : Bytes) (c : Channel) (a : Option Answer)
      → receives a ≡ false
      → Reading sofar c
      → Good sofar (c, a)
  Good-quiet sofar c none h v = v
  Good-quiet sofar c (some (received, _)) h v = cc
  Good-quiet sofar c (some (would_block, _)) h v = v
  Good-quiet sofar c (some (timed_out, _)) h v = tt
  Good-quiet sofar c (some (failed, _)) h v = tt

  receives-blocked_answer :
      (p : Partial) (deadline_ms : ℕ) (wait : Bool) (now left_now : ℕ) (poll : Poll)
      → receives (blocked_answer p deadline_ms wait now left_now poll) ≡ false
  unfolding blocked_answer
  receives-blocked_answer p deadline_ms wait now left_now poll = ground arith

  incoming-when_full :
      (c : Channel) (h : FrameHeader) (complete_ns : ℕ)
      → (when_full c h complete_ns).0.incoming ≡ c.incoming
  unfolding when_full
  incoming-when_full c h complete_ns = ground arith

  incoming-on_header :
      (c : Channel) (complete_ns : ℕ) (r : Result ProtoError FrameHeader)
      → (on_header grants c complete_ns r).0.incoming ≡ c.incoming
  unfolding on_header
  incoming-on_header c complete_ns (err e) = refl
  incoming-on_header c complete_ns (ok h) =
      elim (Option-cases (make_room grants c.frame h.data_length)) [
        | inl refused ↦ rw (refused, on_header)
        | inr (f, made) ↦ rw (made, on_header) (incoming-when_full _ h complete_ns)
      ]

  incoming-on_fixed :
      (c : Channel) (chunk : Bytes) (header_ns complete_ns : ℕ)
      → (on_fixed grants c chunk header_ns complete_ns).0.incoming ≡ c.incoming
  unfolding on_fixed
  incoming-on_fixed c chunk header_ns complete_ns =
      elim (Bool-cases (ltb (c.partial.fixed_len + length chunk) header_size)) [
        | inl more ↦ rw (more, on_fixed)
        | inr full ↦ rw (full, on_fixed) (incoming-on_header _ complete_ns _)
      ]

  incoming-on_read :
      (c : Channel) (chunk : Bytes) (now header_ns complete_ns : ℕ)
      → (on_read grants c chunk now header_ns complete_ns).0.incoming ≡ c.incoming
  unfolding on_read on_body
  incoming-on_read c [] now header_ns complete_ns = refl
  incoming-on_read c (b ∷ bs) now header_ns complete_ns = elim (Option-cases c.partial.header) [
    | inl e ↦ rw (e, on_read) (incoming-on_fixed _ (b ∷ bs) header_ns complete_ns)
    | inr (h, e) ↦ rw (e, on_read) (incoming-when_full _ h complete_ns)
  ]

-- After reading on from `sofar`: the bytes read then and the bytes still to come are the same stream,
-- and the round left what it may leave.
pub record Continues (sofar : Bytes) (stream : Bytes) (r : Round) : Type 0 where
  pub read : Bytes
  pub conserved : sofar ++ stream ≡ read ++ r.0.incoming
  pub good : Good read r

module _ (grants : ℕ → Option ℕ) where
  step-Continues :
      (deadline_ms : ℕ) (wait : Bool) (sofar : Bytes) (c : Channel) (e : Event)
      → Reading sofar c
      → Continues sofar c.incoming (step grants deadline_ms wait c e)
  unfolding step
  step-Continues deadline_ms wait sofar c (ready n now header_ns complete_ns) v =
      let size = min n (room c.partial) in
      let chunk = take size c.incoming in
      let c' = record c { incoming = drop size c.incoming } in
      record {
        read = sofar ++ chunk;
        conserved =
            ap (λ t. sofar ++ t) (sym (take-append-drop size c.incoming))
            ∙ sym (append_assoc sofar chunk (drop size c.incoming))
            ∙ ap (λ t. (sofar ++ chunk) ++ t)
                (sym (incoming-on_read grants c' chunk now header_ns complete_ns));
        good =
            on_read-Good grants sofar chunk c' now header_ns complete_ns c.partial.header refl v
              (omega (arith, length-take size c.incoming));
      }
  step-Continues deadline_ms wait sofar c interrupted v = record {
    read = sofar;
    conserved = refl;
    good = v;
  }
  step-Continues deadline_ms wait sofar c (blocked now left_now poll) v = record {
    read = sofar;
    conserved = refl;
    good =
        Good-quiet grants sofar c (blocked_answer c.partial deadline_ms wait now left_now poll)
          (receives-blocked_answer grants c.partial deadline_ms wait now left_now poll) v;
  }
  step-Continues deadline_ms wait sofar c (read_failed code) v = record {
    read = sofar;
    conserved = refl;
    good = tt;
  }

  after_step :
      (deadline_ms : ℕ) (wait : Bool) (sofar stream : Bytes) (es : List Event) (r : Round)
      → Continues sofar stream r
      → ((sofar' : Bytes) (c' : Channel)
          → Reading sofar' c'
          → Continues sofar' c'.incoming (receive_loop grants deadline_ms wait c' es))
      → Continues sofar stream
          (elim r.1 [ none ↦ receive_loop grants deadline_ms wait r.0 es | some a ↦ (r.0, some a) ])
  after_step deadline_ms wait sofar stream es (c', none) s go =
      let t = go s.read c' s.good in
      record { read = t.read; conserved = s.conserved ∙ t.conserved; good = t.good }
  after_step deadline_ms wait sofar stream es (c', some a) s go = s

  -- From a part of a frame that the channel keeps, on any sequence of socket events, a call keeps
  -- the stream whole: the bytes it has read and the bytes still to come make up the bytes that were
  -- there before. If it returns with a received frame, the bytes read are that frame, with a header
  -- that parses and a body of the length the header says, and the channel is at the start of the
  -- next one; if it returns without a frame because nothing is ready or because it still waits for
  -- events, the bytes read are a part of a frame for the next call to go on from.
  pub receive_loop-Continues :
      (deadline_ms : ℕ) (wait : Bool) (sofar : Bytes) (c : Channel) (events : List Event)
      → Reading sofar c
      → Continues sofar c.incoming (receive_loop grants deadline_ms wait c events)
  unfolding receive_loop
  receive_loop-Continues deadline_ms wait sofar c [] v = record {
    read = sofar;
    conserved = refl;
    good = v;
  }
  receive_loop-Continues deadline_ms wait sofar c (e ∷ es) v =
      after_step deadline_ms wait sofar c.incoming es (step grants deadline_ms wait c e)
        (step-Continues deadline_ms wait sofar c e v)
        (λ sofar' c' v'. receive_loop-Continues deadline_ms wait sofar' c' es v')
