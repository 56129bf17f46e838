-- ===== src/Queue/Tests.antt =====
-- Runs of crates/omt-receiver/src/handoff.rs, and the theorems about it at concrete inputs.
use rpi_omt_client.Prelude.{
  ℕ, ◌≡◌, ◌≤◌, refl, true, false, Bool, some, [], ◌∷◌, ◌++◌, arith, ℤ, pos, drop, length, inl,
}
use rpi_omt_client.Protocol
use rpi_omt_client.Protocol.{FrameHeader, VideoHeader, AudioHeader}
use rpi_omt_client.Frame.{Frame, no_frame}
use rpi_omt_client.Queue.{
  Queue, video, audio, new, push, make_way, store, audio_interval_ns, drop_while, drop_oldest,
  recycle, over_limit, audio_backlog_exceeded, is_wanted,
}
use rpi_omt_client.Queue.Order.{push_audio, push_video}
use rpi_omt_client.Queue.Needed.{IsLeast}
use rpi_omt_client.Queue.Limits.{IsLimited, push-IsLimited}

-- 40 ms a frame, so that a third frame is past the backlog of 100 ms.
abbrev forty_ms : ℤ → ℤ → ℕ
forty_ms samples rate = 40000000

abbrev always : ℕ → Bool
always n = true

abbrev audio_frame : ℕ → Frame
audio_frame len = record no_frame {
  header = some (record {
    frame_type = Protocol.audio;
    timestamp = pos 0;
    metadata_length = 0;
    data_length = len;
  });
  audio = some (record {
    codec = pos 0;
    sample_rate = pos 48000;
    samples_per_channel = pos 1920;
    channels = pos 2;
    active_channels = 3;
  });
  len = len;
}

abbrev video_frame : ℕ → Frame
video_frame len = record no_frame {
  header = some (record {
    frame_type = Protocol.video;
    timestamp = pos 0;
    metadata_length = 0;
    data_length = len;
  });
  video = some (record {
    codec = pos 0;
    width = pos 16;
    height = pos 16;
    frame_rate_n = pos 30;
    frame_rate_d = pos 1;
    aspect_ratio = 0;
    flags = 0;
    color_space = pos 0;
  });
  len = len;
}

abbrev two_queued : Queue
two_queued = record (new audio 100) { frames = audio_frame 10 ∷ audio_frame 20 ∷ []; bytes = 30 }

sheds_the_oldest :
    ((push forty_ms always two_queued (audio_frame 30)).0.frames
      ≡ audio_frame 20 ∷ audio_frame 30 ∷ [])
    × ((push forty_ms always two_queued (audio_frame 30)).1 ≡ 1)
unfolding push make_way store audio_interval_ns drop_while drop_oldest recycle over_limit
    audio_backlog_exceeded is_wanted
sheds_the_oldest = (refl, refl)

wanted_audio : is_wanted audio (audio_frame 30) ≡ true
unfolding is_wanted
wanted_audio = refl

wanted_video : is_wanted video (video_frame 30) ≡ true
unfolding is_wanted
wanted_video = refl

push-IsLimited_example :
    IsLimited (push forty_ms always two_queued (audio_frame 30)).0
    × ((push forty_ms always two_queued (audio_frame 30)).0.kind ≡ two_queued.kind)
push-IsLimited_example =
    push-IsLimited forty_ms always two_queued (audio_frame 30)
      (record { account = omega arith; within = omega arith; single = inl refl })

push_audio_example :
    ((push forty_ms always two_queued (audio_frame 30)).1 ≤ length two_queued.frames)
    × ((push forty_ms always two_queued (audio_frame 30)).0.frames
        ≡ drop (push forty_ms always two_queued (audio_frame 30)).1 two_queued.frames
          ++ (audio_frame 30 ∷ []))
    × IsLeast two_queued.byte_cap
        (push forty_ms always two_queued (audio_frame 30)).0.interval_ns
        two_queued.frames
        (audio_frame 30)
        (push forty_ms always two_queued (audio_frame 30)).1
    × ((push forty_ms always two_queued (audio_frame 30)).0.bytes
        ≤ (push forty_ms always two_queued (audio_frame 30)).0.byte_cap)
    × (over_limit (push forty_ms always two_queued (audio_frame 30)).0 ≡ false)
push_audio_example =
    push_audio forty_ms always two_queued (audio_frame 30) (omega arith) refl wanted_audio
      (omega arith) (λ n. refl)

abbrev one_queued : Queue
one_queued = record (new video 100) { frames = video_frame 10 ∷ []; bytes = 10 }

push_video_example :
    (push forty_ms always one_queued (video_frame 30)).0.frames ≡ video_frame 30 ∷ []
push_video_example =
    push_video forty_ms always one_queued (video_frame 30) refl wanted_video (omega arith)
      (λ n. refl)
