-- ===== src/Protocol/Tests.antt =====
-- Runs of the header parsers, and the theorems about them at concrete inputs.
use rpi_omt_client.Prelude.{
  ◌≡◌, refl, [], ◌∷◌, ◌++◌, ok, pos, arith, ◌≤◌, length, codes, Bytes, replicate,
}
use rpi_omt_client.Protocol.{
  FrameHeader, metadata, video, audio, check_lengths, parse_frame_header, check_video,
  parse_video_header, check_audio, parse_audio_header, count_ones_in, build_metadata, header_bytes,
  header_size, video_fields, audio_fields, fail, oversized, unsupported,
}
use rpi_omt_client.Protocol.Bounds.{
  IsFramed, IsPlayable, IsAudible, parse_frame_header-IsFramed, parse_video_header-IsPlayable,
  parse_audio_header-IsAudible,
}
use rpi_omt_client.Protocol.RoundTrip.{
  header, parse_frame_header-header_bytes, build_metadata-parses,
}

abbrev video_frame : FrameHeader
video_frame = header video (pos 7) 0 64

parses_video : parse_frame_header (header_bytes video (pos 7) 0 64) ≡ ok video_frame
unfolding parse_frame_header check_lengths
parses_video = refl

-- One byte more than 64 KiB of metadata, and an unknown version.
refusals :
    (parse_frame_header (header_bytes metadata (pos 0) 0 65537)
      ≡ fail oversized "OMT frame payload")
    × (parse_frame_header (replicate 16 2) ≡ fail unsupported "OMT frame version")
unfolding parse_frame_header check_lengths
refusals = (refl, refl)

-- VMX1, 1920x1080 at 60000/1001, aspect 16/9, BT.709.
abbrev video_bytes : Bytes
video_bytes =
    0x56 ∷ 0x4d ∷ 0x58 ∷ 0x31 ∷ 0x80 ∷ 0x07 ∷ 0 ∷ 0 ∷ 0x38 ∷ 0x04 ∷ 0 ∷ 0 ∷ 0x60 ∷ 0xea ∷ 0 ∷ 0
    ∷ 0xe9 ∷ 0x03 ∷ 0 ∷ 0 ∷ 0x39 ∷ 0x8e ∷ 0xe3 ∷ 0x3f ∷ 0 ∷ 0 ∷ 0 ∷ 0 ∷ 0xc5 ∷ 0x02 ∷ 0 ∷ 0 ∷ []

accepts_video : parse_video_header video_frame video_bytes ≡ ok (video_fields video_bytes)
unfolding parse_video_header check_video
accepts_video = refl

-- FPA1, 48 kHz, two samples of two channels, both active.
abbrev audio_bytes : Bytes
audio_bytes =
    0x46 ∷ 0x50 ∷ 0x41 ∷ 0x31 ∷ 0x80 ∷ 0xbb ∷ 0 ∷ 0 ∷ 2 ∷ 0 ∷ 0 ∷ 0 ∷ 2 ∷ 0 ∷ 0 ∷ 0 ∷ 3 ∷ 0 ∷ 0 ∷ 0
    ∷ 0 ∷ 0 ∷ 0 ∷ 0 ∷ []

abbrev audio_frame : FrameHeader
audio_frame = header audio (pos 7) 0 40

accepts_audio : parse_audio_header audio_frame audio_bytes ≡ ok (audio_fields audio_bytes)
unfolding parse_audio_header check_audio count_ones_in
accepts_audio = refl

parse_frame_header-IsFramed_example : IsFramed video_frame
parse_frame_header-IsFramed_example =
    parse_frame_header-IsFramed (header_bytes video (pos 7) 0 64) parses_video

parse_video_header-IsPlayable_example :
    (video_frame.frame_type ≡ video)
    × (32 ≤ length video_bytes)
    × (video_fields video_bytes ≡ video_fields video_bytes)
    × IsPlayable (video_fields video_bytes)
parse_video_header-IsPlayable_example =
    parse_video_header-IsPlayable video_frame video_bytes (video_fields video_bytes) accepts_video

parse_audio_header-IsAudible_example :
    (audio_frame.frame_type ≡ audio)
    × (24 ≤ length audio_bytes)
    × (audio_fields audio_bytes ≡ audio_fields audio_bytes)
    × IsAudible audio_frame (audio_fields audio_bytes)
parse_audio_header-IsAudible_example =
    parse_audio_header-IsAudible audio_frame audio_bytes (audio_fields audio_bytes) accepts_audio

parse_frame_header-header_bytes_example :
    parse_frame_header (header_bytes video (pos 7) 0 64 ++ codes "rest") ≡ ok video_frame
parse_frame_header-header_bytes_example =
    parse_frame_header-header_bytes video (pos 7) 0 64 (codes "rest") (omega arith) (omega arith)
      (omega arith) (omega arith)

build_metadata-parses_example :
    (head : Bytes) × (build_metadata (codes "<a/>") (pos 7) (codes "out")
      ≡ ok (codes "out" ++ (head ++ codes "<a/>")))
    × (length head ≡ header_size)
    × (parse_frame_header (head ++ codes "<a/>") ≡ ok (header metadata (pos 7) 0 4))
build_metadata-parses_example =
    build_metadata-parses (codes "<a/>") (codes "out") (pos 7) (omega arith) (omega arith)
      (omega arith)
