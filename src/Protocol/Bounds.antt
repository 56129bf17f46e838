-- ===== src/Protocol/Bounds.antt =====
-- What an accepted header bounds, before a byte of payload is allocated.
use rpi_omt_client.Prelude.{
  ◌-◌, ◌^◌, ◌⊎◌, bit_and, ℕ, ◌+◌, ◌*◌, ◌≤◌, ◌<◌, ◌≡◌, Bytes, arith, length, ok, pos, unsigned_abs,
  ◌||◌, ltb, not, Bool-cases, inl, inr, Result, if◌then◌else◌, refl,
}
use rpi_omt_client.Protocol.{
  FrameType, metadata, video, audio, FrameHeader, VideoHeader, AudioHeader, extension, maximum,
  check_lengths, parse_frame_header, check_video, parse_video_header, check_audio,
  parse_audio_header, audio_max_size, audio_header_size, count_ones, video_fields, audio_fields,
  codec_vmx1, codec_fpa1, allowed_channels, is_video, is_audio, ProtoError, fail, truncated,
  video_header_size,
}

-- An accepted frame: its metadata and its extended header lie inside it, and the whole frame is at
-- most the extended header and the largest payload of its type.
pub record IsFramed (h : FrameHeader) : Type 0 where
  pub holds : extension h.frame_type + h.metadata_length ≤ h.data_length
  pub bounded : h.data_length ≤ extension h.frame_type + maximum h.frame_type

check_lengths-IsFramed :
    (kind : FrameType) (b : Bytes) (h : FrameHeader) → check_lengths kind b ≡ ok h → IsFramed h
unfolding check_lengths
check_lengths-IsFramed kind b h e = ground arith

-- Whatever bytes a peer sends, a frame header that is accepted has its extension header and its
-- metadata inside the frame's data, and data that is no longer than the extension header and the
-- largest payload of its type.
pub parse_frame_header-IsFramed :
    (b : Bytes) {h : FrameHeader} → parse_frame_header b ≡ ok h → IsFramed h
unfolding parse_frame_header
parse_frame_header-IsFramed b {h} e = ground (
  arith,
  check_lengths-IsFramed metadata b h,
  check_lengths-IsFramed video b h,
  check_lengths-IsFramed audio b h,
)

pub record IsPlayable (v : VideoHeader) : Type 0 where
  pub width_is : v.width ≡ pos (unsigned_abs v.width)
  pub width_low : 16 ≤ unsigned_abs v.width
  pub width_high : unsigned_abs v.width ≤ 1920
  pub height_is : v.height ≡ pos (unsigned_abs v.height)
  pub height_low : 16 ≤ unsigned_abs v.height
  pub height_high : unsigned_abs v.height ≤ 1080
  pub rate_is : v.frame_rate_n ≡ pos (unsigned_abs v.frame_rate_n)
  pub rate_positive : 0 < unsigned_abs v.frame_rate_n
  pub divisor_is : v.frame_rate_d ≡ pos (unsigned_abs v.frame_rate_d)
  pub divisor_positive : 0 < unsigned_abs v.frame_rate_d
  pub rate_high : unsigned_abs v.frame_rate_n ≤ 60 * unsigned_abs v.frame_rate_d
  pub codec_is : v.codec ≡ pos codec_vmx1
  pub aspect_is : (v.aspect_ratio ≡ 0x80000000) ⊎ (v.aspect_ratio ≤ 0x41200000)
  pub space_is : (v.color_space ≡ pos 0) ⊎ (v.color_space ≡ pos 601) ⊎ (v.color_space ≡ pos 709)
  pub flags_known : bit_and v.flags 0xffffffe0 ≡ 0

check_video-IsPlayable : (v w : VideoHeader) → check_video v ≡ ok w → (w ≡ v) × IsPlayable w
unfolding check_video
check_video-IsPlayable v w e = ground arith

-- The guard of `parse_video_header`, whatever stands behind it.
video_guard :
    (kind : FrameType) (n : ℕ) (r : Result ProtoError VideoHeader) (v : VideoHeader)
    → (if not (is_video kind) || ltb n video_header_size
        then fail truncated "OMT video header"
        else r)
      ≡ ok v
    → (kind ≡ video) × (32 ≤ n) × (r ≡ ok v)
video_guard metadata n r v e = cc
video_guard audio n r v e = cc
video_guard video n r v e = elim (Bool-cases (ltb n video_header_size)) [
  | inl short ↦ let e' = rw short at e in cc
  | inr long ↦ (refl, ground (arith, long), rw long at e)
]

-- A video header is accepted only for a video frame, from 32 bytes at least, and is what the bytes
-- say: a VMX1 picture from 16x16 to 1920x1080 at a rate of at most 60 whose numerator and denominator
-- are both positive integers, with the bits of an aspect ratio of -0.0 or from 0.0 to 10.0, one of the
-- three colour spaces, and no flag above the lowest five bits.
pub parse_video_header-IsPlayable :
    (frame : FrameHeader) (b : Bytes) (v : VideoHeader)
    → parse_video_header frame b ≡ ok v
    → (frame.frame_type ≡ video) × (32 ≤ length b) × (v ≡ video_fields b) × IsPlayable v
unfolding parse_video_header
parse_video_header-IsPlayable frame b v e =
    let (kind, long, checked) =
      video_guard frame.frame_type (length b) (check_video (video_fields b)) v e in
    let (same, playable) = check_video-IsPlayable (video_fields b) v checked in
    (kind, long, same, playable)

pub record IsAudible (frame : FrameHeader) (a : AudioHeader) : Type 0 where
  pub channels_are : a.channels ≡ pos (unsigned_abs a.channels)
  pub channels_low : 1 ≤ unsigned_abs a.channels
  pub channels_high : unsigned_abs a.channels ≤ 32
  pub rate_is : a.sample_rate ≡ pos (unsigned_abs a.sample_rate)
  pub rate_low : 8000 ≤ unsigned_abs a.sample_rate
  pub rate_high : unsigned_abs a.sample_rate ≤ 192000
  pub samples_are : a.samples_per_channel ≡ pos (unsigned_abs a.samples_per_channel)
  pub samples_positive : 1 ≤ unsigned_abs a.samples_per_channel
  pub decoded_fits :
      unsigned_abs a.samples_per_channel * unsigned_abs a.channels * 4 ≤ audio_max_size
  pub planes_fill :
      audio_header_size
        + count_ones a.active_channels * unsigned_abs a.samples_per_channel * 4
        + frame.metadata_length
      ≡ frame.data_length
  pub codec_is : a.codec ≡ pos codec_fpa1
  pub planes_within :
      bit_and a.active_channels (2 ^ 32 - 1 - allowed_channels (unsigned_abs a.channels)) ≡ 0

check_audio-IsAudible :
    (frame : FrameHeader) (a c : AudioHeader)
    → check_audio frame a ≡ ok c
    → (c ≡ a) × IsAudible frame c
unfolding check_audio
check_audio-IsAudible frame a c e = ground arith

-- An audio header is accepted only for an audio frame, from 24 bytes at least, and is what the bytes
-- say: planar audio of 1 to 32 channels at a sample rate of 8000 to 192000, with a positive number of
-- samples, none of these negative; no active plane lies beyond the channels, the decoded samples fit
-- the audio buffer, and the header, the active planes and the metadata fill the frame exactly.
pub parse_audio_header-IsAudible :
    (frame : FrameHeader) (b : Bytes) (a : AudioHeader)
    → parse_audio_header frame b ≡ ok a
    → (frame.frame_type ≡ audio) × (24 ≤ length b) × (a ≡ audio_fields b) × IsAudible frame a
unfolding parse_audio_header
parse_audio_header-IsAudible frame b a e = elim (Bool-cases (is_audio frame.frame_type)) [
  | inl kind ↦ ground (arith, kind, check_audio-IsAudible frame (audio_fields b) a)
  | inr other ↦ ground (arith, other)
]
