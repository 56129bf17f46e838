-- ===== src/Protocol.antt =====
-- The OMT wire transport of crates/omt-protocol/src/lib.rs: the headers that decide how many bytes
-- are read and allocated next. The target grammar and the source names are not modelled.
-- A slice is a list of bytes; an `i32` or `i64` is an integer, read from its two's complement.
pub mod Bounds
pub mod RoundTrip
mod Tests
use rpi_omt_client.Prelude.{
  ℕ, zero, suc, ◌+◌, ◌-◌, ◌*◌, ◌/◌, ◌%◌, ◌^◌, bit_and, Bool, true, false, not, ◌&&◌, ◌||◌, List, [],
  ◌∷◌, ◌++◌, String, ltb, leb, ◌==◌, if◌then◌else◌, length, get_or, take, drop, Bytes, le_value,
  le_bytes, ℤ, pos, signed32, signed64, pattern64, int_within, int_positive, unsigned_abs, Result,
  ok, err,
}

abbrev pub header_size : ℕ
header_size = 16

abbrev pub video_header_size : ℕ
video_header_size = 32

abbrev pub audio_header_size : ℕ
audio_header_size = 24

abbrev pub video_max_size : ℕ
video_max_size = 10 * 1024 * 1024

abbrev pub audio_max_size : ℕ
audio_max_size = 1024 * 1024

abbrev pub metadata_max_size : ℕ
metadata_max_size = 64 * 1024

abbrev pub codec_vmx1 : ℕ
codec_vmx1 = 0x31584d56

abbrev pub codec_fpa1 : ℕ
codec_fpa1 = 0x31415046

pub data FrameType : Type 0 where
  metadata video audio : FrameType

-- `kind as u8`
abbrev pub frame_code : FrameType → ℕ
frame_code metadata = 1
frame_code video = 2
frame_code audio = 4

pub record FrameHeader : Type 0 where
  pub frame_type : FrameType
  pub timestamp : ℤ
  pub metadata_length : ℕ
  pub data_length : ℕ

-- `aspect_ratio` is the bit pattern of the `f32`.
pub record VideoHeader : Type 0 where
  pub codec : ℤ
  pub width : ℤ
  pub height : ℤ
  pub frame_rate_n : ℤ
  pub frame_rate_d : ℤ
  pub aspect_ratio : ℕ
  pub flags : ℕ
  pub color_space : ℤ

pub record AudioHeader : Type 0 where
  pub codec : ℤ
  pub sample_rate : ℤ
  pub samples_per_channel : ℤ
  pub channels : ℤ
  pub active_channels : ℕ

pub data ProtoKind : Type 0 where
  truncated unsupported oversized invalid : ProtoKind

pub record ProtoError : Type 0 where
  pub kind : ProtoKind
  pub detail : String

abbrev pub fail : {A : Type 0} → ProtoKind → String → Result ProtoError A
fail kind detail = err (record { kind = kind; detail = detail })

abbrev pub le16 : Bytes → ℕ → ℕ
le16 b at = le_value (take 2 (drop at b))

abbrev pub le32 : Bytes → ℕ → ℕ
le32 b at = le_value (take 4 (drop at b))

abbrev pub le_i32 : Bytes → ℕ → ℤ
le_i32 b at = signed32 (le32 b at)

-- The size of the extended header, and the largest payload behind it.
abbrev pub extension : FrameType → ℕ
extension metadata = 0
extension video = video_header_size
extension audio = audio_header_size

abbrev pub maximum : FrameType → ℕ
maximum metadata = metadata_max_size
maximum video = video_max_size
maximum audio = audio_max_size

-- From the type on: the lengths, with `checked_sub` as a test.
unfoldable pub check_lengths : FrameType → Bytes → Result ProtoError FrameHeader
check_lengths kind b =
    let data_length = le32 b 12 in
    let metadata_length = le16 b 10 in
    let payload = data_length - extension kind in
    if ltb data_length (extension kind)
    then fail invalid "OMT frame is shorter than its extended header"
    else if ltb (maximum kind) payload
    then fail oversized "OMT frame payload"
    else if ltb payload metadata_length
    then fail invalid "OMT metadata length exceeds the payload"
    else ok (record {
      frame_type = kind;
      timestamp = signed64 (le_value (take 8 (drop 2 b)));
      metadata_length = metadata_length;
      data_length = data_length;
    })

unfoldable pub parse_frame_header : Bytes → Result ProtoError FrameHeader
parse_frame_header b =
    if ltb (length b) header_size
    then fail truncated "OMT frame header"
    else if not (get_or b 0 0 == 1)
    then fail unsupported "OMT frame version"
    else if get_or b 1 0 == 1
    then check_lengths metadata b
    else if get_or b 1 0 == 2
    then check_lengths video b
    else if get_or b 1 0 == 4
    then check_lengths audio b
    else fail unsupported "OMT frame type"

abbrev pub is_video : FrameType → Bool
is_video video = true
is_video _ = false

abbrev pub is_audio : FrameType → Bool
is_audio audio = true
is_audio _ = false

-- Equality of an `i32` with a constant that is not negative.
abbrev pub int_is : ℕ → ℤ → Bool
int_is n (pos m) = m == n
int_is n _ = false

-- `f64::from(n) / f64::from(d) <= 60.0` for positive `i32`s: a quotient above 60 is above it by
-- 2^-31 at least, so rounding to a double does not hide it.
abbrev pub rate_in_range : ℤ → ℤ → Bool
rate_in_range n d = leb (unsigned_abs n) (60 * unsigned_abs d)

-- Finite and in 0.0..=10.0, on the bit pattern: -0.0, or a pattern up to that of 10.0. Patterns of
-- floats that are not negative are in the order of the floats.
abbrev pub aspect_in_range : ℕ → Bool
aspect_in_range bits = bits == 0x80000000 || leb bits 0x41200000

abbrev pub video_fields : Bytes → VideoHeader
video_fields b = record {
  codec = le_i32 b 0;
  width = le_i32 b 4;
  height = le_i32 b 8;
  frame_rate_n = le_i32 b 12;
  frame_rate_d = le_i32 b 16;
  aspect_ratio = le32 b 20;
  flags = le32 b 24;
  color_space = le_i32 b 28;
}

pub check_video : VideoHeader → Result ProtoError VideoHeader
check_video v =
    if not (int_within 16 1920 v.width)
      || (not (int_within 16 1080 v.height)
          || (not (int_positive v.frame_rate_n) || not (int_positive v.frame_rate_d)))
    then fail unsupported "OMT video dimensions or frame rate"
    else if not (rate_in_range v.frame_rate_n v.frame_rate_d) || not (int_is codec_vmx1 v.codec)
    then fail unsupported "OMT video format"
    else if not (aspect_in_range v.aspect_ratio)
        || (not (int_is 0 v.color_space || (int_is 601 v.color_space || int_is 709 v.color_space))
            || not (bit_and v.flags 0xffffffe0 == 0))
    then fail unsupported "OMT video properties"
    else ok v

pub parse_video_header : FrameHeader → Bytes → Result ProtoError VideoHeader
parse_video_header frame b =
    if not (is_video frame.frame_type) || ltb (length b) video_header_size
    then fail truncated "OMT video header"
    else check_video (video_fields b)

-- `u32::count_ones`, over the 32 bits
pub count_ones_in : ℕ → ℕ → ℕ
count_ones_in zero v = 0
count_ones_in (suc bits) v = v % 2 + count_ones_in bits (v / 2)

abbrev pub count_ones : ℕ → ℕ
count_ones v = count_ones_in 32 v

abbrev pub audio_fields : Bytes → AudioHeader
audio_fields b = record {
  codec = le_i32 b 0;
  sample_rate = le_i32 b 4;
  samples_per_channel = le_i32 b 8;
  channels = le_i32 b 12;
  active_channels = le32 b 16;
}

abbrev pub allowed_channels : ℕ → ℕ
allowed_channels channels = if channels == 32 then 2 ^ 32 - 1 else 2 ^ channels - 1

-- The products are of u64s and cannot wrap: the factors are at most 32 and 2^31.
pub check_audio : FrameHeader → AudioHeader → Result ProtoError AudioHeader
check_audio frame a =
    let channels = unsigned_abs a.channels in
    let samples = unsigned_abs a.samples_per_channel in
    let compressed = count_ones a.active_channels * samples * 4 in
    if not (int_is codec_fpa1 a.codec)
      || (not (int_within 8000 192000 a.sample_rate)
          || (not (int_within 1 32 a.channels) || not (int_positive a.samples_per_channel)))
    then fail unsupported "OMT audio format"
    else if ltb audio_max_size (samples * channels * 4)
    then fail oversized "decoded audio"
    else if not (bit_and a.active_channels (2 ^ 32 - 1 - allowed_channels channels) == 0)
    then fail invalid "active audio channel"
    else if ltb frame.data_length audio_header_size
    then fail invalid "audio payload"
    else if not (compressed + frame.metadata_length == frame.data_length - audio_header_size)
    then fail invalid "OMT planar audio payload length"
    else ok a

pub parse_audio_header : FrameHeader → Bytes → Result ProtoError AudioHeader
parse_audio_header frame b =
    if not (is_audio frame.frame_type) || ltb (length b) audio_header_size
    then fail truncated "OMT audio header"
    else check_audio frame (audio_fields b)

-- A frame header and the bytes that follow it, as the sender's side writes them.
abbrev pub header_bytes : FrameType → ℤ → ℕ → ℕ → Bytes
header_bytes kind timestamp metadata_length data_length =
    1
    ∷ frame_code kind
    ∷ (le_bytes 8 (pattern64 timestamp) ++ (le_bytes 2 metadata_length ++ le_bytes 4 data_length))

-- `out` is returned with the frame appended; on a refusal it is unchanged.
pub build_metadata : Bytes → ℤ → Bytes → Result ProtoError Bytes
build_metadata xml timestamp out =
    let len = length xml in
    if ltb 0 len && ltb len metadata_max_size
    then ok (out ++ (header_bytes metadata timestamp 0 len ++ xml))
    else fail invalid "metadata size"
