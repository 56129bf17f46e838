-- ===== src/Protocol/RoundTrip.antt =====
-- A header that is written is read back.
use rpi_omt_client.Prelude.{
  ℕ, ◌<◌, ◌^◌, ◌≡◌, refl, Bytes, ◌++◌, arith, length, ◌∙◌, ok, pattern64, ℤ, IsI64, pattern64-lt,
  signed64-pattern64, le_value-le_bytes,
}
use rpi_omt_client.Protocol.{
  FrameType, metadata, video, audio, FrameHeader, check_lengths, parse_frame_header, header_bytes,
  build_metadata, metadata_max_size, header_size,
}
use rpi_omt_client.Protocol.Bounds.{IsFramed}

abbrev pub header : FrameType → ℤ → ℕ → ℕ → FrameHeader
header kind timestamp m d = record {
  frame_type = kind;
  timestamp = timestamp;
  metadata_length = m;
  data_length = d;
}

check_lengths-header_bytes :
    (kind : FrameType) (timestamp : ℤ) (m d : ℕ) (rest : Bytes)
    → IsI64 timestamp
    → m < 2 ^ 16
    → d < 2 ^ 32
    → IsFramed (header kind timestamp m d)
    → check_lengths kind (header_bytes kind timestamp m d ++ rest) ≡ ok (header kind timestamp m d)
unfolding check_lengths
check_lengths-header_bytes kind timestamp m d rest ht hm hd f = ground (
  arith,
  f,
  le_value-le_bytes 8 (pattern64 timestamp) (pattern64-lt timestamp ht),
  le_value-le_bytes 2 m hm,
  le_value-le_bytes 4 d hd,
  signed64-pattern64 timestamp ht,
)

parse_frame_header-check_lengths :
    (kind : FrameType) (timestamp : ℤ) (m d : ℕ) (rest : Bytes)
    → parse_frame_header (header_bytes kind timestamp m d ++ rest)
      ≡ check_lengths kind (header_bytes kind timestamp m d ++ rest)
unfolding parse_frame_header
parse_frame_header-check_lengths metadata timestamp m d rest = ground arith
parse_frame_header-check_lengths video timestamp m d rest = ground arith
parse_frame_header-check_lengths audio timestamp m d rest = ground arith

-- A header whose fields have their widths and whose lengths are framed, written in front of any
-- bytes, is read back whole.
pub parse_frame_header-header_bytes :
    (kind : FrameType) (timestamp : ℤ) (m d : ℕ) (rest : Bytes)
    → IsI64 timestamp
    → m < 2 ^ 16
    → d < 2 ^ 32
    → IsFramed (header kind timestamp m d)
    → parse_frame_header (header_bytes kind timestamp m d ++ rest) ≡ ok (header kind timestamp m d)
parse_frame_header-header_bytes kind timestamp m d rest ht hm hd f =
    parse_frame_header-check_lengths kind timestamp m d rest
    ∙ check_lengths-header_bytes kind timestamp m d rest ht hm hd f

-- For a document of 1 byte at least and fewer than the metadata limit, and a timestamp that is an
-- i64, the metadata frame is appended to what was written before, and its header reads back as that
-- of a metadata frame with this timestamp, no per-frame metadata and the document's length.
pub build_metadata-parses :
    (xml out : Bytes) (timestamp : ℤ)
    → 0 < length xml
    → length xml < metadata_max_size
    → IsI64 timestamp
    → (head : Bytes) × (build_metadata xml timestamp out ≡ ok (out ++ (head ++ xml)))
      × (length head ≡ header_size)
      × (parse_frame_header (head ++ xml) ≡ ok (header metadata timestamp 0 (length xml)))
unfolding build_metadata
build_metadata-parses xml out timestamp low high ht = (
  header_bytes metadata timestamp 0 (length xml),
  ground arith,
  refl,
  parse_frame_header-header_bytes metadata timestamp 0 (length xml) xml ht (omega arith)
      (omega arith) (omega arith),
)
