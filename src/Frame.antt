-- ===== src/Frame.antt =====
-- `Frame` of crates/omt-receiver/src/channel.rs: a received frame with its validated headers.
use rpi_omt_client.Prelude.{ℕ, ◌-◌, Option, none, some, [], ltb, if◌then◌else◌, take, drop, Bytes}
use rpi_omt_client.Protocol.{FrameType, FrameHeader, VideoHeader, AudioHeader}

-- A `Vec<u8>`: the bytes, and the capacity of the allocation that `recycle` asks for.
pub record Buffer : Type 0 where
  pub contents : Bytes
  pub capacity : ℕ

abbrev pub empty_buffer : Buffer
empty_buffer = record { contents = []; capacity = 0 }

pub record Frame : Type 0 where
  pub header : Option FrameHeader
  pub video : Option VideoHeader
  pub audio : Option AudioHeader
  pub buffer : Buffer
  pub len : ℕ
  pub header_ns : ℕ
  pub complete_ns : ℕ

abbrev pub no_frame : Frame
no_frame = record {
  header = none;
  video = none;
  audio = none;
  buffer = empty_buffer;
  len = 0;
  header_ns = 0;
  complete_ns = 0;
}

abbrev pub payload : Frame → Bytes
payload f = take f.len f.buffer.contents

abbrev pub frame_type : Frame → Option FrameType
frame_type f = elim f.header [ none ↦ none | some h ↦ some h.frame_type ]

abbrev pub metadata_length : Frame → ℕ
metadata_length f = elim f.header [ none ↦ 0 | some h ↦ h.metadata_length ]

-- The media between the extended header and the metadata at the end, with `checked_sub` as a test.
unfoldable pub media : Frame → ℕ → Option Bytes
media f extended_header =
    let end = f.len - metadata_length f in
    if ltb f.len (metadata_length f)
    then none
    else if ltb end extended_header
    then none
    else some (take (end - extended_header) (drop extended_header f.buffer.contents))
