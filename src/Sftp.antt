-- ===== src/Sftp.antt =====
-- An upload over SFTP, crates/omt-deploy/src/ssh/sftp.rs: its packets, its replies, and the loop that keeps
-- several writes on their way. A round of the loop meets a turn: whether the caller has cancelled, what the
-- source gives for a read, whether the channel takes a packet, and the reply. The offset of a file stays far
-- below 2^64, where the overflow check of the build would stop the program.
mod Writes
mod Waiting
mod Answers
mod Acked
mod Tests
use rpi_omt_client.Prelude.{
  ℕ, zero, suc, ◌+◌, ◌-◌, ◌*◌, ◌%◌, ◌^◌, Bool, true, false, not, ◌&&◌, ◌||◌, Option, none, some,
  List, [], ◌∷◌, ◌++◌, ltb, leb, ◌==◌, if◌then◌else◌, length, take, drop, get_or, replicate, Bytes,
  codes, Result, ok, err,
}
use rpi_omt_client.Cursor.{u8, be32_read}
use rpi_omt_client.Wire.{put_u32, put_u64, put_string, string}

abbrev pub sftp_version : ℕ
sftp_version = 2

abbrev pub sftp_open : ℕ
sftp_open = 3

abbrev pub sftp_close : ℕ
sftp_close = 4

abbrev pub sftp_write : ℕ
sftp_write = 6

abbrev pub sftp_remove : ℕ
sftp_remove = 13

abbrev pub sftp_status : ℕ
sftp_status = 101

abbrev pub sftp_handle : ℕ
sftp_handle = 102

abbrev pub max_packet : ℕ
max_packet = 256 * 1024

abbrev pub max_in_flight : ℕ
max_in_flight = 32

unfoldable pub packet_header : ℕ → ℕ → Bytes
packet_header kind id = put_u32 (kind ∷ []) id

-- What the bytes of the channel hold of a reply.
pub data Reply : Type 0 where
  malformed : Reply
  not_yet : Reply
  replied : Bytes → Bytes → Reply

unfoldable pub with_len : Option ℕ × Bytes → Reply
with_len (none, rest) = not_yet
with_len (some len, rest) =
    if (len == 0) || ltb max_packet len
    then malformed
    else if leb len (length rest)
    then replied (take len rest) (drop len rest)
    else not_yet

unfoldable pub reply_of : Bytes → Reply
reply_of rx = with_len (be32_read rx)

pub data UploadError : Type 0 where
  cancelled_by_caller : UploadError
  unexpected_reply : UploadError
  refused : ℕ → Bytes → UploadError
  bad_version : UploadError
  no_handle : UploadError
  read_failed : UploadError
  send_failed : UploadError
  reply_failed : UploadError
  not_made : UploadError

unfoldable pub with_message : ℕ → ℕ → Option Bytes × Bytes → Result UploadError ℕ
with_message got code (none, rest) = err unexpected_reply
with_message got code (some message, rest) =
    if code == 0 then ok got else err (refused code (take 200 message))

unfoldable pub with_code : ℕ → Option ℕ × Bytes → Result UploadError ℕ
with_code got (none, rest) = err unexpected_reply
with_code got (some code, rest) = with_message got code (string rest)

abbrev pub is_asked : Option ℕ → ℕ → Bool
is_asked none got = true
is_asked (some id) got = got == id

unfoldable pub with_id : Option ℕ → Option ℕ × Bytes → Result UploadError ℕ
with_id id (none, rest) = err unexpected_reply
with_id id (some got, rest) =
    if is_asked id got then with_code got (be32_read rest) else err unexpected_reply

unfoldable pub with_kind : Option ℕ → Option ℕ × Bytes → Result UploadError ℕ
with_kind id (none, rest) = err unexpected_reply
with_kind id (some kind, rest) =
    if kind == sftp_status then with_id id (be32_read rest) else err unexpected_reply

unfoldable pub status_ok : Option ℕ → Bytes → Result UploadError ℕ
status_ok id packet = with_kind id (u8 packet)

-- The reply to the first packet.
unfoldable pub speaks : Option ℕ × Bytes → Bool
speaks (none, rest) = false
speaks (some n, rest) = leb 3 n

unfoldable pub speaks_version : Bytes → Bool
speaks_version [] = false
speaks_version (kind ∷ rest) = (kind == sftp_version) && speaks (be32_read rest)

-- The handle in the reply to the open request, or the error that it stands for.
unfoldable pub no_handle_in : ℕ → Bytes → UploadError
no_handle_in open_id packet = elim (status_ok (some open_id) packet) [
  | ok id ↦ no_handle
  | err e ↦ e
]

unfoldable pub with_handle : ℕ → Bytes → Option Bytes × Bytes → Result UploadError Bytes
with_handle open_id packet (none, rest) = err (no_handle_in open_id packet)
with_handle open_id packet (some h, rest) =
    if not (length h == 0) && leb (length h) 256 then ok h else err (no_handle_in open_id packet)

unfoldable pub with_handle_id : ℕ → Bytes → Option ℕ × Bytes → Result UploadError Bytes
with_handle_id open_id packet (none, rest) = err (no_handle_in open_id packet)
with_handle_id open_id packet (some id, rest) =
    if id == open_id
    then with_handle open_id packet (string rest)
    else err (no_handle_in open_id packet)

unfoldable pub handle_of : ℕ → Bytes → Result UploadError Bytes
handle_of open_id [] = err (no_handle_in open_id [])
handle_of open_id (kind ∷ rest) =
    if kind == sftp_handle
    then with_handle_id open_id (kind ∷ rest) (be32_read rest)
    else err (no_handle_in open_id (kind ∷ rest))

-- `FLAG_WRITE | FLAG_CREAT | FLAG_TRUNC`
abbrev pub open_flags : ℕ
open_flags = 0x02 + (0x08 + 0x10)

-- The packets of the protocol behind its first one: no attributes are set on the file.
abbrev pub open_packet : Bytes → ℕ → Bytes
open_packet remote id =
    put_u32 (put_u32 (put_string (packet_header sftp_open id) remote) open_flags) 0

abbrev pub close_packet : Bytes → ℕ → Bytes
close_packet handle id = put_string (packet_header sftp_close id) handle

abbrev pub remove_packet : Bytes → ℕ → Bytes
remove_packet remote id = put_string (packet_header sftp_remove id) remote

abbrev pub write_packet : Bytes → ℕ → ℕ → Bytes → Bytes
write_packet handle id offset chunk =
    put_string (put_u64 (put_string (packet_header sftp_write id) handle) offset) chunk

-- The variables of the loop, and the packets that the channel has taken.
pub record Upload : Type 0 where
  pub next_id : ℕ
  pub pending : List Bool
  pub in_flight : ℕ
  pub offset : ℕ
  pub at_end : Bool
  pub sent : List Bytes

-- Behind the open request, whose id is 0.
abbrev pub upload_start : Upload
upload_start = record {
  next_id = 1;
  pending = replicate max_in_flight false;
  in_flight = 0;
  offset = 0;
  at_end = false;
  sent = [];
}

pub record UploadTurn : Type 0 where
  pub cancelled : Bool
  pub chunk : Option Bytes
  pub takes : Bool
  pub answer : Option Bytes
  pub cancelled_then : Bool

-- How the loop ends; an upload that is abandoned closes and removes the file.
pub data UploadEnding : Type 0 where
  uploaded : UploadEnding
  fails : UploadError → UploadEnding
  abandoned : UploadError → UploadEnding

unfoldable pub mark : ℕ → Bool → List Bool → List Bool
mark i b [] = []
mark zero b (x ∷ xs) = b ∷ xs
mark (suc i) b (x ∷ xs) = x ∷ mark i b xs

abbrev pub next_of : ℕ → ℕ
next_of id = (id + 1) % 2 ^ 32

unfoldable pub on_chunk : Bytes → Upload → Bool → Option Bytes → Upload × Option UploadEnding
on_chunk handle u takes none = (u, some (fails read_failed))
on_chunk handle u takes (some []) = (record u { at_end = true }, none)
on_chunk handle u takes (some (b ∷ bs)) =
    let v = record u {
      next_id = next_of u.next_id;
      offset = u.offset + length (b ∷ bs);
      pending = mark (u.next_id % max_in_flight) true u.pending;
    } in
    if takes
    then (
      record v {
        in_flight = u.in_flight + 1;
        sent = u.sent ++ (write_packet handle u.next_id u.offset (b ∷ bs) ∷ []);
      },
      none,
    )
    else (v, some (fails send_failed))

unfoldable pub answered : Option Bytes → Result UploadError ℕ
answered none = err reply_failed
answered (some packet) = status_ok none packet

-- `next_id.wrapping_sub(id)`
abbrev pub behind_by : ℕ → ℕ → ℕ
behind_by next_id id = ((next_id + 2 ^ 32) - id) % 2 ^ 32

unfoldable pub is_not_made : Upload → ℕ → Bool
is_not_made u id =
    ltb max_in_flight (behind_by u.next_id id)
    || ((u.next_id == id) || not (get_or u.pending (id % max_in_flight) false))

unfoldable pub on_answer : Upload → Bool → Result UploadError ℕ → Upload × Option UploadEnding
on_answer u cancelled (err e) = (u, some (if cancelled then abandoned e else fails e))
on_answer u cancelled (ok id) = if is_not_made u id then (u, some (fails not_made)) else (
  record u { pending = mark (id % max_in_flight) false u.pending; in_flight = u.in_flight - 1 },
  none,
)

unfoldable pub upload_turn : Bytes → Upload → UploadTurn → Upload × Option UploadEnding
upload_turn handle u t =
    if u.at_end && (u.in_flight == 0)
    then (u, some uploaded)
    else if t.cancelled
    then (u, some (abandoned cancelled_by_caller))
    else if not u.at_end && ltb u.in_flight max_in_flight
    then on_chunk handle u t.takes t.chunk
    else on_answer u t.cancelled_then (answered t.answer)

unfoldable pub then_upload :
    (Upload → Upload × Option UploadEnding)
    → Upload × Option UploadEnding
    → Upload × Option UploadEnding
then_upload next (u, none) = next u
then_upload next (u, some e) = (u, some e)

-- A list of turns that has no more is an upload that still waits, or one whose loop has ended.
unfoldable pub upload_loop : Bytes → Upload → List UploadTurn → Upload × Option UploadEnding
upload_loop handle u [] = (u, if u.at_end && (u.in_flight == 0) then some uploaded else none)
upload_loop handle u (t ∷ ts) = then_upload (λ v. upload_loop handle v ts) (upload_turn handle u t)
