-- ===== src/Sftp/Tests.antt =====
-- An upload that was run, and the theorem on it.
use rpi_omt_client.Prelude.{
  ℕ, zero, suc, ◌≡◌, refl, true, false, Option, none, some, List, [], ◌∷◌, Bytes, codes, ok, err,
  arith,
}
use rpi_omt_client.Cursor.{take_bytes, u8, be32_read}
use rpi_omt_client.Wire.{string, put_string, put_u32}
use rpi_omt_client.Sftp.{
  UploadTurn, uploaded, fails, refused, not_made, malformed, replied, upload_start, write_packet,
  open_packet, close_packet, speaks, speaks_version, packet_header, mark, on_chunk, on_answer,
  is_not_made, answered, status_ok, with_kind, with_id, with_code, with_message, with_len, reply_of,
  handle_of, no_handle_in, with_handle_id, with_handle, upload_turn, then_upload, upload_loop,
}
use rpi_omt_client.Sftp.Acked.{IsAcked, upload_loop-IsAcked}

-- An answer with status `code` for a request.
abbrev status_packet : ℕ → ℕ → Bytes
status_packet id code = 101 ∷ 0 ∷ 0 ∷ 0 ∷ id ∷ 0 ∷ 0 ∷ 0 ∷ code ∷ 0 ∷ 0 ∷ 0 ∷ 0 ∷ []

abbrev turn_with : Option Bytes → Option Bytes → UploadTurn
turn_with chunk answer = record {
  cancelled = false;
  chunk = chunk;
  takes = true;
  answer = answer;
  cancelled_then = false;
}

-- Two chunks, the end of the file, and the answers in another order.
abbrev two_chunks : List UploadTurn
two_chunks =
    turn_with (some (codes "ab")) none
    ∷ turn_with (some (codes "c")) none
    ∷ turn_with (some []) none
    ∷ turn_with none (some (status_packet 2 0))
    ∷ turn_with none (some (status_packet 1 0))
    ∷ []

uploads_two_chunks : (upload_loop (codes "h") upload_start two_chunks).1 ≡ some uploaded
unfolding upload_loop then_upload upload_turn on_chunk on_answer is_not_made mark answered status_ok
    with_kind with_id with_code with_message string take_bytes u8 be32_read
uploads_two_chunks = refl

sends_two_packets :
    (upload_loop (codes "h") upload_start two_chunks).0.sent
    ≡ write_packet (codes "h") 1 0 (codes "ab") ∷ write_packet (codes "h") 2 2 (codes "c") ∷ []
unfolding upload_loop then_upload upload_turn on_chunk on_answer is_not_made mark answered status_ok
    with_kind with_id with_code with_message string take_bytes u8 be32_read
sends_two_packets = refl

refuses_unmade_answer :
    (upload_loop (codes "h") upload_start (
      turn_with (some (codes "ab")) none
      ∷ turn_with (some []) none
      ∷ turn_with none (some (status_packet 2 0))
      ∷ [])).1
    ≡ some (fails not_made)
unfolding upload_loop then_upload upload_turn on_chunk on_answer is_not_made mark answered status_ok
    with_kind with_id with_code with_message string take_bytes u8 be32_read
refuses_unmade_answer = refl

-- As many chunks of one byte as turns.
abbrev bytes_sent : ℕ → List UploadTurn → List UploadTurn
bytes_sent zero ts = ts
bytes_sent (suc n) ts = turn_with (some (codes "x")) none ∷ bytes_sent n ts

-- With a full window, an answer out of its order lets the next write take the mark of one that waits; the
-- answer to that one is then refused.
refuses_late_answer :
    (upload_loop (codes "h") upload_start (
      bytes_sent 32 (
        turn_with none (some (status_packet 2 0))
        ∷ turn_with (some (codes "y")) none
        ∷ turn_with none (some (status_packet 1 0))
        ∷ []))).1
    ≡ some (fails not_made)
unfolding upload_loop then_upload upload_turn on_chunk on_answer is_not_made mark answered status_ok
    with_kind with_id with_code with_message string take_bytes u8 be32_read
refuses_late_answer = refl

refuses_empty_reply : reply_of (0 ∷ 0 ∷ 0 ∷ 0 ∷ 9 ∷ []) ≡ malformed
unfolding reply_of with_len be32_read
refuses_empty_reply = refl

cuts_reply : reply_of (0 ∷ 0 ∷ 0 ∷ 1 ∷ 9 ∷ 8 ∷ []) ≡ replied (9 ∷ []) (8 ∷ [])
unfolding reply_of with_len be32_read
cuts_reply = refl

closes_handle : close_packet (codes "h") 3 ≡ 4 ∷ 0 ∷ 0 ∷ 0 ∷ 3 ∷ 0 ∷ 0 ∷ 0 ∷ 1 ∷ 104 ∷ []
unfolding packet_header put_u32 put_string
closes_handle = refl

creates_file :
    open_packet (codes "f") 0
    ≡ 3 ∷ 0 ∷ 0 ∷ 0 ∷ 0 ∷ 0 ∷ 0 ∷ 0 ∷ 1 ∷ 102 ∷ 0 ∷ 0 ∷ 0 ∷ 26 ∷ 0 ∷ 0 ∷ 0 ∷ 0 ∷ []
unfolding packet_header put_u32 put_string
creates_file = refl

speaks_four : speaks_version (2 ∷ 0 ∷ 0 ∷ 0 ∷ 4 ∷ []) ≡ true
unfolding speaks_version speaks be32_read
speaks_four = refl

opens_refused : handle_of 0 (status_packet 0 3) ≡ err (refused 3 [])
unfolding handle_of no_handle_in status_ok with_kind with_id with_code with_message string
    take_bytes u8 be32_read
opens_refused = refl

opens_handle : handle_of 0 (102 ∷ 0 ∷ 0 ∷ 0 ∷ 0 ∷ 0 ∷ 0 ∷ 0 ∷ 1 ∷ 7 ∷ []) ≡ ok (7 ∷ [])
unfolding handle_of with_handle_id with_handle string take_bytes u8 be32_read
opens_handle = refl

upload_loop-IsAcked_example :
    IsAcked
      (codes "h")
      []
      upload_start
      two_chunks
      (upload_loop (codes "h") upload_start two_chunks).0
      (upload_loop (codes "h") upload_start two_chunks).1
upload_loop-IsAcked_example = upload_loop-IsAcked (codes "h") two_chunks (omega arith)
