-- ===== src/Session/Tests.antt =====
-- Runs of crates/omt-deploy/src/ssh/channel.rs, and the theorems about it at concrete inputs.
use rpi_omt_client.Prelude.{
  ltb, ℕ, ◌≡◌, refl, Bool, true, false, none, some, [], ◌∷◌, arith, Bytes, codes,
}
use rpi_omt_client.Wire.{put_u32, put_string, string}
use rpi_omt_client.Cursor.{be32_read, take_bytes}
use rpi_omt_client.Session.{
  SessionChannel, stdout, transport_failed, sink, dispatch_payload, keep, parsed, try_then, send,
  send_window_adjust, send_close, on_message, on_adjust, eof,
}
use rpi_omt_client.Session.Write.{
  Turn, timeout, packet, written, write, one_turn, continued, serviced, send_data, taken_off,
}
use rpi_omt_client.Session.Window.{
  IsWindowed, IsCredited, dispatch_payload-IsWindowed, sink-IsCredited,
}

abbrev always : ℕ → Bytes → Bool
always n m = true

-- An open channel, number 1 here and 7 at the server.
abbrev opened_channel : SessionChannel
opened_channel = record {
  sent = [];
  local_id = 1;
  offered = 0;
  remote_id = 7;
  remote_window = 1000;
  remote_max_packet = 500;
  consumed = 0;
  opened = true;
  open_failed = false;
  eof_received = false;
  close_received = false;
  close_sent = false;
  eof_sent = false;
  reply = none;
  exit = none;
  kept_out = [];
  kept_err = [];
  keep_out = true;
  keep_err = false;
  limit = 4;
}

abbrev stdout_packet : Bytes
stdout_packet = 94 ∷ 0 ∷ 0 ∷ 0 ∷ 1 ∷ 0 ∷ 0 ∷ 0 ∷ 3 ∷ codes "abc"

abbrev close_packet : Bytes
close_packet = 97 ∷ 0 ∷ 0 ∷ 0 ∷ 1 ∷ []

collects_output :
    (dispatch_payload always opened_channel stdout_packet)
    ≡ (record opened_channel { consumed = 3; kept_out = codes "abc" }, none)
unfolding dispatch_payload on_message parsed be32_read string take_bytes sink try_then keep
    send_window_adjust
collects_output = refl

answers_a_close : (dispatch_payload always opened_channel close_packet) ≡ (
  record opened_channel {
    sent = (97 ∷ 0 ∷ 0 ∷ 0 ∷ 7 ∷ []) ∷ [];
    offered = 1;
    close_received = true;
    close_sent = true;
  },
  none,
)
unfolding dispatch_payload on_message parsed be32_read send_close send put_u32
answers_a_close = refl

ends_once : (eof always (eof always opened_channel).0) ≡ (
  record opened_channel { sent = (96 ∷ 0 ∷ 0 ∷ 0 ∷ 7 ∷ []) ∷ []; offered = 1; eof_sent = true },
  none,
)
unfolding eof send put_u32
ends_once = refl

dispatch_payload-IsWindowed_example :
    IsWindowed (dispatch_payload always opened_channel stdout_packet).0
dispatch_payload-IsWindowed_example =
    dispatch_payload-IsWindowed always opened_channel stdout_packet (omega arith)

accepts_output : (sink always opened_channel stdout (codes "abc")).1 ≡ none
unfolding sink try_then keep send_window_adjust
accepts_output = refl

sink-IsCredited_example :
    IsCredited opened_channel 3 (sink always opened_channel stdout (codes "abc")).0
sink-IsCredited_example = sink-IsCredited always opened_channel stdout (codes "abc") accepts_output

-- A window of two bytes, which the server opens by five more.
abbrev narrow_channel : SessionChannel
narrow_channel = record opened_channel { remote_window = 2 }

abbrev ready : Turn
ready = record { cancelled = false; late = false; polled = timeout }

abbrev adjusted : Turn
adjusted = record ready { polled = packet (93 ∷ 0 ∷ 0 ∷ 0 ∷ 1 ∷ 0 ∷ 0 ∷ 0 ∷ 5 ∷ []) }

abbrev after_all : SessionChannel
after_all = record opened_channel {
  sent =
      (94 ∷ 0 ∷ 0 ∷ 0 ∷ 7 ∷ 0 ∷ 0 ∷ 0 ∷ 2 ∷ codes "ab")
      ∷ (94 ∷ 0 ∷ 0 ∷ 0 ∷ 7 ∷ 0 ∷ 0 ∷ 0 ∷ 1 ∷ codes "c")
      ∷ [];
  offered = 2;
  remote_window = 4;
}

writes_all :
    write always (ready ∷ ready ∷ adjusted ∷ ready ∷ []) narrow_channel (codes "abc")
    ≡ (after_all, [], written)
unfolding write one_turn continued serviced send_data taken_off dispatch_payload on_message
    on_adjust parsed be32_read send put_string put_u32
writes_all = refl

-- A transport that takes one packet, and refuses the same bytes afterwards.
abbrev once : ℕ → Bytes → Bool
once n m = ltb n 1

refuses_the_second :
    (send once (send once opened_channel (codes "x")).0 (codes "x"))
    ≡ (record opened_channel { sent = codes "x" ∷ []; offered = 2 }, some transport_failed)
unfolding send
refuses_the_second = refl
