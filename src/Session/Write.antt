-- ===== src/Session/Write.antt =====
-- `write` of the session channel: data is sent within the peer's window, and packets are handled while it
-- waits for the window to open. A round of its loop meets a turn: whether the caller has cancelled, whether
-- the deadline has passed, and what a poll of the transport brings.
use rpi_omt_client.Prelude.{
  ℕ, ◌-◌, min, Bool, ◌||◌, none, some, List, [], ◌∷◌, ◌==◌, if◌then◌else◌, length, take, drop,
  Bytes,
}
use rpi_omt_client.Wire.{put_string}
use rpi_omt_client.Session.{
  SessionChannel, Outcome, ChannelError, local_max_packet, to_remote, send, dispatch_payload,
}

-- What a wait for a packet brings.
pub data Polled : Type 0 where
  timeout : Polled
  failed : Polled
  packet : Bytes → Polled

pub record Turn : Type 0 where
  pub cancelled : Bool
  pub late : Bool
  pub polled : Polled

-- How the loop ends: everything is written, an error, or a list of turns that has no more.
pub data Ending : Type 0 where
  written : Ending
  cancelled_by_caller : Ending
  remote_closed : Ending
  timed_out : Ending
  poll_failed : Ending
  channel_error : ChannelError → Ending
  waits : Ending

-- The channel, and the data that is not sent.
abbrev pub Written : Type 0
Written = SessionChannel × Bytes × Ending

abbrev pub send_room : SessionChannel → ℕ
send_room c = min (min c.remote_window c.remote_max_packet) local_max_packet

-- `CHANNEL_DATA`
abbrev pub data_packet : SessionChannel → Bytes → Bytes
data_packet c bytes = put_string (to_remote 94 c) bytes

module _ (transmits : ℕ → Bytes → Bool) where
  unfoldable pub continued : (SessionChannel → Written) → Bytes → Outcome → Written
  continued next bytes (c, none) = next c
  continued next bytes (c, some e) = (c, bytes, channel_error e)

  -- `poll`
  unfoldable pub serviced : (SessionChannel → Written) → SessionChannel → Bytes → Polled → Written
  serviced next c bytes timeout = next c
  serviced next c bytes failed = (c, bytes, poll_failed)
  serviced next c bytes (packet payload) =
      continued next bytes (dispatch_payload transmits c payload)

  -- One packet of data, and its size off the window.
  unfoldable pub send_data : SessionChannel → Bytes → Outcome
  send_data c chunk = send transmits c (data_packet c chunk)

  unfoldable pub taken_off : ℕ → Outcome → Outcome
  taken_off n (c, none) = (record c { remote_window = c.remote_window - n }, none)
  taken_off n (c, some e) = (c, some e)

  unfoldable pub one_turn :
      (SessionChannel → Bytes → Written) → SessionChannel → Bytes → Turn → Written
  one_turn next c bytes turn =
      if turn.cancelled
      then (c, bytes, cancelled_by_caller)
      else if c.close_received || c.eof_sent
      then (c, bytes, remote_closed)
      else if send_room c == 0
      then (if turn.late
          then (c, bytes, timed_out)
          else serviced (λ d. next d bytes) c bytes turn.polled)
      else continued (λ d. next d (drop (send_room c) bytes)) bytes
          (taken_off (length (take (send_room c) bytes)) (send_data c (take (send_room c) bytes)))

  unfoldable pub write : List Turn → SessionChannel → Bytes → Written
  write turns c [] = (c, [], written)
  write [] c (b ∷ bs) = (c, b ∷ bs, waits)
  write (t ∷ ts) c (b ∷ bs) = one_turn (write ts) c (b ∷ bs) t
