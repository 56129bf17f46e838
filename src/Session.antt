-- ===== src/Session.antt =====
-- The session channel of the SSH client, crates/omt-deploy/src/ssh/channel.rs: what each packet of the
-- server does to it, and the flow control of what is received.
-- `sent` holds the packets that the transport has taken, oldest first, and `offered` counts those that it was
-- offered. `transmits` is a parameter: whether the transport takes a packet, by the number of those
-- offered before, so that it may refuse what it took earlier. A method answers with the channel and, if it fails, the error.
pub mod Window
pub mod Write
pub mod Flow
mod Tests
use rpi_omt_client.Prelude.{
  ℕ, ◌+◌, ◌-◌, ◌*◌, ◌/◌, ◌^◌, min, Bool, true, false, not, ◌&&◌, ◌||◌, Option, none, some, List, [],
  ◌∷◌, ◌++◌, String, ltb, leb, ◌==◌, if◌then◌else◌, length, drop, get_or, equal, Bytes, codes,
}
use rpi_omt_client.Cursor.{Read, be32_read}
use rpi_omt_client.Wire.{put_u32, put_string, string, boolean}

abbrev pub local_window : ℕ
local_window = 2 * 1024 * 1024

abbrev pub local_max_packet : ℕ
local_max_packet = 32768

pub data ChannelError : Type 0 where
  transport_failed window_overrun output_exceeded malformed : ChannelError
  unexpected : ℕ → ChannelError

-- `kept_out` and `kept_err` are the fields `out` and `err`; the wiped scratch is left out.
pub record SessionChannel : Type 0 where
  pub sent : List Bytes
  pub offered : ℕ
  pub local_id : ℕ
  pub remote_id : ℕ
  pub remote_window : ℕ
  pub remote_max_packet : ℕ
  pub consumed : ℕ
  pub opened : Bool
  pub open_failed : Bool
  pub eof_received : Bool
  pub close_received : Bool
  pub close_sent : Bool
  pub eof_sent : Bool
  pub reply : Option Bool
  pub exit : Option ℕ
  pub kept_out : Bytes
  pub kept_err : Bytes
  pub keep_out : Bool
  pub keep_err : Bool
  pub limit : ℕ

abbrev pub Outcome : Type 0
Outcome = SessionChannel × Option ChannelError

-- A packet of a kind that carries the remote channel's number.
abbrev pub to_remote : ℕ → SessionChannel → Bytes
to_remote kind c = put_u32 (kind ∷ []) c.remote_id

-- `CHANNEL_WINDOW_ADJUST`
abbrev pub adjustment : SessionChannel → Bytes
adjustment c = put_u32 (to_remote 93 c) c.consumed

-- `CHANNEL_OPEN_FAILURE`
abbrev pub refusal : ℕ → Bytes
refusal sender = put_string (put_string (put_u32 (put_u32 (92 ∷ []) sender) 1) []) []

-- The error of an operation stops the one it stands in.
pub try_then : Outcome → (SessionChannel → Outcome) → Outcome
try_then (c, none) k = k c
try_then (c, some e) k = (c, some e)

-- `read(&mut r).ok_or_else(malformed)?`
pub parsed : {A : Type 0} → SessionChannel → Option A × Bytes → (A → Bytes → Outcome) → Outcome
parsed c (none, rest) k = (c, some malformed)
parsed c (some a, rest) k = k a rest

-- `to_err`: nothing is kept, or the bytes of one of the two streams.
pub data Stream : Type 0 where
  other stdout stderr : Stream

-- `i32::try_from(status).unwrap_or(1)`
abbrev pub exit_code : ℕ → ℕ
exit_code status = if ltb status (2 ^ 31) then status else 1

module _ (transmits : ℕ → Bytes → Bool) where
  pub send : SessionChannel → Bytes → Outcome
  send c m =
      if transmits c.offered m
      then (record c { sent = c.sent ++ (m ∷ []); offered = c.offered + 1 }, none)
      else (record c { offered = c.offered + 1 }, some transport_failed)

  pub send_window_adjust : SessionChannel → Outcome
  send_window_adjust c =
      if ltb c.consumed (local_window / 2) || c.close_sent
      then (c, none)
      else send (record c { consumed = 0 }) (adjustment c)

  pub keep : SessionChannel → Stream → Bytes → Outcome
  keep c other bytes = (c, none)
  keep c stdout bytes =
      if c.keep_out
      then (if ltb c.limit (length c.kept_out + length bytes)
          then (c, some output_exceeded)
          else (record c { kept_out = c.kept_out ++ bytes }, none))
      else (c, none)
  keep c stderr bytes =
      if c.keep_err
      then (if ltb c.limit (length c.kept_err + length bytes)
          then (c, some output_exceeded)
          else (record c { kept_err = c.kept_err ++ bytes }, none))
      else (c, none)

  pub sink : SessionChannel → Stream → Bytes → Outcome
  sink c stream bytes =
      if ltb (local_window - c.consumed) (length bytes)
      then (c, some window_overrun)
      else try_then (keep (record c { consumed = c.consumed + length bytes }) stream bytes)
          send_window_adjust

  pub send_close : SessionChannel → Outcome
  send_close c =
      if c.close_sent || not c.opened
      then (c, none)
      else send (record c { close_sent = true }) (to_remote 97 c)

  -- The server may not open channels: whatever it asks for is refused.
  pub refuse_open : SessionChannel → Option ℕ × Bytes → Outcome
  refuse_open c (none, rest) = (c, some (unexpected 90))
  refuse_open c (some sender, rest) = send c (refusal sender)

  pub on_open : SessionChannel → Option Bytes × Bytes → Outcome
  on_open c (none, rest) = (c, some (unexpected 90))
  on_open c (some kind, rest) = refuse_open c (be32_read rest)

  pub on_confirmation : SessionChannel → Bytes → Outcome
  on_confirmation c rest = parsed c (be32_read rest) λ id rest1.
      let c1 = record c { remote_id = id } in
      parsed c1 (be32_read rest1) λ window rest2.
        let c2 = record c1 { remote_window = window } in
        parsed c2 (be32_read rest2)
          λ packet rest3. (record c2 { remote_max_packet = packet; opened = true }, none)

  pub on_adjust : SessionChannel → Bytes → Outcome
  on_adjust c rest =
      parsed c (be32_read rest)
        λ add rest1. (record c { remote_window = min (c.remote_window + add) (2 ^ 32 - 1) }, none)

  pub on_extended : SessionChannel → Bytes → Outcome
  on_extended c rest = parsed c (be32_read rest) λ code rest1.
      parsed c (string rest1) λ bytes rest2. sink c (if code == 1 then stderr else other) bytes

  pub on_exit_status : SessionChannel → Bytes → Bytes → Outcome
  on_exit_status c name rest =
      if equal name (codes "exit-status")
      then parsed c (be32_read rest)
          (λ status rest1. (record c { exit = some (exit_code status) }, none))
      else (c, none)

  pub on_request : SessionChannel → Bytes → Outcome
  on_request c rest = parsed c (string rest) λ name rest1.
      parsed c (boolean rest1) λ want_reply rest2.
        try_then (on_exit_status c name rest2)
          λ c'. if want_reply then send c' (to_remote 100 c') else (c', none)

  -- The kinds from 91 to 100, for this channel.
  pub on_message : SessionChannel → ℕ → Bytes → Outcome
  on_message c kind rest =
      if kind == 91
      then on_confirmation c rest
      else if kind == 92
      then (record c { open_failed = true }, none)
      else if kind == 93
      then on_adjust c rest
      else if kind == 94
      then parsed c (string rest) (λ bytes rest1. sink c stdout bytes)
      else if kind == 95
      then on_extended c rest
      else if kind == 96
      then (record c { eof_received = true }, none)
      else if kind == 97
      then send_close (record c { close_received = true })
      else if kind == 98
      then on_request c rest
      else if kind == 99
      then (record c { reply = some true }, none)
      else if kind == 100
      then (record c { reply = some false }, none)
      else (c, some malformed)

  pub dispatch_payload : SessionChannel → Bytes → Outcome
  dispatch_payload c payload =
      let kind = get_or payload 0 0 in
      let rest = drop 1 payload in
      if kind == 90
      then on_open c (string rest)
      else if ltb kind 90 || ltb 100 kind
      then (c, some (unexpected kind))
      else parsed c (be32_read rest)
          λ recipient rest1. if recipient == c.local_id then on_message c kind rest1 else (c, none)

  pub eof : SessionChannel → Outcome
  eof c =
      if c.eof_sent || c.close_sent
      then (c, none)
      else send (record c { eof_sent = true }) (to_remote 96 c)
