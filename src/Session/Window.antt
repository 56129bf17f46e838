-- ===== src/Session/Window.antt =====
-- The flow control of what is received: what the server may send, and what the client keeps of it.
use rpi_omt_client.Prelude.{
  ℕ, ◌+◌, ◌-◌, ◌≤◌, ◌≡◌, ◌⊎◌, ◌∙◌, sym, ap, refl, Bool, true, false, Option, none, some, [], ◌∷◌,
  ◌++◌, arith, ltb, ◌==◌, if◌then◌else◌, length, length-append, Bytes, get_or, drop, equal, codes,
  Bool-cases, inl, inr,
}
use rpi_omt_client.Cursor.{be32_read}
use rpi_omt_client.Wire.{string, put_u32}
use rpi_omt_client.Session.{
  SessionChannel, Outcome, Stream, stdout, stderr, other, local_window, send, send_window_adjust,
  keep, sink, send_close, on_open, refuse_open, on_confirmation, on_adjust, on_extended,
  on_exit_status, on_request, on_message, dispatch_payload, parsed, try_then, adjustment, to_remote,
  refusal,
}

-- The server was never offered more than the window, and what is kept is within the limit.
pub record IsWindowed (c : SessionChannel) : Type 0 where
  pub open_window : c.consumed ≤ local_window
  pub out_bounded : length c.kept_out ≤ c.limit
  pub err_bounded : length c.kept_err ≤ c.limit

parsed-IsWindowed :
    {A : Type 0} (c : SessionChannel) (r : Option A × Bytes) (k : A → Bytes → Outcome)
    → IsWindowed c
    → ((a : A) (rest : Bytes) → IsWindowed (k a rest).0)
    → IsWindowed (parsed c r k).0
unfolding parsed
parsed-IsWindowed c (none, rest) k v h = v
parsed-IsWindowed c (some a, rest) k v h = h a rest

try_then-IsWindowed :
    (o : Outcome) (k : SessionChannel → Outcome)
    → IsWindowed o.0
    → ((c : SessionChannel) → IsWindowed c → IsWindowed (k c).0)
    → IsWindowed (try_then o k).0
unfolding try_then
try_then-IsWindowed (c, none) k v h = h c v
try_then-IsWindowed (c, some e) k v h = v

module _ (transmits : ℕ → Bytes → Bool) where
  send-IsWindowed :
      (c : SessionChannel) (m : Bytes) → IsWindowed c → IsWindowed (send transmits c m).0
  unfolding send
  send-IsWindowed c m v = ground arith

  adjust-IsWindowed :
      (c : SessionChannel) → IsWindowed c → IsWindowed (send_window_adjust transmits c).0
  unfolding send_window_adjust
  adjust-IsWindowed c v = ground (arith, send-IsWindowed (record c { consumed = 0 }) (adjustment c))

  keep-IsWindowed :
      (c : SessionChannel) (s : Stream) (bytes : Bytes)
      → IsWindowed c
      → IsWindowed (keep transmits c s bytes).0
  unfolding keep
  keep-IsWindowed c other bytes v = v
  keep-IsWindowed c stdout bytes v = ground (arith, length-append c.kept_out bytes)
  keep-IsWindowed c stderr bytes v = ground (arith, length-append c.kept_err bytes)

  sink-IsWindowed :
      (c : SessionChannel) (s : Stream) (bytes : Bytes)
      → IsWindowed c
      → IsWindowed (sink transmits c s bytes).0
  unfolding sink
  sink-IsWindowed c s bytes v = elim (Bool-cases (ltb (local_window - c.consumed) (length bytes))) [
    | inl over ↦ rw over v
    | inr fits ↦
        let c' = record c { consumed = c.consumed + length bytes } in
        rw fits (
          try_then-IsWindowed (keep transmits c' s bytes) (send_window_adjust transmits)
            (keep-IsWindowed c' s bytes (ground arith)) adjust-IsWindowed)
  ]

  send_close-IsWindowed :
      (c : SessionChannel) → IsWindowed c → IsWindowed (send_close transmits c).0
  unfolding send_close
  send_close-IsWindowed c v =
      ground (arith, send-IsWindowed (record c { close_sent = true }) (to_remote 97 c))

  refuse_open-IsWindowed :
      (c : SessionChannel) (r : Option ℕ × Bytes)
      → IsWindowed c
      → IsWindowed (refuse_open transmits c r).0
  unfolding refuse_open
  refuse_open-IsWindowed c (none, rest) v = v
  refuse_open-IsWindowed c (some sender, rest) v = send-IsWindowed c (refusal sender) v

  on_open-IsWindowed :
      (c : SessionChannel) (r : Option Bytes × Bytes)
      → IsWindowed c
      → IsWindowed (on_open transmits c r).0
  unfolding on_open
  on_open-IsWindowed c (none, rest) v = v
  on_open-IsWindowed c (some kind, rest) v = refuse_open-IsWindowed c (be32_read rest) v

  on_confirmation-IsWindowed :
      (c : SessionChannel) (rest : Bytes)
      → IsWindowed c
      → IsWindowed (on_confirmation transmits c rest).0
  unfolding on_confirmation
  on_confirmation-IsWindowed c rest v = parsed-IsWindowed _ _ _ v λ id rest1.
      parsed-IsWindowed _ _ _ (omega (arith, v))
        λ window rest2. parsed-IsWindowed _ _ _ (omega (arith, v)) λ packet rest3. omega (arith, v)

  on_adjust-IsWindowed :
      (c : SessionChannel) (rest : Bytes) → IsWindowed c → IsWindowed (on_adjust transmits c rest).0
  unfolding on_adjust
  on_adjust-IsWindowed c rest v = parsed-IsWindowed _ _ _ v λ add rest1. omega (arith, v)

  on_extended-IsWindowed :
      (c : SessionChannel) (rest : Bytes)
      → IsWindowed c
      → IsWindowed (on_extended transmits c rest).0
  unfolding on_extended
  on_extended-IsWindowed c rest v = parsed-IsWindowed _ _ _ v λ code rest1.
      parsed-IsWindowed _ _ _ v
        λ bytes rest2. sink-IsWindowed c (if code == 1 then stderr else other) bytes v

  on_exit_status-IsWindowed :
      (c : SessionChannel) (name rest : Bytes)
      → IsWindowed c
      → IsWindowed (on_exit_status transmits c name rest).0
  unfolding on_exit_status
  on_exit_status-IsWindowed c name rest v = elim (Bool-cases (equal name (codes "exit-status"))) [
    | inl same ↦ rw same (parsed-IsWindowed _ _ _ v λ status rest1. omega (arith, v))
    | inr different ↦ rw different v
  ]

  replied-IsWindowed :
      (want_reply : Bool) (c : SessionChannel)
      → IsWindowed c
      → IsWindowed (if want_reply then send transmits c (to_remote 100 c) else (c, none)).0
  replied-IsWindowed true c v = send-IsWindowed c (to_remote 100 c) v
  replied-IsWindowed false c v = v

  on_request-IsWindowed :
      (c : SessionChannel) (rest : Bytes)
      → IsWindowed c
      → IsWindowed (on_request transmits c rest).0
  unfolding on_request
  on_request-IsWindowed c rest v = parsed-IsWindowed _ _ _ v λ name rest1.
      parsed-IsWindowed _ _ _ v λ want_reply rest2.
        try_then-IsWindowed _ _ (on_exit_status-IsWindowed c name rest2 v)
          (replied-IsWindowed want_reply)

  on_message-IsWindowed :
      (c : SessionChannel) (kind : ℕ) (rest : Bytes)
      → IsWindowed c
      → IsWindowed (on_message transmits c kind rest).0
  unfolding on_message
  on_message-IsWindowed c kind rest v = ground (
    arith,
    on_confirmation-IsWindowed c rest v,
    on_adjust-IsWindowed c rest v,
    parsed-IsWindowed c (string rest) (λ bytes rest1. sink transmits c stdout bytes) v
        (λ bytes rest1. sink-IsWindowed c stdout bytes v),
    on_extended-IsWindowed c rest v,
    send_close-IsWindowed (record c { close_received = true }),
    on_request-IsWindowed c rest v,
  )

  -- Whatever packet the server sends, and whether or not the transport takes the answers, a channel
  -- that counts no more than the receive window and keeps no more than its limit of either stream
  -- stays such a channel.
  pub dispatch_payload-IsWindowed :
      (c : SessionChannel) (payload : Bytes)
      → IsWindowed c
      → IsWindowed (dispatch_payload transmits c payload).0
  unfolding dispatch_payload
  dispatch_payload-IsWindowed c payload v =
      let kind = get_or payload 0 0 in
      let rest = drop 1 payload in
      let for_us : ℕ → Bytes → Outcome = λ recipient rest1.
        if recipient == c.local_id then on_message transmits c kind rest1 else (c, none) in
      ground (
        arith,
        on_open-IsWindowed c (string rest) v,
        parsed-IsWindowed c (be32_read rest) for_us v
            (λ recipient rest1. ground (arith, on_message-IsWindowed c kind rest1 v)),
      )

try_then_ok :
    (o : Outcome) (k : SessionChannel → Outcome) → (try_then o k).1 ≡ none → try_then o k ≡ k o.0
unfolding try_then
try_then_ok (c, none) k h = refl
try_then_ok (c, some e) k h = cc

fits_window :
    (c : SessionChannel) (bytes : Bytes)
    → ltb (local_window - c.consumed) (length bytes) ≡ false
    → length bytes ≤ local_window - c.consumed
fits_window c bytes h = ground arith

-- What keeping bytes does not touch.
record IsKept (c d : SessionChannel) : Type 0 where
  pub sent_is : d.sent ≡ c.sent
  pub consumed_is : d.consumed ≡ c.consumed
  pub remote_is : d.remote_id ≡ c.remote_id

-- The window after bytes that are accepted: they are counted still, or offered again to the server.
pub record IsCredited (c : SessionChannel) (received : ℕ) (d : SessionChannel) : Type 0 where
  pub within : received ≤ local_window - c.consumed
  pub credited :
      ((d.sent ≡ c.sent) × (d.consumed ≡ c.consumed + received))
      ⊎ ((d.sent ≡ c.sent ++ (put_u32 (put_u32 (93 ∷ []) c.remote_id) (c.consumed + received) ∷ []))
          × (d.consumed ≡ 0))

module _ (transmits : ℕ → Bytes → Bool) where
  keep-IsKept :
      (c : SessionChannel) (s : Stream) (bytes : Bytes) → IsKept c (keep transmits c s bytes).0
  unfolding keep
  keep-IsKept c other bytes = ground arith
  keep-IsKept c stdout bytes = ground arith
  keep-IsKept c stderr bytes = ground arith

  adjusted :
      (c d : SessionChannel) (n : ℕ)
      → n ≤ local_window - c.consumed
      → IsKept (record c { consumed = c.consumed + n }) d
      → (send_window_adjust transmits d).1 ≡ none
      → IsCredited c n (send_window_adjust transmits d).0
  unfolding send_window_adjust send
  adjusted c d n fits v h = ground arith

  -- When a session channel accepts bytes of either stream without an error, they were within what
  -- was left of the receive window, and afterwards they are either still counted, with nothing sent,
  -- or offered again to the server by one window adjustment of everything counted, with the count at
  -- zero.
  pub sink-IsCredited :
      (c : SessionChannel) (s : Stream) (bytes : Bytes)
      → (sink transmits c s bytes).1 ≡ none
      → IsCredited c (length bytes) (sink transmits c s bytes).0
  unfolding sink
  sink-IsCredited c s bytes h = elim (Bool-cases (ltb (local_window - c.consumed) (length bytes))) [
    | inl over ↦ cc
    | inr fits ↦
        let c' = record c { consumed = c.consumed + length bytes } in
        let o = keep transmits c' s bytes in
        let k = send_window_adjust transmits in
        let done : (try_then o k).1 ≡ none = rw fits at h in
        let e = try_then_ok o k done in
        rw (fits, sink)
          (rw e (
            adjusted c o.0 (length bytes) (fits_window c bytes fits) (keep-IsKept c' s bytes)
              (ap (λ (r : Outcome). r.1) (sym e) ∙ done)))
  ]
