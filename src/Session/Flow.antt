-- ===== src/Session/Flow.antt =====
-- What `write` may send: the flow control of the peer's window.
use rpi_omt_client.Prelude.{
  ℕ, ◌+◌, ◌-◌, ◌≤◌, ◌<◌, ◌≡◌, Bool, true, false, [], ◌∷◌, ◌++◌, length, Bytes,
}
use rpi_omt_client.Session.{SessionChannel, local_max_packet, dispatch_payload}
use rpi_omt_client.Session.Write.{Ending, written, Written, data_packet}

module _ (transmits : ℕ → Bytes → Bool) where
  -- The channel with one packet of data more, and its size off the window.
  abbrev pub with_data : SessionChannel → Bytes → SessionChannel
  with_data c chunk = record c {
    sent = c.sent ++ (data_packet c chunk ∷ []);
    offered = c.offered + 1;
    remote_window = c.remote_window - length chunk;
  }

  -- What a packet of data has to meet.
  pub record IsAllowed (c : SessionChannel) (chunk : Bytes) : Type 0 where
    pub some_data : 0 < length chunk
    pub in_window : length chunk ≤ c.remote_window
    pub in_packet : length chunk ≤ c.remote_max_packet
    pub in_local : length chunk ≤ local_max_packet
    pub still_open : c.close_received ≡ false
    pub not_ended : c.eof_sent ≡ false
    pub taken : transmits c.offered (data_packet c chunk) ≡ true

  -- Runs of a channel with data to send, to a channel and the data that is left.
  pub data Flow : SessionChannel → Bytes → SessionChannel → Bytes → Type 0 where
    stays : {c : SessionChannel} {s : Bytes} → Flow c s c s
    sends :
        {c d : SessionChannel} {s s' : Bytes} (chunk later : Bytes)
        → chunk ++ later ≡ s
        → IsAllowed c chunk
        → Flow (with_data c chunk) later d s'
        → Flow c s d s'
    refused :
        {c : SessionChannel} {s : Bytes} (chunk later : Bytes)
        → chunk ++ later ≡ s
        → transmits c.offered (data_packet c chunk) ≡ false
        → Flow c s (record c { offered = c.offered + 1 }) s
    handles :
        {c d e : SessionChannel} {s s' : Bytes} (payload : Bytes)
        → (dispatch_payload transmits c payload).0 ≡ d
        → Flow d s e s'
        → Flow c s e s'

  -- The data that an ending leaves.
  abbrev pub IsLeft : Ending → Bytes → Type 0
  IsLeft written s = s ≡ []
  IsLeft _ s = Unit {0}

  -- A run, and that nothing is left when the loop says that all is written.
  abbrev pub FlowsTo : SessionChannel → Bytes → Written → Type 0
  FlowsTo c s (d, s', e) = Flow c s d s' × IsLeft e s'
