-- ===== src/Lib.antt =====
-- Raspberry Pi OMT Client: the parts of the receiver, of its protocol and of the deployer that
-- decide what bytes mean and what state is kept, as functions, with theorems about them.
--
-- The parts and the way they meet. The receiver connects to a sender and reads frames from the
-- socket (Channel). A frame starts with a header of 16 bytes, which Protocol parses and bounds
-- before any buffer grows. A whole frame (Frame) goes to the queue of its kind (Queue), which a
-- player empties; a video frame is decoded from a stream of bits (VmxBits), then placed on the
-- screen and scaled (Placement). Both players report into one status document (Status). What may be
-- received is a target or a source name (Target) under a decode ceiling (Ceiling); instants are
-- printed and read by one calendar (Civil, Rfc3339). The web interface reads the head of a request
-- (Http) and lets in who has a current session (Auth). Documents, requests and packets are written
-- through one bounded buffer (Buf) and read through one cursor (Cursor); numbers in text are read by
-- one strict parser (Decimal), records by one strict JSON reader (Json). The deployer's SSH client
-- writes and reads its packets with that buffer and that cursor (Wire), and its session channel
-- counts what each side may send (Session); the key of a server is looked up in known_hosts
-- (KnownHosts), and files go over SFTP with several writes on their way (Sftp).
--
--   Prelude       shared helpers: lists, numbers as bytes, machine integers, results, rulesets
--   Buf           crates/omt-common/src/buf.rs, BoundedBuf: reserve, append, hex, consume, into_vec
--   Cursor        crates/omt-common/src/buf.rs, Cursor: the source's mutable cursor is the bytes that
--                 are left, which each read returns with its value
--   Decimal       crates/omt-common/src/buf.rs, parse_u64
--   Json          crates/omt-common/src/json.rs: parse, string, number, write_string, as_u64, as_i64; the
--                 source's position in the text is the bytes that are left
--   Wire          crates/omt-deploy/src/ssh/wire.rs: put_string, put_mpint, string, mpint, name lists,
--                 base64_decode
--   Session       crates/omt-deploy/src/ssh/channel.rs, Channel: dispatch_payload, sink, send_close,
--                 eof, write
--   Sftp          crates/omt-deploy/src/ssh/sftp.rs: header, reply, status_ok, the loop of upload_on
--   KnownHosts    crates/omt-deploy/src/ssh/known_hosts.rs: glob, hosts_match, hashed_match, parse
--   Protocol      crates/omt-protocol/src/lib.rs: parse_frame_header, parse_video_header,
--                 parse_audio_header, build_metadata
--   Frame, Channel  crates/omt-receiver/src/channel.rs: Frame, Partial, receive_inner, complete, finish
--   Queue         crates/omt-receiver/src/handoff.rs: push, pop, take_spare, recycle, drop_oldest
--   VmxBits       crates/omt-vmx/src/bits.rs: Stream and Reader: load, take, bits, zeros, reload, align
--   Placement     crates/omt-receiver/src/scale.rs: Placement::fit, sample, Scaler::new
--   Target        crates/omt-protocol/src/lib.rs: parse_direct_target, valid_dns, source names
--   Ceiling       crates/omt-receiver-core/src/ceiling.rs: VideoCeiling::parse, describe, admits
--   Civil         crates/omt-common/src/timefmt.rs: civil_from_days, days_from_civil
--   Rfc3339       crates/omt-common/src/timefmt.rs: rfc3339_millis, compact_utc, parse_rfc3339
--   Auth          crates/omt-web/src/auth.rs: authenticate, is_current, revoke, CSRF tokens
--   Http          crates/omt-web/src/http.rs: parse_head, Request::header, the body, Response::add_header
--   Status        crates/omt-receiver-core/src/status.rs, PlaybackStatus: video, audio, heartbeat,
--                 stopped, publish, update_detail, sanitize_detail
--
-- A byte is a natural number; the theorems that need one below 256 say so. A number of a fixed width
-- is a natural number with its wrap, its saturation or its overflow check written out, but for the
-- i64 of the calendar (Civil) and the offset of an upload (Sftp), which are unbounded: their
-- callers' values are far from the ends, where the build's overflow checks would stop the program. A
-- signed number read from bytes is an integer read from two's complement. A method that changes its
-- object returns the new object.
--
-- Bounds and fuel. The doubling loop of BoundedBuf::reserve has 58 rounds: from 64 bytes these pass
-- any usize. The dropping loop of Queue::push has one round for each frame of the queue, and each
-- round takes a frame. The loop of receive_inner runs on a list of events, one for each read of the
-- socket: bytes that arrive, a signal, a closed connection, an error, or a socket that is not ready
-- with the clock and the poll that follow; a list that ends is a call that still waits. The digits
-- of a u64 are at most twenty, and the decimal printer has a round for each. The binary search over
-- the 24 forbidden ranges halves them five times at most. The eviction loop of a login has a round
-- for each record. The loop over a JSON string has one round for each byte and one for its end. A
-- JSON document is read with 3 * length + 3 rounds: a value in a container takes three more than the
-- container, a further element one, and each of them takes a byte at least.
--
-- The loop of a known_hosts pattern has (|p| + 1) * (|s| + 1) * (|p| + 1) + 1 rounds for a pattern p
-- and a text s: each star is passed once, and from it the text is tried once at each place. The loop
-- of `bits` has a round for each bit. A write to the channel runs on a list of turns, one for each
-- round of its loop; a list that ends is a write that still waits; the loop of an upload runs on
-- such a list too.
--
-- What is not under the source's control is a parameter: the allocator (how much a reservation
-- yields, or whether it succeeds), the floating-point quotient behind the interval of an audio
-- frame, the check of UTF-8 and whether the double of a literal is finite, the socket's events,
-- whether the SSH transport takes a packet, by the number of those offered before, and what a wait
-- for one brings, whether the store of a stream can grow, the keyed hash of a known host, the
-- parsers of address literals, the keyed hash and the test of a password, and whether the status
-- document is rendered and its file replaced. Floating-point tests on header fields that were 32-bit
-- integers are written as comparisons of cross products and of bit patterns.
--
-- Not modelled: sockets, threads, devices and D-Bus; OpenSSL; the NFC tables and the UTF-8 checks;
-- zeroing of memory; generated templates; the rest of the web administration, the states of its
-- connections, the decoder of VMX pictures behind its bit reader, and the deployment steps.
pub mod Prelude
pub mod Buf
pub mod Decimal
pub mod Json
pub mod Cursor
pub mod Wire
pub mod Protocol
pub mod Target
pub mod Frame
pub mod Queue
pub mod VmxBits
pub mod Placement
pub mod Channel
pub mod Session
pub mod KnownHosts
pub mod Status
pub mod Ceiling
pub mod Civil
pub mod Rfc3339
pub mod Auth
pub mod Http
pub mod Sftp
