-- ===== src/Sftp/Acked.antt =====
-- What an upload has sent, and what of it has been acknowledged.
use rpi_omt_client.Prelude.{
  ℕ, ◌+◌, ◌-◌, ◌%◌, ◌≤◌, ◌<◌, ◌≡◌, refl, sym, ap, ◌∙◌, Bool, true, false, not, ◌&&◌, Option, none,
  some, List, [], ◌∷◌, ◌++◌, arith, ltb, ◌==◌, if◌then◌else◌, length, append-nil, append_assoc,
  Bytes, Result, ok, err, Bool-cases, inl, inr,
}
use rpi_omt_client.Sftp.{
  Upload, UploadTurn, UploadEnding, cancelled_by_caller, uploaded, fails, read_failed, send_failed,
  abandoned, UploadError, upload_start, write_packet, max_in_flight, not_made, mark, next_of,
  on_chunk, on_answer, is_not_made, answered, upload_turn, then_upload, upload_loop,
}
use rpi_omt_client.Sftp.Writes.{
  IsPart, kept, passed, IsPart-nil, chunks_of, answers_of, some_of, ok_of, writes, write_ids,
}
use rpi_omt_client.Sftp.Waiting.{
  count, erase, count-erase, IsTracked, sent-IsTracked, taken_waits, answered-IsTracked,
  start-IsTracked,
}
use rpi_omt_client.Sftp.Answers.{IsOfBytes, AreOfBytes, answered-lt}

-- An upload that has ended has read its source to the end, and no write waits for its answer.
abbrev pub IsWhole : Option UploadEnding → Upload → Type 0
IsWhole (some uploaded) v = (v.in_flight ≡ 0) × (v.at_end ≡ true)
IsWhole (some (fails x)) v = Unit {0}
IsWhole (some (abandoned x)) v = Unit {0}
IsWhole none v = Unit {0}

-- From `u`, with the writes `before` waiting, the upload has come on these turns to `v`. `ids` are the answers
-- that are taken, and `waiting` the ids of the writes that still wait for one: together, each as often as
-- it was given away, they are those that waited before and those of the writes sent.
pub record IsAcked (handle : Bytes) (before : List ℕ) (u : Upload) (ts : List UploadTurn)
    (v : Upload) (e : Option UploadEnding) : Type 0 where
  pub chunks : List Bytes
  pub ids : List ℕ
  pub are_read : IsPart (some_of chunks) (chunks_of ts)
  pub are_answers : IsPart (ok_of ids) (answers_of ts)
  pub sent_is : v.sent ≡ u.sent ++ writes handle u.next_id u.offset chunks
  pub waiting : List ℕ
  pub settled :
      (id : ℕ)
      → count id ids + count id waiting ≡ count id before + count id (write_ids u.next_id chunks)
  pub on_way : length waiting ≡ v.in_flight
  pub in_window : v.in_flight ≤ max_in_flight
  pub whole : IsWhole e v

over :
    (u : Upload) → (u.at_end && (u.in_flight == 0)) ≡ true → (u.in_flight ≡ 0) × (u.at_end ≡ true)
over u x = (ground (arith, x, Bool-cases u.at_end), ground (arith, x, Bool-cases u.at_end))

done : (u : Upload) → IsWhole (if u.at_end && (u.in_flight == 0) then some uploaded else none) u
done u = elim (Bool-cases (u.at_end && (u.in_flight == 0))) [
  | inl x ↦ rw x (over u x)
  | inr x ↦ rw x tt
]

module _ (handle : Bytes) where
  ends :
      (w : List ℕ) (u v : Upload) (ts : List UploadTurn) (e : Option UploadEnding)
      → IsTracked u w
      → v.sent ≡ u.sent
      → v.in_flight ≡ u.in_flight
      → IsWhole e v
      → IsAcked handle w u ts v e
  ends w u v ts e b s f whole = record {
    chunks = [];
    ids = [];
    are_read = IsPart-nil (chunks_of ts);
    are_answers = IsPart-nil (answers_of ts);
    sent_is = s ∙ sym (append-nil u.sent);
    waiting = w;
    settled = λ id. omega arith;
    on_way = omega (arith, f, b.in_flight_is);
    in_window = omega (arith, b.few, f);
    whole = whole;
  }

  abbrev Acks : List ℕ → Upload → List UploadTurn → Upload × Option UploadEnding → Type 0
  Acks w u ts r = IsAcked handle w u ts r.0 r.1

  -- A turn, before turns on which the upload goes on so.
  module _ (ts : List UploadTurn) (next : Upload → Upload × Option UploadEnding)
      (later : (w : List ℕ) (v : Upload) → IsTracked v w → Acks w v ts (next v)) (t : UploadTurn)
      (o : IsOfBytes t.answer) (w : List ℕ) (u : Upload) (b : IsTracked u w) where
    wrote :
        (chunk : Bytes)
        → t.chunk ≡ some chunk
        → (v : Upload) → v.sent ≡ u.sent ++ (write_packet handle u.next_id u.offset chunk ∷ [])
        → v.next_id ≡ next_of u.next_id
        → v.offset ≡ u.offset + length chunk
        → (r : Upload × Option UploadEnding) → Acks (u.next_id ∷ w) v ts r
        → Acks w u (t ∷ ts) r
    wrote chunk c v s n f r k = record {
      chunks = chunk ∷ k.chunks;
      ids = k.ids;
      are_read = rw c (kept k.are_read);
      are_answers = passed k.are_answers;
      sent_is =
          k.sent_is
          ∙ rw (s, n, f)
              (append_assoc u.sent (write_packet handle u.next_id u.offset chunk ∷ [])
                (writes handle (next_of u.next_id) (u.offset + length chunk) k.chunks));
      waiting = k.waiting;
      settled =
          λ id. omega (arith, k.settled id, ap (λ first. count id (write_ids first k.chunks)) n);
      on_way = k.on_way;
      in_window = k.in_window;
      whole = k.whole;
    }

    acknowledged :
        (id : ℕ)
        → answered t.answer ≡ ok id
        → 0 < count id w
        → Acks w u (t ∷ ts) (
            next (record u {
              pending = mark (id % max_in_flight) false u.pending;
              in_flight = u.in_flight - 1;
            }))
    acknowledged id c g =
        let v = record u {
          pending = mark (id % max_in_flight) false u.pending;
          in_flight = u.in_flight - 1;
        } in
        let k = later (erase id w) v (answered-IsTracked u v w id b g refl refl refl) in
        record {
          chunks = k.chunks;
          ids = id ∷ k.ids;
          are_read = passed k.are_read;
          are_answers = rw c (kept k.are_answers);
          sent_is = k.sent_is;
          waiting = k.waiting;
          settled = λ x. omega (arith, k.settled x, count-erase x id w g);
          on_way = k.on_way;
          in_window = k.in_window;
          whole = k.whole;
        }

    on_chunk-Acks :
        u.in_flight < max_in_flight
        → (takes : Bool) (s : Option Bytes) → t.chunk ≡ s
        → Acks w u (t ∷ ts) (then_upload next (on_chunk handle u takes s))
    unfolding on_chunk then_upload
    on_chunk-Acks few takes none c = ends w u u (t ∷ ts) (some (fails read_failed)) b refl refl tt
    on_chunk-Acks few takes (some []) c =
        let k =
          later w (record u { at_end = true })
            (record {
              few = b.few;
              fits = b.fits;
              in_flight_is = b.in_flight_is;
              known = b.known;
            }) in
        record {
          chunks = k.chunks;
          ids = k.ids;
          are_read = passed k.are_read;
          are_answers = passed k.are_answers;
          sent_is = k.sent_is;
          waiting = k.waiting;
          settled = k.settled;
          on_way = k.on_way;
          in_window = k.in_window;
          whole = k.whole;
        }
    on_chunk-Acks few true (some (x ∷ xs)) c =
        wrote (x ∷ xs) c _ refl refl refl _
          (later (u.next_id ∷ w) _ (sent-IsTracked u _ w b few refl refl refl))
    on_chunk-Acks few false (some (x ∷ xs)) c =
        ends w u _ (t ∷ ts) (some (fails send_failed)) b refl refl tt

    on_answer-Acks :
        (cancelled : Bool) (a : Result UploadError ℕ)
        → answered t.answer ≡ a
        → Acks w u (t ∷ ts) (then_upload next (on_answer u cancelled a))
    unfolding on_answer then_upload
    on_answer-Acks true (err x) c = ends w u u (t ∷ ts) (some (abandoned x)) b refl refl tt
    on_answer-Acks false (err x) c = ends w u u (t ∷ ts) (some (fails x)) b refl refl tt
    on_answer-Acks cancelled (ok id) c = elim (Bool-cases (is_not_made u id)) [
      | inl n ↦ rw n (ends w u u (t ∷ ts) (some (fails not_made)) b refl refl tt)
      | inr n ↦ rw n (acknowledged id c (taken_waits u w id b (answered-lt id t.answer o c) n))
    ]

    unless_cancelled :
        (cancelled : Bool) (r : Upload × Option UploadEnding)
        → Acks w u (t ∷ ts) (then_upload next r)
        → Acks w u
            (t ∷ ts)
            (then_upload next (if cancelled then (u, some (abandoned cancelled_by_caller)) else r))
    unfolding then_upload
    unless_cancelled true r k =
        ends w u u (t ∷ ts) (some (abandoned cancelled_by_caller)) b refl refl tt
    unless_cancelled false r k = k

    upload_turn-Acks : Acks w u (t ∷ ts) (then_upload next (upload_turn handle u t))
    unfolding upload_turn then_upload
    upload_turn-Acks = elim (Bool-cases (u.at_end && (u.in_flight == 0))) [
      | inl x ↦ rw x (ends w u u (t ∷ ts) (some uploaded) b refl refl (over u x))
      | inr x ↦ rw x (
          unless_cancelled t.cancelled _
            (elim (Bool-cases (not u.at_end && ltb u.in_flight max_in_flight)) [
              | inl z ↦
                  rw z (on_chunk-Acks (ground (arith, z, Bool-cases u.at_end)) t.takes t.chunk refl)
              | inr z ↦ rw z (on_answer-Acks t.cancelled_then (answered t.answer) refl)
            ]))
    ]

  upload_loop-Acks :
      (w : List ℕ) (u : Upload) (ts : List UploadTurn)
      → AreOfBytes ts
      → IsTracked u w
      → Acks w u ts (upload_loop handle u ts)
  unfolding upload_loop
  upload_loop-Acks w u [] o b = ends w u u [] _ b refl refl (done u)
  upload_loop-Acks w u (t ∷ ts) (o, os) b =
      upload_turn-Acks ts (λ v. upload_loop handle v ts) (λ x v c. upload_loop-Acks x v ts os c) t o
        w u b

-- When the answers of the server are of bytes, on any turns, an upload has sent exactly the write packets of
-- some of the chunks that its source gave, in their order, with ids that count up and offsets without a
-- gap; the ids of these writes are, each as often, those of the answers with status 0 that were taken
-- and those of the writes on their way, so no answer is taken twice or for a write that was not made;
-- there are never more than 32 on their way, and an upload that ends as done has read its source to
-- the end and has no write left on its way.
pub upload_loop-IsAcked :
    (handle : Bytes) (ts : List UploadTurn)
    → AreOfBytes ts
    → IsAcked handle [] upload_start ts
        (upload_loop handle upload_start ts).0
        (upload_loop handle upload_start ts).1
upload_loop-IsAcked handle ts o = upload_loop-Acks handle [] upload_start ts o start-IsTracked
