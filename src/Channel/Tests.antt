-- ===== src/Channel/Tests.antt =====
-- A frame in pieces across two calls, and the theorem about the loop at those inputs.
use rpi_omt_client.Prelude.{
  ℕ, ◌≡◌, ◌≢◌, refl, true, false, Option, none, some, List, [], ◌∷◌, ◌++◌, arith, pos, codes, Bytes,
}
use rpi_omt_client.Protocol.{metadata, header_bytes, parse_frame_header, check_lengths}
use rpi_omt_client.Frame.{no_frame}
use rpi_omt_client.Channel.{
  Channel, no_partial, Event, ready, interrupted, blocked, woken, received, would_block, text,
  receive_loop, step, on_read, on_fixed, on_body, on_header, when_full, complete, complete_as,
  make_room, room, overwrite, blocked_answer, finish, receive_inner, close,
}
use rpi_omt_client.Channel.Steps.{ReadsHeader}
use rpi_omt_client.Channel.Progress.{finish-answers}
use rpi_omt_client.Channel.Reassembly.{Continues, receive_loop-Continues}

abbrev exact : ℕ → Option ℕ
exact n = some n

abbrev wire : Bytes
wire = header_bytes metadata (pos 7) 0 4 ++ codes "<a/>"

abbrev fresh : Channel
fresh = record {
  connected = true;
  frame = no_frame;
  partial = no_partial;
  incoming = wire ++ codes "next";
}

abbrev pieces : List Event
pieces =
    ready 5 100 1 1 ∷ interrupted ∷ ready 100 101 2 2 ∷ blocked 102 102 woken ∷ ready 1 103 3 3 ∷ []

-- A deadline in the middle of the body keeps the frame, and the next call ends it.
first_call :
    (finish exact 104 false fresh (pieces ++ (blocked 104 104 woken ∷ []))).1
    ≡ some (would_block, some (text "OMT socket deadline expired"))
unfolding finish receive_inner receive_loop step on_read on_fixed on_body on_header when_full
    complete complete_as make_room room overwrite blocked_answer parse_frame_header check_lengths
    close
first_call = refl

both_calls :
    (receive_loop exact 104 true fresh (pieces ++ (ready 100 105 4 4 ∷ []))).1
    ≡ some (received, none)
unfolding receive_loop step on_read on_fixed on_body on_header when_full complete complete_as
    make_room room overwrite blocked_answer parse_frame_header check_lengths
both_calls = refl

fresh-ReadsHeader : ReadsHeader [] no_partial
fresh-ReadsHeader = record {
  count = refl;
  short = omega arith;
  wide = refl;
  kept = refl;
  no_body = refl;
}

receive_loop-Continues_example :
    Continues [] fresh.incoming (receive_loop exact 104 true fresh pieces)
receive_loop-Continues_example =
    receive_loop-Continues exact 104 true [] fresh pieces fresh-ReadsHeader

-- A call that has a header and waits for four bytes of data.
abbrev in_body : Channel
in_body = record fresh {
  partial = record no_partial {
    fixed_len = 16;
    header =
        some (record {
          frame_type = metadata;
          timestamp = pos 7;
          metadata_length = 0;
          data_length = 4;
        });
  };
}

abbrev one_by_one : List Event
one_by_one =
    ready 1 1 1 1 ∷ interrupted ∷ ready 1 2 2 2 ∷ ready 1 3 3 3 ∷ ready 1 4 4 4 ∷ ready 1 5 5 5 ∷ []

finish-answers_example : (finish exact 104 true in_body one_by_one).1 ≢ none
finish-answers_example = finish-answers exact 104 true in_body one_by_one (omega arith)
