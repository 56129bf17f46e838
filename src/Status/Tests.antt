-- ===== src/Status/Tests.antt =====
-- Runs of crates/omt-receiver-core/src/status.rs, and the theorems about it at concrete inputs.
use rpi_omt_client.Prelude.{
  ◌+◌, ◌≤◌, ◌≡◌, ◌≢◌, refl, Bool, true, false, none, some, [], arith, Bytes, codes, equal,
}
use rpi_omt_client.Status.{
  Inner, Document, rewritten, unchanged, refused, silent, failed, running, stopped, no_connector,
  publish, is_published, keep_whole, detail_limit, update_detail, detailed, slot, video_report,
  audio_report, heartbeat, stopped_report,
}
use rpi_omt_client.Status.Fresh.{utf8_total, keep_whole-fits, publish-shows}

abbrev as_it_is : Bytes → Bytes
as_it_is text = text

abbrev always : Document → Bool
always d = true

-- `PlaybackStatus::new`
abbrev new_status : Inner
new_status = record {
  current = record {
    video = stopped;
    audio = silent;
    video_detail = codes "Playback stopped.";
    audio_detail = [];
    connector = no_connector;
  };
  published = none;
  published_at_ms = 0;
  sequence = 0;
  directory_ready = false;
}

-- The second report is inside the heartbeat; the third is not.
reports_twice :
    (heartbeat as_it_is always
      (video_report as_it_is always new_status running (codes "ok") no_connector 100 101).0
      no_connector
      600
      601).1
    ≡ unchanged
unfolding heartbeat video_report publish is_published update_detail detailed slot keep_whole equal
reports_twice = refl

reports_again :
    (heartbeat as_it_is always
      (audio_report as_it_is always new_status failed (codes "no\ndevice") no_connector 100 101).0
      no_connector
      601
      602).1
    ≡ rewritten
unfolding heartbeat audio_report publish is_published update_detail detailed slot keep_whole equal
reports_again = refl

stops :
    (stopped_report as_it_is always new_status (codes "bye") 5 6).0.current.video_detail
    ≡ codes "bye"
unfolding stopped_report publish keep_whole
stops = refl

keep_whole-fits_example : 2046 + utf8_total (keep_whole 2046 (codes "abc")) ≤ detail_limit
keep_whole-fits_example = keep_whole-fits 2046 (codes "abc") (omega arith)

publishes : (publish as_it_is always new_status false 100 101).1 ≢ refused
unfolding publish is_published
publishes h = cc

publish-shows_example :
    (publish as_it_is always new_status false 100 101).0.published
    ≡ some (publish as_it_is always new_status false 100 101).0.current
publish-shows_example = publish-shows as_it_is always new_status false 100 101 publishes
