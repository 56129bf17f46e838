-- ===== src/Status.antt =====
-- The playback status of the receiver, crates/omt-receiver-core/src/status.rs: the projection that the
-- video and the audio threads report into, and when it is published.
-- A text is its characters. `trim` is the standard library's; `replaces` stands for rendering the
-- document within its bound and replacing the file; the clock values are arguments.
pub mod Fresh
mod Tests
use rpi_omt_client.Prelude.{
  ℕ, ◌+◌, ◌-◌, Bool, true, false, not, ◌&&◌, ◌||◌, Option, none, some, List, [], ◌∷◌, ltb, leb,
  ◌==◌, if◌then◌else◌, length, equal, Bytes, codes,
}

abbrev pub heartbeat_ms : ℕ
heartbeat_ms = 500

abbrev pub detail_limit : ℕ
detail_limit = 2048

pub data VideoState : Type 0 where
  running waiting_for_discovery waiting_for_hdmi retrying : VideoState
  unsupported_format starting stopped : VideoState

-- `Stopped`, `Running` and `Failed`
pub data AudioState : Type 0 where
  silent playing failed : AudioState

abbrev pub video_code : VideoState → ℕ
video_code running = 0
video_code waiting_for_discovery = 1
video_code waiting_for_hdmi = 2
video_code retrying = 3
video_code unsupported_format = 4
video_code starting = 5
video_code stopped = 6

abbrev pub audio_code : AudioState → ℕ
audio_code silent = 0
audio_code playing = 1
audio_code failed = 2

pub record Connector : Type 0 where
  pub name : Bytes
  pub drm_device : Bytes
  pub alsa_device : Bytes

abbrev pub no_connector : Connector
no_connector = record { name = codes "none"; drm_device = codes "none"; alsa_device = codes "none" }

pub record Projection : Type 0 where
  pub video : VideoState
  pub audio : AudioState
  pub video_detail : Bytes
  pub audio_detail : Bytes
  pub connector : Connector

pub record Inner : Type 0 where
  pub current : Projection
  pub published : Option Projection
  pub published_at_ms : ℕ
  pub sequence : ℕ
  pub directory_ready : Bool

-- The derived equalities.
abbrev pub same_connector : Connector → Connector → Bool
same_connector a b =
    equal a.name b.name && (equal a.drm_device b.drm_device && equal a.alsa_device b.alsa_device)

abbrev pub same_projection : Projection → Projection → Bool
same_projection a b =
    (video_code a.video == video_code b.video)
    && ((audio_code a.audio == audio_code b.audio)
        && (equal a.video_detail b.video_detail
            && (equal a.audio_detail b.audio_detail && same_connector a.connector b.connector)))

pub is_published : Option Projection → Projection → Bool
is_published none c = false
is_published (some p) c = same_projection p c

abbrev pub utf8_length : ℕ → ℕ
utf8_length c = if ltb c 0x80 then 1 else if ltb c 0x800 then 2 else if ltb c 0x10000 then 3 else 4

abbrev pub is_control : ℕ → Bool
is_control c = ltb c 0x20 || (leb 0x7f c && leb c 0x9f)

-- The loop of `sanitize_detail`, with the bytes that are written so far.
pub keep_whole : ℕ → Bytes → Bytes
keep_whole used [] = []
keep_whole used (c ∷ cs) =
    let kept = keep_whole (used + utf8_length c) cs in
    let skipped = keep_whole used cs in
    if not (is_control c) && leb (used + utf8_length c) detail_limit then c ∷ kept else skipped

-- The state that the document names, and the detail beside it.
pub record Document : Type 0 where
  pub degraded : Bool
  pub detail : Bytes
  pub projection : Projection

abbrev pub is_degraded : Projection → Bool
is_degraded c = (video_code c.video == 0) && (audio_code c.audio == 2)

abbrev pub document : Projection → Document
document c = record {
  degraded = is_degraded c;
  detail =
      if is_degraded c
      then (if length c.audio_detail == 0
          then codes "Video is playing but audio is unavailable."
          else c.audio_detail)
      else c.video_detail;
  projection = c;
}

pub data Which : Type 0 where
  of_video of_audio : Which

-- `Ok(true)` when the document was rewritten, `Ok(false)` when nothing changed.
pub data Report : Type 0 where
  rewritten unchanged refused : Report

module _ (trim : Bytes → Bytes) (replaces : Document → Bool) where
  abbrev pub sanitize_detail : Bytes → Bytes
  sanitize_detail text = trim (keep_whole 0 text)

  pub detailed : Which → Projection → Bytes → Projection
  detailed of_video c text = record c { video_detail = text }
  detailed of_audio c text = record c { audio_detail = text }

  pub slot : Which → Projection → Bytes
  slot of_video c = c.video_detail
  slot of_audio c = c.audio_detail

  pub update_detail : Projection → Which → Bool → Bytes → Connector → Projection
  update_detail c which state_changed detail connector =
      let connector_changed = not (same_connector c.connector connector) in
      if state_changed || connector_changed
      then (let c' = detailed which c (sanitize_detail detail) in
          if connector_changed then record c' { connector = connector } else c')
      else if not (equal (slot which c) detail)
      then detailed which c (sanitize_detail detail)
      else c

  -- `now` is the clock at the test, `later` the clock after the file is in place.
  pub publish : Inner → Bool → ℕ → ℕ → Inner × Report
  publish i force now later =
      if not force
        && (is_published i.published i.current && ltb (now - i.published_at_ms) heartbeat_ms)
      then (i, unchanged)
      else if replaces (document i.current)
      then (
        record i {
          directory_ready = true;
          sequence = i.sequence + 1;
          published = some i.current;
          published_at_ms = later;
        },
        rewritten,
      )
      else (i, refused)

  pub video_report : Inner → VideoState → Bytes → Connector → ℕ → ℕ → Inner × Report
  video_report i state detail connector now later =
      let changed = not (video_code i.current.video == video_code state) in
      let c =
        update_detail (record i.current { video = state }) of_video changed detail connector in
      publish (record i { current = c }) false now later

  pub audio_report : Inner → AudioState → Bytes → Connector → ℕ → ℕ → Inner × Report
  audio_report i state detail connector now later =
      let changed = not (audio_code i.current.audio == audio_code state) in
      let c =
        update_detail (record i.current { audio = state }) of_audio changed detail connector in
      publish (record i { current = c }) false now later

  pub heartbeat : Inner → Connector → ℕ → ℕ → Inner × Report
  heartbeat i connector now later =
      let c =
        (if same_connector i.current.connector connector
          then i.current
          else record i.current { connector = connector }) in
      publish (record i { current = c }) false now later

  pub stopped_report : Inner → Bytes → ℕ → ℕ → Inner × Report
  stopped_report i detail now later =
      let c : Projection = record {
        video = stopped;
        audio = silent;
        video_detail = sanitize_detail detail;
        audio_detail = [];
        connector = no_connector;
      } in
      publish (record i { current = c }) true now later
