-- ===== src/Status/Fresh.antt =====
-- What a report leaves: the published projection is the current one, and a detail fits its limit.
use rpi_omt_client.Prelude.{
  ℕ, ◌+◌, ◌≤◌, ◌≡◌, ◌≢◌, refl, ap, sym, ◌∙◌, Bool, true, ◌&&◌, Option, none, some, [], ◌∷◌, arith,
  ◌==◌, if◌then◌else◌, equal, equal→eq, ==_iff, Bytes,
}
use rpi_omt_client.Status.{
  Projection, Inner, Document, Connector, refused, publish, is_published, same_projection,
  same_connector, keep_whole, detail_limit, utf8_length, VideoState, AudioState, video_code,
  audio_code, running, waiting_for_discovery, waiting_for_hdmi, retrying, unsupported_format,
  starting, stopped, silent, playing, failed,
}

-- The length of a text in UTF-8.
unfoldable pub utf8_total : Bytes → ℕ
utf8_total [] = 0
utf8_total (c ∷ cs) = utf8_length c + utf8_total cs

-- The characters that the detail filter keeps of any text, after some bytes that are within the
-- limit, have a length in UTF-8 that together with those bytes is within the limit.
pub keep_whole-fits :
    (used : ℕ) (text : Bytes)
    → used ≤ detail_limit
    → used + utf8_total (keep_whole used text) ≤ detail_limit
unfolding keep_whole utf8_total
keep_whole-fits used [] h = omega (arith, h)
keep_whole-fits used (c ∷ cs) h =
    ground (arith, keep_whole-fits (used + utf8_length c) cs, keep_whole-fits used cs h)

video_of : ℕ → VideoState
video_of n =
    if n == 0
    then running
    else if n == 1
    then waiting_for_discovery
    else if n == 2
    then waiting_for_hdmi
    else if n == 3
    then retrying
    else if n == 4
    then unsupported_format
    else if n == 5
    then starting
    else stopped

video_of-code : (v : VideoState) → video_of (video_code v) ≡ v
unfolding video_of
video_of-code running = refl
video_of-code waiting_for_discovery = refl
video_of-code waiting_for_hdmi = refl
video_of-code retrying = refl
video_of-code unsupported_format = refl
video_of-code starting = refl
video_of-code stopped = refl

same_video : (a b : VideoState) → video_code a ≡ video_code b → a ≡ b
same_video a b h = sym (video_of-code a) ∙ ap video_of h ∙ video_of-code b

audio_of : ℕ → AudioState
audio_of n = if n == 0 then silent else if n == 1 then playing else failed

audio_of-code : (a : AudioState) → audio_of (audio_code a) ≡ a
unfolding audio_of
audio_of-code silent = refl
audio_of-code playing = refl
audio_of-code failed = refl

same_audio : (a b : AudioState) → audio_code a ≡ audio_code b → a ≡ b
same_audio a b h = sym (audio_of-code a) ∙ ap audio_of h ∙ audio_of-code b

and_left : (a b : Bool) → (a && b) ≡ true → a ≡ true
and_left a b h = ground arith

and_right : (a b : Bool) → (a && b) ≡ true → b ≡ true
and_right a b h = ground arith

same_connector_sound : (a b : Connector) → same_connector a b ≡ true → a ≡ b
same_connector_sound a b h =
    let devices = and_right (equal a.name b.name) _ h in
    let name = equal→eq a.name b.name (and_left _ _ h) in
    let drm = equal→eq a.drm_device b.drm_device (and_left _ _ devices) in
    let alsa = equal→eq a.alsa_device b.alsa_device (and_right _ _ devices) in cc

same_projection_sound : (a b : Projection) → same_projection a b ≡ true → a ≡ b
same_projection_sound a b h =
    let h1 = and_right (video_code a.video == video_code b.video) _ h in
    let h2 = and_right (audio_code a.audio == audio_code b.audio) _ h1 in
    let h3 = and_right (equal a.video_detail b.video_detail) _ h2 in
    let v = same_video a.video b.video ((==_iff _ _).0 (and_left _ _ h)) in
    let s = same_audio a.audio b.audio ((==_iff _ _).0 (and_left _ _ h1)) in
    let vd = equal→eq a.video_detail b.video_detail (and_left _ _ h2) in
    let ad = equal→eq a.audio_detail b.audio_detail (and_left _ _ h3) in
    let c = same_connector_sound a.connector b.connector (and_right _ _ h3) in cc

is_published_sound : (o : Option Projection) (c : Projection) → is_published o c ≡ true → o ≡ some c
unfolding is_published
is_published_sound none c h = cc
is_published_sound (some p) c h = ap some (same_projection_sound p c h)

module _ (trim : Bytes → Bytes) (replaces : Document → Bool) where
  -- Whenever a publication is not refused, forced or not and at any clock values, the projection
  -- that is published afterwards is the current one, also when nothing was written.
  pub publish-shows :
      (i : Inner) (force : Bool) (now later : ℕ)
      → (publish trim replaces i force now later).1 ≢ refused
      → (publish trim replaces i force now later).0.published
        ≡ some (publish trim replaces i force now later).0.current
  unfolding publish
  publish-shows i force now later h = ground (arith, is_published_sound i.published i.current)
