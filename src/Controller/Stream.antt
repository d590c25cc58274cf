-- ===== src/Controller/Stream.antt =====
-- Building a stream request for a song and handing it to the backend, with the fallback from the raw
-- stream (`load_or_prepare_stream_for_song` of src-tauri/src/playback/controller.rs).
use transonic.Prelude.{
  ℕ, String, Bool, true, false, ◌&&◌, ◌||◌, Option, none, some, List, [], ◌∷◌, ◌==◌, if◌then◌else◌,
}
use transonic.Result.{Result}
use transonic.Text.{format}
use transonic.Models.{
  SongResponse, PlaybackStreamInfo, raw, transcoding, PlaybackTranscodingCodec, auto, mp3,
  PlaybackStreamRequestKind, load, prepare, mode_eq, codec_eq, stream_format,
}
use transonic.Controller.State.{Env, Context, Url, PlaybackBackendLoadRequest}
use transonic.Controller.Exec.{
  Exec, pure, raise, lift, gets, attempt, call, peek, modify, ◌>>=◌, ◌>>◌, if_some, on_result,
}
use transonic.Controller.Helpers.{
  is_output_device_load_error, stream_request_endpoint, redacted_stream_url,
}
use transonic.Controller.Status.{with_status}

abbrev pub has_codec : List PlaybackTranscodingCodec → PlaybackTranscodingCodec → Bool
has_codec [] codec = false
has_codec (x ∷ codecs) codec = codec_eq x codec || has_codec codecs codec

unfoldable pub supported_transcoding_codec :
    List PlaybackTranscodingCodec → PlaybackTranscodingCodec → PlaybackTranscodingCodec
supported_transcoding_codec codecs requested =
    if codec_eq requested auto || has_codec codecs requested
    then requested
    else if has_codec codecs mp3
    then mp3
    else auto

abbrev pub when_hinted : Bool → Option String → Option String
when_hinted true hint = hint
when_hinted false hint = none

unfoldable pub build_backend_load_request :
    SongResponse → Url → Bool → ℕ → ℕ → Bool → PlaybackBackendLoadRequest
build_backend_load_request entry request use_source_media_type_hint absolute_ms local_ms autoplay =
    record {
      request = request;
      media_id = entry.id;
      title = entry.title;
      artist = entry.artist;
      album = entry.album;
      source_content_type = when_hinted use_source_media_type_hint entry.content_type;
      source_suffix = when_hinted use_source_media_type_hint entry.suffix;
      artwork_path = none;
      absolute_start_position_ms = absolute_ms;
      local_start_position_ms = local_ms;
      autoplay = autoplay;
    }

abbrev pub request_kind_of : Bool → PlaybackStreamRequestKind
request_kind_of true = prepare
request_kind_of false = load

-- "prepare" or "load", in the messages.
abbrev pub verb : Bool → String
verb true = "prepare"
verb false = "load"

module _ {W : Type 0} ⦃env : Env W⦄ where
  unfoldable pub apply_stream_request :
      PlaybackStreamInfo → PlaybackBackendLoadRequest → Bool → Exec W (Option ℕ)
  apply_stream_request stream_info request prepare_only = do
    modify (with_status λ st. record st { last_stream_request = some stream_info })
    if prepare_only
        then (do
          generation ← call (env.prepare request)
          modify (with_status λ st. record st { prepared_stream_info = some stream_info })
          pure (some generation))
        else do
          call (env.load request)
          modify (
              with_status λ st. record st {
                active_stream_info = some stream_info;
                prepared_stream_info = none;
              })
          pure none

  -- One attempt: build the request, describe it, and hand it to the backend. `build_stream_request` may
  -- fail by itself, and its error is not that of the backend.
  unfoldable pub request_stream :
      Context
      → SongResponse
      → Bool
      → Option String
      → Option ℕ
      → Option ℕ
      → ℕ
      → ℕ
      → Bool
      → Bool
      → Exec W (Result (Option ℕ))
  request_stream context entry raw_stream format' max_bit_rate offset requested_ms local_ms autoplay
        prepare_only =
      do
        mode ← gets (λ c. c.stream_mode)
        estimate ← peek (env.should_estimate_content_length mode raw_stream)
        url ← lift (
            context.client_stream (record {
              id = entry.id;
              max_bit_rate = max_bit_rate;
              format = format';
              time_offset = offset;
              estimate_content_length = if estimate then some true else none;
            }))
        attempt (
            apply_stream_request
              (record {
                request_kind = request_kind_of prepare_only;
                song_id = entry.id;
                song_path = entry.path;
                source_content_type = entry.content_type;
                source_suffix = entry.suffix;
                source_bit_rate = entry.bit_rate;
                source_size = entry.size;
                stream_mode = mode;
                raw_stream = raw_stream;
                stream_format = format';
                stream_max_bit_rate = max_bit_rate;
                stream_offset_seconds = offset;
                requested_position_ms = requested_ms;
                local_start_position_ms = local_ms;
                autoplay = autoplay;
                stream_endpoint = stream_request_endpoint url;
                stream_url = redacted_stream_url url;
              })
              (build_backend_load_request entry url raw_stream requested_ms local_ms autoplay)
              prepare_only)

  unfoldable pub request_raw_stream :
      Context → SongResponse → Option ℕ → ℕ → ℕ → Bool → Bool → Exec W (Option ℕ)
  request_raw_stream context entry offset requested_ms local_ms autoplay prepare_only = do
    raw_result ←
        request_stream context entry true (some "raw") none offset requested_ms local_ms autoplay
          prepare_only
    on_result raw_result pure λ raw_error.
        if is_output_device_load_error raw_error
        then raise
            (format ("Failed to " ∷ verb prepare_only ∷ " playback stream: " ∷ raw_error ∷ []))
        else do
          fallback_result ←
              request_stream context entry false none none offset requested_ms local_ms autoplay
                prepare_only
          on_result fallback_result pure λ fallback_error. raise (
              format (
                "Failed to "
                ∷ verb prepare_only
                ∷ " playback stream. raw stream failed: "
                ∷ raw_error
                ∷ "; fallback stream failed: "
                ∷ fallback_error
                ∷ []))

  unfoldable pub load_or_prepare_stream_for_song :
      Context → SongResponse → ℕ → Bool → Bool → Exec W (Option ℕ)
  load_or_prepare_stream_for_song context entry requested_ms autoplay prepare_only = do
    strategy ← peek (env.plan_load requested_ms context.transcode_offset)
    mode ← gets (λ c. c.stream_mode)
    bit_rate ← gets (λ c. c.transcoding_max_bit_rate)
    codec ← gets (λ c.
        supported_transcoding_codec c.playback_capabilities.transcoding_codecs c.transcoding_codec)
    if requested_ms == 0 && mode_eq mode raw
        then request_raw_stream context entry strategy.stream_offset_seconds requested_ms
            strategy.local_start_position_ms autoplay prepare_only
        else do
          result ←
              request_stream context entry false
                (if mode_eq mode transcoding then stream_format codec else none)
                (if mode_eq mode transcoding then some bit_rate else none)
                strategy.stream_offset_seconds requested_ms strategy.local_start_position_ms
                autoplay prepare_only
          on_result result pure
              λ e. raise (format ("Failed to " ∷ verb prepare_only ∷ " playback stream: " ∷ e ∷ []))

  unfoldable pub load_stream_for_song : Context → SongResponse → ℕ → Bool → Exec W (Unit {0})
  load_stream_for_song context entry requested_ms autoplay = do
    _ ← load_or_prepare_stream_for_song context entry requested_ms autoplay false
    pure tt

  unfoldable pub prepare_stream_for_song : Context → SongResponse → Exec W ℕ
  prepare_stream_for_song context entry = do
    generation ← load_or_prepare_stream_for_song context entry 0 false true
    if_some generation pure (raise "Missing gapless generation.")
