-- ===== src/Controller/World/Streams.antt =====
-- The outside world under streams and gapless preparation (src-tauri/src/playback/controller.rs).
use transonic.Models.{PlaybackStreamInfo, SongResponse}
use transonic.Controller.State.{
  PlaybackBackendLoadRequest, Context, GaplessTrackTarget, PreparedGaplessTrackState, Env,
  preparing,
}
use transonic.Prelude.{Bool, Option, String, ℕ, some}
use transonic.Controller.Stream.{
  apply_stream_request, request_stream, request_raw_stream, load_or_prepare_stream_for_song,
  prepare_stream_for_song, load_stream_for_song,
}
use transonic.Controller.Gapless.{
  prepare_target, sync_gapless_for_current_track, try_activate_backend_prepared_track,
  activate_prepared_state, try_activate_prepared_gapless_track, confirm_generation,
  handle_gapless_prepared, handle_gapless_failed, enter_gapless_track, handle_gapless_transition,
}
use transonic.Controller.World.Status.{
  update_gapless_status-Leaves, clear_gapless_preparation-Leaves, current_entry-Leaves,
  report_entry-Leaves, sync_actual_stream_info_from_backend-Leaves,
}
use transonic.Controller.Exec.World.{Leaves, EnvLeaves, leaves_rules}

module _ {W : Type 0} ⦃env : Env W⦄ {Q : W → Type 0} where
  pub apply_stream_request-Leaves :
      EnvLeaves env Q
      → (a0 : PlaybackStreamInfo) (a1 : PlaybackBackendLoadRequest) (a2 : Bool)
      → Leaves Q (apply_stream_request a0 a1 a2)
  unfolding apply_stream_request
  apply_stream_request-Leaves k a0 a1 a2 = search (leaves_rules) depth 60

  pub request_stream-Leaves :
      EnvLeaves env Q
      → (a0 : Context) (a1 : SongResponse) (a2 : Bool) (a3 : Option String) (a4 : Option ℕ)
        (a5 : Option ℕ) (a6 : ℕ) (a7 : ℕ) (a8 : Bool) (a9 : Bool)
      → Leaves Q (request_stream a0 a1 a2 a3 a4 a5 a6 a7 a8 a9)
  unfolding request_stream
  request_stream-Leaves k a0 a1 a2 a3 a4 a5 a6 a7 a8 a9 =
      search (leaves_rules, apply_stream_request-Leaves) depth 60

  pub request_raw_stream-Leaves :
      EnvLeaves env Q
      → (a0 : Context) (a1 : SongResponse) (a2 : Option ℕ) (a3 : ℕ) (a4 : ℕ) (a5 : Bool) (a6 : Bool)
      → Leaves Q (request_raw_stream a0 a1 a2 a3 a4 a5 a6)
  unfolding request_raw_stream
  request_raw_stream-Leaves k a0 a1 a2 a3 a4 a5 a6 =
      search (leaves_rules, request_stream-Leaves) depth 60

  pub load_or_prepare_stream_for_song-Leaves :
      EnvLeaves env Q
      → (a0 : Context) (a1 : SongResponse) (a2 : ℕ) (a3 : Bool) (a4 : Bool)
      → Leaves Q (load_or_prepare_stream_for_song a0 a1 a2 a3 a4)
  unfolding load_or_prepare_stream_for_song
  load_or_prepare_stream_for_song-Leaves k a0 a1 a2 a3 a4 =
      search (leaves_rules, request_stream-Leaves, request_raw_stream-Leaves) depth 60

  pub prepare_stream_for_song-Leaves :
      EnvLeaves env Q
      → (a0 : Context) (a1 : SongResponse) → Leaves Q (prepare_stream_for_song a0 a1)
  unfolding prepare_stream_for_song
  prepare_stream_for_song-Leaves k a0 a1 =
      search (leaves_rules, load_or_prepare_stream_for_song-Leaves) depth 60

  pub prepare_target-Leaves :
      EnvLeaves env Q → (a0 : Context) (a1 : GaplessTrackTarget) → Leaves Q (prepare_target a0 a1)
  unfolding prepare_target
  prepare_target-Leaves k a0 a1 =
      search
        (
          leaves_rules, update_gapless_status-Leaves, clear_gapless_preparation-Leaves,
          prepare_stream_for_song-Leaves,
        )
        depth 60

  pub sync_gapless_for_current_track-Leaves :
      EnvLeaves env Q → (a0 : Option Context) → Leaves Q (sync_gapless_for_current_track a0)
  unfolding sync_gapless_for_current_track
  sync_gapless_for_current_track-Leaves k a0 =
      search (leaves_rules, clear_gapless_preparation-Leaves, prepare_target-Leaves) depth 60

  pub load_stream_for_song-Leaves :
      EnvLeaves env Q
      → (a0 : Context) (a1 : SongResponse) (a2 : ℕ) (a3 : Bool)
      → Leaves Q (load_stream_for_song a0 a1 a2 a3)
  unfolding load_stream_for_song
  load_stream_for_song-Leaves k a0 a1 a2 a3 =
      search (leaves_rules, load_or_prepare_stream_for_song-Leaves) depth 60

  pub try_activate_backend_prepared_track-Leaves :
      EnvLeaves env Q → (a0 : Bool) → Leaves Q (try_activate_backend_prepared_track a0)
  unfolding try_activate_backend_prepared_track
  try_activate_backend_prepared_track-Leaves k a0 =
      search (leaves_rules, update_gapless_status-Leaves, clear_gapless_preparation-Leaves) depth 60

  pub activate_prepared_state-Leaves :
      EnvLeaves env Q
      → (a0 : PreparedGaplessTrackState) (a1 : Bool) → Leaves Q (activate_prepared_state a0 a1)
  unfolding activate_prepared_state
  activate_prepared_state-Leaves k a0 a1 =
      search
        (leaves_rules, clear_gapless_preparation-Leaves, try_activate_backend_prepared_track-Leaves)
        depth 60

  pub try_activate_prepared_gapless_track-Leaves :
      EnvLeaves env Q
      → (a0 : ℕ) (a1 : SongResponse) (a2 : ℕ) (a3 : Bool)
      → Leaves Q (try_activate_prepared_gapless_track a0 a1 a2 a3)
  unfolding try_activate_prepared_gapless_track
  try_activate_prepared_gapless_track-Leaves k a0 a1 a2 a3 =
      search (leaves_rules, clear_gapless_preparation-Leaves, activate_prepared_state-Leaves) depth
        60

  pub confirm_generation-Leaves :
      EnvLeaves env Q
      → (a0 : Option PreparedGaplessTrackState) (a1 : ℕ) → Leaves Q (confirm_generation a0 a1)
  unfolding confirm_generation
  confirm_generation-Leaves k (some (preparing target current_generation)) generation =
      search (leaves_rules) depth 60
  confirm_generation-Leaves k _ generation = search (leaves_rules) depth 60

  pub handle_gapless_prepared-Leaves :
      EnvLeaves env Q → (a0 : ℕ) → Leaves Q (handle_gapless_prepared a0)
  unfolding handle_gapless_prepared
  handle_gapless_prepared-Leaves k a0 = search (leaves_rules, confirm_generation-Leaves) depth 60

  pub handle_gapless_failed-Leaves :
      EnvLeaves env Q → (a0 : ℕ) (a1 : String) → Leaves Q (handle_gapless_failed a0 a1)
  unfolding handle_gapless_failed
  handle_gapless_failed-Leaves k a0 a1 = search (leaves_rules) depth 60

  pub enter_gapless_track-Leaves :
      EnvLeaves env Q
      → (a0 : Option Context) (a1 : GaplessTrackTarget) (a2 : SongResponse)
      → Leaves Q (enter_gapless_track a0 a1 a2)
  unfolding enter_gapless_track
  enter_gapless_track-Leaves k a0 a1 a2 =
      search
        (
          leaves_rules, current_entry-Leaves, report_entry-Leaves,
          sync_actual_stream_info_from_backend-Leaves, sync_gapless_for_current_track-Leaves,
        )
        depth 60

  pub handle_gapless_transition-Leaves :
      EnvLeaves env Q → (a0 : Option Context) → Leaves Q (handle_gapless_transition a0)
  unfolding handle_gapless_transition
  handle_gapless_transition-Leaves k a0 =
      search (leaves_rules, clear_gapless_preparation-Leaves, enter_gapless_track-Leaves) depth 60
