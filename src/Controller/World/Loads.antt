-- ===== src/Controller/World/Loads.antt =====
-- The outside world under loading and reloading (src-tauri/src/playback/controller.rs).
use transonic.Prelude.{ℕ, Bool, String}
use transonic.Controller.Load.{
  entry_at, activate_or_load, begin_load, fail_load, finish_load, load_track_at_index, begin_reload,
  finish_reload, reload_track_at_index_exact,
}
use transonic.Controller.State.{Context, Env}
use transonic.Models.{SongResponse}
use transonic.Controller.World.Status.{
  clear_gapless_preparation-Leaves, report_status-Leaves, clear_native_events-Leaves,
  clear_server_reporting-Leaves, reset_output_stream_recovery_attempts-Leaves,
  report_server_playback_state-Leaves, replace_actual_stream_info_from_backend-Leaves,
}
use transonic.Controller.World.Streams.{
  load_stream_for_song-Leaves, try_activate_prepared_gapless_track-Leaves,
  sync_gapless_for_current_track-Leaves,
}
use transonic.Controller.Exec.World.{Leaves, EnvLeaves, leaves_rules}

module _ {W : Type 0} ⦃env : Env W⦄ {Q : W → Type 0} where
  pub entry_at-Leaves : EnvLeaves env Q → (a0 : ℕ) → Leaves Q (entry_at a0)
  unfolding entry_at
  entry_at-Leaves k a0 = search (leaves_rules) depth 60

  pub activate_or_load-Leaves :
      EnvLeaves env Q
      → (a0 : Context) (a1 : ℕ) (a2 : SongResponse) (a3 : ℕ) (a4 : Bool)
      → Leaves Q (activate_or_load a0 a1 a2 a3 a4)
  unfolding activate_or_load
  activate_or_load-Leaves k a0 a1 a2 a3 a4 =
      search
        (
          leaves_rules, clear_gapless_preparation-Leaves, load_stream_for_song-Leaves,
          try_activate_prepared_gapless_track-Leaves,
        )
        depth 60

  pub begin_load-Leaves :
      EnvLeaves env Q → (a0 : ℕ) (a1 : SongResponse) (a2 : ℕ) → Leaves Q (begin_load a0 a1 a2)
  unfolding begin_load
  begin_load-Leaves k a0 a1 a2 =
      search (leaves_rules, report_status-Leaves, clear_native_events-Leaves) depth 60

  pub fail_load-Leaves : EnvLeaves env Q → (a0 : String) → Leaves Q (fail_load a0)
  unfolding fail_load
  fail_load-Leaves k a0 =
      search (leaves_rules, report_status-Leaves, clear_server_reporting-Leaves) depth 60

  pub finish_load-Leaves :
      EnvLeaves env Q
      → (a0 : Context) (a1 : SongResponse) (a2 : ℕ) (a3 : Bool) → Leaves Q (finish_load a0 a1 a2 a3)
  unfolding finish_load
  finish_load-Leaves k a0 a1 a2 a3 =
      search
        (
          leaves_rules, clear_native_events-Leaves, reset_output_stream_recovery_attempts-Leaves,
          report_server_playback_state-Leaves, replace_actual_stream_info_from_backend-Leaves,
          sync_gapless_for_current_track-Leaves,
        )
        depth 60

  pub load_track_at_index-Leaves :
      EnvLeaves env Q
      → (a0 : Context) (a1 : ℕ) (a2 : ℕ) (a3 : Bool) → Leaves Q (load_track_at_index a0 a1 a2 a3)
  unfolding load_track_at_index
  load_track_at_index-Leaves k a0 a1 a2 a3 =
      search
        (
          leaves_rules, report_server_playback_state-Leaves, entry_at-Leaves,
          activate_or_load-Leaves, begin_load-Leaves, fail_load-Leaves, finish_load-Leaves,
        )
        depth 60

  pub begin_reload-Leaves :
      EnvLeaves env Q → (a0 : ℕ) (a1 : SongResponse) (a2 : ℕ) → Leaves Q (begin_reload a0 a1 a2)
  unfolding begin_reload
  begin_reload-Leaves k a0 a1 a2 =
      search (leaves_rules, report_status-Leaves, clear_native_events-Leaves) depth 60

  pub finish_reload-Leaves :
      EnvLeaves env Q
      → (a0 : Context) (a1 : ℕ) (a2 : SongResponse) (a3 : ℕ) (a4 : Bool)
      → Leaves Q (finish_reload a0 a1 a2 a3 a4)
  unfolding finish_reload
  finish_reload-Leaves k a0 a1 a2 a3 a4 =
      search
        (
          leaves_rules, clear_native_events-Leaves, reset_output_stream_recovery_attempts-Leaves,
          report_server_playback_state-Leaves, sync_gapless_for_current_track-Leaves,
        )
        depth 60

  pub reload_track_at_index_exact-Leaves :
      EnvLeaves env Q
      → (a0 : Context) (a1 : ℕ) (a2 : ℕ) (a3 : Bool)
      → Leaves Q (reload_track_at_index_exact a0 a1 a2 a3)
  unfolding reload_track_at_index_exact
  reload_track_at_index_exact-Leaves k a0 a1 a2 a3 =
      search
        (
          leaves_rules, report_status-Leaves, clear_server_reporting-Leaves,
          report_server_playback_state-Leaves, load_stream_for_song-Leaves, entry_at-Leaves,
          begin_reload-Leaves, finish_reload-Leaves,
        )
        depth 60
