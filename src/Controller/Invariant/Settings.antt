-- ===== src/Controller/Invariant/Settings.antt =====
-- Coherence of the queue under the settings, the profile and the shared state of Connect (src-tauri/src/playback/controller.rs).
use transonic.Prelude.{ℕ, ◌&&◌, if◌then◌else◌, refl, String, Bool, Option, none, some, length}
use mathlib.Core.Option
use transonic.Models.{
  ConnectPlaybackState, PlayingState, idle, playing, paused, stopped, interrupted, error,
  PlaybackStreamMode, PlaybackTranscodingCodec, is_loaded,
}
use transonic.Controller.State.{Env, Context}
use transonic.Controller.Exec.{Exec, pure, modify, gets, if_some, when, ignore, ◌>>=◌, ◌>>◌}
use transonic.Controller.Exec.Keeps.{Keeps, Keeps-modify, keeps_rules}
use transonic.Controller.Exec.From.{From-lift, From-keeps, Keeps-from}
use transonic.Controller.Helpers.{validate_queue_index, clamp_play_next_queue_len, current_song_id}
use transonic.Controller.Status.{with_status, sync_current_position_from_backend}
use transonic.Controller.Settings.{
  PlaybackArtworkUpdateTarget, leave_profile, set_active_profile_id, defer_state_restore,
  refresh_gapless, set_gapless_playback_enabled, set_stream_settings, update_artwork_if_current,
  roll_back_output_device, fail_device_reload, reload_on_device, select_output_device,
  finish_output_device, change_output_device, set_output_device,
}
use transonic.Controller.Shared.{
  shared_queue, should_preserve_active_track_for_shared_state, preserve_active_track, take_over,
  adopt_empty_queue, adopt_shared_state, apply_connect_shared_state,
}
use transonic.Controller.Frame.{OnQueue}
use transonic.Controller.Frame.Inert.{
  report_status-Keeps, state-Keeps, clear_gapless_preparation-Keeps, clear_native_events-Keeps,
  clear_server_reporting-Keeps, sync_queue_state-Keeps, persist_state-Keeps,
  reset_output_stream_recovery_attempts-Keeps, sync_current_position_from_backend-Keeps,
  clear_actual_stream_info-Keeps, sync_actual_stream_info_from_backend-Keeps,
}
use transonic.Controller.Frame.GaplessInert.{sync_gapless_for_current_track-Keeps}
use transonic.Controller.Frame.QueueInert.{
  finish_queue_change-Keeps, clear_errors-Keeps, set_playing_state-Keeps,
}
use transonic.Controller.Invariant.{IndexInRange, Coherent}
use transonic.Controller.Invariant.Loads.{reload_track_at_index_exact-Coherent}
use transonic.Controller.Invariant.Queue.{clamped-le, validate_queue_index-IndexInRange}
use transonic.Controller.Invariant.Transport.{
  ensure_bind, play-Coherent, pause_with_context-Coherent,
}

module _ {W : Type 0} ⦃env : Env W⦄ where
  abbrev Kept : {A : Type 0} → Exec W A → Type 0
  Kept m = Keeps (OnQueue Coherent) m

  leave_profile-Coherent : (profile_id : Option String) → Kept (leave_profile profile_id)
  unfolding leave_profile
  leave_profile-Coherent profile_id =
      search (keeps_rules, clear_gapless_preparation-Keeps, clear_server_reporting-Keeps) depth 40

  pub set_active_profile_id-Coherent :
      (profile_id : Option String) → Kept (set_active_profile_id profile_id)
  unfolding set_active_profile_id
  set_active_profile_id-Coherent profile_id =
      search (keeps_rules, Keeps-modify, leave_profile-Coherent) depth 40

  pub defer_state_restore-Coherent : (profile_id : String) → Kept (defer_state_restore profile_id)
  unfolding defer_state_restore
  defer_state_restore-Coherent profile_id =
      search (keeps_rules, Keeps-modify, leave_profile-Coherent) depth 40

  refresh_gapless-Coherent : (context : Option Context) → Kept (refresh_gapless context)
  unfolding refresh_gapless
  refresh_gapless-Coherent context =
      search (keeps_rules, sync_gapless_for_current_track-Keeps, report_status-Keeps) depth 40

  pub set_gapless_playback_enabled-Coherent :
      (enabled : Bool) (context : Option Context)
      → Kept (set_gapless_playback_enabled enabled context)
  unfolding set_gapless_playback_enabled
  set_gapless_playback_enabled-Coherent enabled context =
      search (keeps_rules, Keeps-modify, refresh_gapless-Coherent) depth 40

  pub set_stream_settings-Coherent :
      (mode : PlaybackStreamMode) (rate : ℕ) (codec : PlaybackTranscodingCodec)
      (context : Option Context)
      → Kept (set_stream_settings mode rate codec context)
  unfolding set_stream_settings
  set_stream_settings-Coherent mode rate codec context =
      search (keeps_rules, Keeps-modify, clear_gapless_preparation-Keeps, refresh_gapless-Coherent)
        depth 40

  pub update_artwork_if_current-Coherent :
      (target : PlaybackArtworkUpdateTarget) (path : String)
      → Kept (update_artwork_if_current target path)
  unfolding update_artwork_if_current
  update_artwork_if_current-Coherent target path = search (keeps_rules) depth 40

  roll_back-Coherent :
      (previous : Option String) (message : String)
      → Kept (roll_back_output_device previous message)
  unfolding roll_back_output_device
  roll_back-Coherent previous message = search (keeps_rules, Keeps-modify) depth 40

  fail_device_reload-Coherent :
      (previous : Option String) (position_ms : ℕ) (message : String)
      → Kept (fail_device_reload previous position_ms message)
  unfolding fail_device_reload
  fail_device_reload-Coherent previous position_ms message =
      search
        (
          keeps_rules, Keeps-modify, clear_gapless_preparation-Keeps, clear_server_reporting-Keeps,
          report_status-Keeps,
        )
        depth 40

  reload_on_device-Coherent :
      (previous : Option String) (context : Context) (index position_ms : ℕ) (autoplay : Bool)
      → Kept (reload_on_device previous context index position_ms autoplay)
  unfolding reload_on_device
  reload_on_device-Coherent previous context index position_ms autoplay =
      search
        (
          keeps_rules, clear_native_events-Keeps, clear_server_reporting-Keeps,
          clear_actual_stream_info-Keeps, reload_track_at_index_exact-Coherent,
          fail_device_reload-Coherent, roll_back-Coherent,
        )
        depth 40

  select_output_device-Coherent : (device : Option String) → Kept (select_output_device device)
  unfolding select_output_device
  select_output_device-Coherent device =
      search (keeps_rules, Keeps-modify, clear_gapless_preparation-Keeps) depth 40

  finish_output_device-Coherent : Kept finish_output_device
  unfolding finish_output_device
  finish_output_device-Coherent =
      search
        (
          keeps_rules, reset_output_stream_recovery_attempts-Keeps, persist_state-Keeps,
          report_status-Keeps,
        )
        depth 40

  change_output_device-Coherent :
      (device : Option String) (context : Option Context)
      → Kept (change_output_device device context)
  unfolding change_output_device
  change_output_device-Coherent device context =
      search
        (
          keeps_rules, ensure_bind, sync_current_position_from_backend-Keeps,
          select_output_device-Coherent, reload_on_device-Coherent, finish_output_device-Coherent,
        )
        depth 60

  pub set_output_device-Coherent :
      (device : Option String) (context : Option Context) → Kept (set_output_device device context)
  unfolding set_output_device
  set_output_device-Coherent device context =
      search (keeps_rules, change_output_device-Coherent) depth 40

  -- The shared queue is coherent where its index is in range.
  adopt_queue-Coherent :
      (shared : ConnectPlaybackState)
      → IndexInRange shared.queue shared.current_index
      → Kept (modify (with_status (shared_queue shared)))
  unfolding shared_queue clamp_play_next_queue_len
  adopt_queue-Coherent shared r = Keeps-modify _ (λ c _.
      (r, clamped-le (length shared.queue) shared.current_index shared.play_next_queue_len, refl))

  adopt_position-Coherent :
      (shared : ConnectPlaybackState)
      → IndexInRange shared.queue shared.current_index
      → Kept (
          modify (
            with_status λ st. record (shared_queue shared st) {
              current_position_ms = shared.current_position_ms;
            }))
  unfolding shared_queue clamp_play_next_queue_len
  adopt_position-Coherent shared r = Keeps-modify _ (λ c _.
      (r, clamped-le (length shared.queue) shared.current_index shared.play_next_queue_len, refl))

  preserve_active_track-Coherent :
      (context : Option Context) (shared : ConnectPlaybackState)
      → IndexInRange shared.queue shared.current_index
      → Kept (preserve_active_track context shared)
  unfolding preserve_active_track
  preserve_active_track-Coherent context shared r =
      search
        (
          keeps_rules, clear_gapless_preparation-Keeps, adopt_queue-Coherent,
          set_playing_state-Keeps, clear_errors-Keeps, sync_gapless_for_current_track-Keeps,
          finish_queue_change-Keeps,
        )
        depth 40

  take_over-Coherent :
      (context : Option Context) (playing_state : PlayingState)
      → Kept (take_over context playing_state)
  unfolding take_over
  take_over-Coherent context playing = search (keeps_rules, play-Coherent) depth 20
  take_over-Coherent context paused =
      search (keeps_rules, play-Coherent, pause_with_context-Coherent) depth 20
  take_over-Coherent context stopped =
      search (keeps_rules, set_playing_state-Keeps, report_status-Keeps, state-Keeps) depth 20
  take_over-Coherent context idle =
      search (keeps_rules, set_playing_state-Keeps, report_status-Keeps, state-Keeps) depth 20
  take_over-Coherent context interrupted =
      search (keeps_rules, set_playing_state-Keeps, report_status-Keeps, state-Keeps) depth 20
  take_over-Coherent context error =
      search (keeps_rules, set_playing_state-Keeps, report_status-Keeps, state-Keeps) depth 20

  no_entry : Kept (
      modify (
        with_status λ st. record st {
          playing_state = idle;
          current_index = none;
          current_song_id = none;
          current_position_ms = 0;
        }))
  unfolding current_song_id
  no_entry = Keeps-modify _ (λ c h. (tt, h.1, refl))

  adopt_empty_queue-Coherent : Kept adopt_empty_queue
  unfolding adopt_empty_queue
  adopt_empty_queue-Coherent = search (keeps_rules, no_entry, finish_queue_change-Keeps) depth 20

  adopt_shared_state-Coherent :
      (context : Option Context) (shared : ConnectPlaybackState) (active : Bool)
      → IndexInRange shared.queue shared.current_index
      → Kept (adopt_shared_state context shared active)
  unfolding adopt_shared_state
  adopt_shared_state-Coherent context shared active r =
      search
        (
          keeps_rules, clear_gapless_preparation-Keeps, clear_server_reporting-Keeps,
          clear_native_events-Keeps, adopt_position-Coherent, clear_errors-Keeps,
          sync_actual_stream_info_from_backend-Keeps, adopt_empty_queue-Coherent,
          set_playing_state-Keeps, finish_queue_change-Keeps, sync_queue_state-Keeps,
          persist_state-Keeps, take_over-Coherent,
        )
        depth 60

  adopt :
      (context : Option Context) (shared : ConnectPlaybackState) (active preserve : Bool)
      → IndexInRange shared.queue shared.current_index
      → Kept (do
        if_some
            (Option.bind context (λ ctx. ctx.profile_id))
            (λ profile_id. set_active_profile_id (some profile_id))
            (pure tt)
        playing_state ← gets (λ c. c.status.playing_state)
        when (is_loaded playing_state) (ignore sync_current_position_from_backend)
        status ← gets (λ c. c.status)
        if preserve && should_preserve_active_track_for_shared_state status shared active
            then preserve_active_track context shared
            else adopt_shared_state context shared active)
  adopt context shared active preserve r =
      search
        (
          keeps_rules, set_active_profile_id-Coherent, sync_current_position_from_backend-Keeps,
          preserve_active_track-Coherent, adopt_shared_state-Coherent,
        )
        depth 60

  pub apply_connect_shared_state-Coherent :
      (context : Option Context) (shared : ConnectPlaybackState) (active preserve : Bool)
      → Kept (apply_connect_shared_state context shared active preserve)
  unfolding apply_connect_shared_state
  apply_connect_shared_state-Coherent context shared active preserve = Keeps-from _ (
      From-lift (validate_queue_index shared.queue shared.current_index) _
        (λ u e.
          From-keeps _ (λ c h. h)
            (adopt context shared active preserve
              (validate_queue_index-IndexInRange shared.queue shared.current_index u e)))
        (λ c h. h))
