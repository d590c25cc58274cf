-- ===== src/Controller/Frame/Inert.antt =====
-- The methods that write none of the queue's fields.
use transonic.Prelude.{ℕ, String, Bool, Option}
use transonic.Models.{SongResponse, PlaybackStreamInfo}
use transonic.Controller.State.{Env, Context, PlaybackBackendLoadRequest, ServerPlaybackState}
use transonic.Controller.Exec.{Exec}
use transonic.Controller.Exec.Keeps.{Keeps, Keeps-modify, keeps_rules}
use transonic.Controller.Frame.{QueuePredicate, OnQueue}
use transonic.Controller.Status.{
  update_gapless_status, refresh_derived_status, report_status, state, clear_gapless_preparation,
  clear_native_events, clear_server_reporting, sync_queue_state, persist_state,
  reset_output_stream_recovery_attempts, confirm_pending_seek, report_server_playback_state,
  current_entry, report_entry, report_current_server_playback_stopped,
  sync_current_position_from_backend, sync_current_position_for_queue_mutation,
  clear_actual_stream_info, sync_actual_stream_info_from_backend,
  replace_actual_stream_info_from_backend, transition_to_stopped_end_of_queue,
  transition_to_playback_error, stop_backend_after_output_stream_error,
}
use transonic.Controller.Stream.{
  apply_stream_request, request_stream, request_raw_stream, load_or_prepare_stream_for_song,
  load_stream_for_song, prepare_stream_for_song,
}

module _ (Q : QueuePredicate) {W : Type 0} ⦃env : Env W⦄ where
  abbrev Inert : {A : Type 0} → Exec W A → Type 0
  Inert m = Keeps (OnQueue Q) m

  pub update_gapless_status-Keeps : Inert update_gapless_status
  unfolding update_gapless_status
  update_gapless_status-Keeps = search (keeps_rules, Keeps-modify) depth 40

  pub refresh_derived_status-Keeps : Inert refresh_derived_status
  unfolding refresh_derived_status
  refresh_derived_status-Keeps =
      search (keeps_rules, Keeps-modify, update_gapless_status-Keeps) depth 40

  pub report_status-Keeps : Inert report_status
  unfolding report_status
  report_status-Keeps = search (keeps_rules, refresh_derived_status-Keeps) depth 40

  pub state-Keeps : Inert state
  unfolding state
  state-Keeps = search (keeps_rules, refresh_derived_status-Keeps) depth 40

  pub clear_gapless_preparation-Keeps : Inert clear_gapless_preparation
  unfolding clear_gapless_preparation
  clear_gapless_preparation-Keeps =
      search (keeps_rules, Keeps-modify, update_gapless_status-Keeps) depth 40

  pub clear_native_events-Keeps : Inert clear_native_events
  unfolding clear_native_events
  clear_native_events-Keeps = search (keeps_rules) depth 40

  pub clear_server_reporting-Keeps : Inert clear_server_reporting
  unfolding clear_server_reporting
  clear_server_reporting-Keeps = search (keeps_rules) depth 40

  pub sync_queue_state-Keeps : Inert sync_queue_state
  unfolding sync_queue_state
  sync_queue_state-Keeps = search (keeps_rules) depth 40

  pub persist_state-Keeps : Inert persist_state
  unfolding persist_state
  persist_state-Keeps = search (keeps_rules) depth 40

  pub reset_output_stream_recovery_attempts-Keeps : Inert reset_output_stream_recovery_attempts
  unfolding reset_output_stream_recovery_attempts
  reset_output_stream_recovery_attempts-Keeps = search (keeps_rules, Keeps-modify) depth 40

  pub confirm_pending_seek-Keeps : Inert confirm_pending_seek
  unfolding confirm_pending_seek
  confirm_pending_seek-Keeps = search (keeps_rules, Keeps-modify) depth 40

  pub report_server_playback_state-Keeps :
      (context : Context) (entry : SongResponse) (position_ms : ℕ) (reported : ServerPlaybackState)
      → Inert (report_server_playback_state context entry position_ms reported)
  unfolding report_server_playback_state
  report_server_playback_state-Keeps context entry position_ms reported =
      search (keeps_rules) depth 40

  pub current_entry-Keeps : Inert current_entry
  unfolding current_entry
  current_entry-Keeps = search (keeps_rules) depth 40

  pub report_entry-Keeps :
      (context : Option Context) (entry : Option SongResponse) (position_ms : ℕ)
      (reported : ServerPlaybackState)
      → Inert (report_entry context entry position_ms reported)
  unfolding report_entry
  report_entry-Keeps context entry position_ms reported =
      search (keeps_rules, report_server_playback_state-Keeps) depth 40

  pub report_current_server_playback_stopped-Keeps :
      (context : Context) (position_ms : ℕ)
      → Inert (report_current_server_playback_stopped context position_ms)
  unfolding report_current_server_playback_stopped
  report_current_server_playback_stopped-Keeps context position_ms =
      search (keeps_rules, current_entry-Keeps, report_entry-Keeps) depth 40

  pub sync_current_position_from_backend-Keeps : Inert sync_current_position_from_backend
  unfolding sync_current_position_from_backend
  sync_current_position_from_backend-Keeps = search (keeps_rules, Keeps-modify) depth 40

  pub sync_current_position_for_queue_mutation-Keeps :
      Inert sync_current_position_for_queue_mutation
  unfolding sync_current_position_for_queue_mutation
  sync_current_position_for_queue_mutation-Keeps =
      search (keeps_rules, sync_current_position_from_backend-Keeps) depth 40

  pub clear_actual_stream_info-Keeps : Inert clear_actual_stream_info
  unfolding clear_actual_stream_info
  clear_actual_stream_info-Keeps = search (keeps_rules, Keeps-modify) depth 40

  pub sync_actual_stream_info_from_backend-Keeps : Inert sync_actual_stream_info_from_backend
  unfolding sync_actual_stream_info_from_backend
  sync_actual_stream_info_from_backend-Keeps =
      search (keeps_rules, Keeps-modify, clear_actual_stream_info-Keeps) depth 40

  pub replace_actual_stream_info_from_backend-Keeps : Inert replace_actual_stream_info_from_backend
  unfolding replace_actual_stream_info_from_backend
  replace_actual_stream_info_from_backend-Keeps = search (keeps_rules, Keeps-modify) depth 40

  pub transition_to_stopped_end_of_queue-Keeps : Inert transition_to_stopped_end_of_queue
  unfolding transition_to_stopped_end_of_queue
  transition_to_stopped_end_of_queue-Keeps =
      search
        (keeps_rules, Keeps-modify, clear_gapless_preparation-Keeps, clear_server_reporting-Keeps)
        depth 40

  pub transition_to_playback_error-Keeps :
      (message : String) (handled : Bool) → Inert (transition_to_playback_error message handled)
  unfolding transition_to_playback_error
  transition_to_playback_error-Keeps message handled = search (keeps_rules, Keeps-modify) depth 40

  pub stop_backend_after_output_stream_error-Keeps : Inert stop_backend_after_output_stream_error
  unfolding stop_backend_after_output_stream_error
  stop_backend_after_output_stream_error-Keeps =
      search
        (
          keeps_rules, clear_native_events-Keeps, clear_gapless_preparation-Keeps,
          clear_server_reporting-Keeps, clear_actual_stream_info-Keeps,
        )
        depth 40

  pub apply_stream_request-Keeps :
      (info : PlaybackStreamInfo) (request : PlaybackBackendLoadRequest) (prepare_only : Bool)
      → Inert (apply_stream_request info request prepare_only)
  unfolding apply_stream_request
  apply_stream_request-Keeps info request prepare_only = search (keeps_rules, Keeps-modify) depth 40

  pub request_stream-Keeps :
      (context : Context) (entry : SongResponse) (raw : Bool) (f : Option String)
      (rate offset : Option ℕ) (at local : ℕ) (autoplay prepare_only : Bool)
      → Inert (request_stream context entry raw f rate offset at local autoplay prepare_only)
  unfolding request_stream
  request_stream-Keeps context entry raw f rate offset at local autoplay prepare_only =
      search (keeps_rules, apply_stream_request-Keeps) depth 40

  pub request_raw_stream-Keeps :
      (context : Context) (entry : SongResponse) (offset : Option ℕ) (at local : ℕ)
      (autoplay prepare_only : Bool)
      → Inert (request_raw_stream context entry offset at local autoplay prepare_only)
  unfolding request_raw_stream
  request_raw_stream-Keeps context entry offset at local autoplay prepare_only =
      search (keeps_rules, request_stream-Keeps) depth 40

  pub load_or_prepare_stream_for_song-Keeps :
      (context : Context) (entry : SongResponse) (at : ℕ) (autoplay prepare_only : Bool)
      → Inert (load_or_prepare_stream_for_song context entry at autoplay prepare_only)
  unfolding load_or_prepare_stream_for_song
  load_or_prepare_stream_for_song-Keeps context entry at autoplay prepare_only =
      search (keeps_rules, request_stream-Keeps, request_raw_stream-Keeps) depth 40

  pub load_stream_for_song-Keeps :
      (context : Context) (entry : SongResponse) (at : ℕ) (autoplay : Bool)
      → Inert (load_stream_for_song context entry at autoplay)
  unfolding load_stream_for_song
  load_stream_for_song-Keeps context entry at autoplay =
      search (keeps_rules, load_or_prepare_stream_for_song-Keeps) depth 40

  pub prepare_stream_for_song-Keeps :
      (context : Context) (entry : SongResponse) → Inert (prepare_stream_for_song context entry)
  unfolding prepare_stream_for_song
  prepare_stream_for_song-Keeps context entry =
      search (keeps_rules, load_or_prepare_stream_for_song-Keeps) depth 40
