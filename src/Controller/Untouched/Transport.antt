-- ===== src/Controller/Untouched/Transport.antt =====
-- The queue under playing, seeking and moving between tracks (src-tauri/src/playback/controller.rs).
use transonic.Prelude.{ℕ, Bool, Option, List}
use transonic.Models.{SongResponse}
use transonic.Controller.State.{Env, Context, PlaybackSeekAction, applied, reload_required}
use transonic.Controller.Exec.{Exec}
use transonic.Controller.Exec.Keeps.{Keeps, Keeps-modify, Keeps-bind, Keeps-call, keeps_rules}
use transonic.Controller.Transport.{
  resume_paused, play, play_queue_index, pause_with_context, rest_at_head, stop_with_context,
  seek_in_backend, report_seek, seek, change_track, next, prev, on_track_finished, sync_and_persist,
  synced_state_with_context, process_native_events, stopped_at, adjust_play_next,
}
use transonic.Controller.Helpers.{clamp_play_next_queue_len}
use transonic.Controller.Status.{ensure_current_index}
use transonic.Controller.Frame.{OnQueue}
use transonic.Controller.Frame.Inert.{
  report_status-Keeps, state-Keeps, clear_gapless_preparation-Keeps, clear_native_events-Keeps,
  clear_server_reporting-Keeps, persist_state-Keeps, reset_output_stream_recovery_attempts-Keeps,
  current_entry-Keeps, report_entry-Keeps, report_current_server_playback_stopped-Keeps,
  sync_current_position_from_backend-Keeps, clear_actual_stream_info-Keeps,
  sync_actual_stream_info_from_backend-Keeps,
}
use transonic.Controller.Frame.GaplessInert.{sync_gapless_for_current_track-Keeps}
use transonic.Controller.Frame.QueueInert.{
  finish-Keeps, clear_errors-Keeps, set_playing_state-Keeps,
}
use transonic.Controller.Untouched.{SameQueue}
use transonic.Controller.Untouched.Loads.{
  load_track_at_index-Untouched, reload_track_at_index_exact-Untouched,
}
use transonic.Controller.Untouched.Events.{process_native_events_inner-Untouched}

module _ (queue : List SongResponse) (revision : ℕ) (index_map : List (Option ℕ)) {W : Type 0}
    ⦃env : Env W⦄ where
  abbrev Untouched : {A : Type 0} → Exec W A → Type 0
  Untouched m = Keeps (OnQueue (SameQueue queue revision index_map)) m

  ensure_current_index-Untouched : Untouched (ensure_current_index)
  unfolding ensure_current_index clamp_play_next_queue_len
  ensure_current_index-Untouched = search (keeps_rules, Keeps-modify) depth 60

  resume_paused-Untouched : (context : Context) → Untouched (resume_paused context)
  unfolding resume_paused
  resume_paused-Untouched context =
      search
        (
          keeps_rules, Keeps-modify, process_native_events_inner-Untouched,
          sync_actual_stream_info_from_backend-Keeps, reset_output_stream_recovery_attempts-Keeps,
          current_entry-Keeps, report_entry-Keeps, report_status-Keeps, state-Keeps,
        )
        depth 60

  pub play-Untouched : (context : Context) → Untouched (play context)
  unfolding play
  play-Untouched context =
      search
        (
          keeps_rules, ensure_current_index-Untouched, resume_paused-Untouched,
          load_track_at_index-Untouched, process_native_events_inner-Untouched, report_status-Keeps,
          state-Keeps,
        )
        depth 60

  pub play_queue_index-Untouched :
      (context : Context) (index : ℕ) → Untouched (play_queue_index context index)
  unfolding play_queue_index stopped_at adjust_play_next
  play_queue_index-Untouched context index =
      search
        (
          keeps_rules, Keeps-modify, play-Untouched, sync_current_position_from_backend-Keeps,
          report_current_server_playback_stopped-Keeps, clear_native_events-Keeps,
          persist_state-Keeps,
        )
        depth 60

  pub pause_with_context-Untouched :
      (context : Option Context) → Untouched (pause_with_context context)
  unfolding pause_with_context
  pause_with_context-Untouched context =
      search
        (
          keeps_rules, process_native_events_inner-Untouched,
          sync_current_position_from_backend-Keeps, set_playing_state-Keeps, clear_errors-Keeps,
          clear_actual_stream_info-Keeps, persist_state-Keeps, current_entry-Keeps,
          report_entry-Keeps, report_status-Keeps, state-Keeps,
        )
        depth 60

  rest_at_head-Untouched : Untouched (rest_at_head)
  unfolding rest_at_head
  rest_at_head-Untouched = search (keeps_rules, Keeps-modify) depth 60

  pub stop_with_context-Untouched :
      (context : Option Context) → Untouched (stop_with_context context)
  unfolding stop_with_context
  stop_with_context-Untouched context =
      search
        (
          keeps_rules, rest_at_head-Untouched, sync_current_position_from_backend-Keeps,
          current_entry-Keeps, report_entry-Keeps, clear_gapless_preparation-Keeps,
          clear_native_events-Keeps, clear_server_reporting-Keeps,
          reset_output_stream_recovery_attempts-Keeps, finish-Keeps,
        )
        depth 60

  on_action :
      (action : PlaybackSeekAction) (m n : Exec W (Unit {0}))
      → Untouched m
      → Untouched n
      → Untouched (elim action [ applied ↦ m | reload_required ↦ n ])
  on_action applied m n km kn = km
  on_action reload_required m n km kn = kn

  seek_in_backend-Untouched :
      (context : Context) (index position_ms : ℕ) (autoplay : Bool)
      → Untouched (seek_in_backend context index position_ms autoplay)
  unfolding seek_in_backend
  seek_in_backend-Untouched context index position_ms autoplay =
      Keeps-bind _ _ (sync_current_position_from_backend-Keeps (SameQueue queue revision index_map))
        (λ _. Keeps-bind _ _ (Keeps-call _) (λ action.
          on_action action _ _ (Keeps-modify _ (λ c h. h)) (
            reload_track_at_index_exact-Untouched queue revision index_map context index position_ms
              autoplay)))

  report_seek-Untouched : (context : Context) → Untouched (report_seek context)
  unfolding report_seek
  report_seek-Untouched context =
      search (keeps_rules, current_entry-Keeps, report_entry-Keeps) depth 60

  pub seek-Untouched : (context : Context) (position_ms : ℕ) → Untouched (seek context position_ms)
  unfolding seek
  seek-Untouched context position_ms =
      search
        (
          keeps_rules, Keeps-modify, ensure_current_index-Untouched, seek_in_backend-Untouched,
          process_native_events_inner-Untouched, report_seek-Untouched, clear_errors-Keeps,
          report_status-Keeps, state-Keeps,
        )
        depth 60

  change_track-Untouched :
      (context : Context) (current : ℕ) (new_index : ℕ)
      → Untouched (change_track context current new_index)
  unfolding change_track stopped_at adjust_play_next
  change_track-Untouched context current new_index =
      search
        (
          keeps_rules, Keeps-modify, load_track_at_index-Untouched,
          process_native_events_inner-Untouched, sync_current_position_from_backend-Keeps,
          report_current_server_playback_stopped-Keeps, persist_state-Keeps, report_status-Keeps,
          state-Keeps,
        )
        depth 60

  pub next-Untouched : (context : Context) → Untouched (next context)
  unfolding next
  next-Untouched context =
      search (keeps_rules, ensure_current_index-Untouched, change_track-Untouched) depth 60

  pub prev-Untouched : (context : Context) → Untouched (prev context)
  unfolding prev
  prev-Untouched context =
      search
        (
          keeps_rules, ensure_current_index-Untouched, seek-Untouched, change_track-Untouched,
          sync_current_position_from_backend-Keeps, persist_state-Keeps,
        )
        depth 60

  pub on_track_finished-Untouched : Untouched (on_track_finished)
  unfolding on_track_finished
  on_track_finished-Untouched =
      search
        (
          keeps_rules, rest_at_head-Untouched, clear_gapless_preparation-Keeps,
          clear_server_reporting-Keeps, clear_native_events-Keeps, report_status-Keeps, state-Keeps,
        )
        depth 60

  pub sync_and_persist-Untouched : Untouched (sync_and_persist)
  unfolding sync_and_persist
  sync_and_persist-Untouched =
      search
        (
          keeps_rules, sync_current_position_from_backend-Keeps, persist_state-Keeps,
          clear_native_events-Keeps,
        )
        depth 60

  pub synced_state_with_context-Untouched :
      (context : Option Context) → Untouched (synced_state_with_context context)
  unfolding synced_state_with_context
  synced_state_with_context-Untouched context =
      search
        (
          keeps_rules, process_native_events_inner-Untouched,
          sync_current_position_from_backend-Keeps, sync_actual_stream_info_from_backend-Keeps,
          sync_gapless_for_current_track-Keeps, state-Keeps,
        )
        depth 60

  pub process_native_events-Untouched :
      (context : Option Context) → Untouched (process_native_events context)
  unfolding process_native_events
  process_native_events-Untouched context =
      search (keeps_rules, process_native_events_inner-Untouched) depth 60
