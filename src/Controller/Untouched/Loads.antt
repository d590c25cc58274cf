-- ===== src/Controller/Untouched/Loads.antt =====
-- The queue under loading and reloading (src-tauri/src/playback/controller.rs).
use transonic.Prelude.{ℕ, Bool, Option, List}
use transonic.Models.{SongResponse}
use transonic.Controller.State.{Controller, Env, Context, ServerPlaybackState}
use transonic.Controller.Exec.{Exec, attempt, modify, raise, on_result, ◌>>=◌, ◌>>◌}
use transonic.Controller.Exec.Keeps.{Keeps, Keeps-modify, Keeps-bind, keeps_rules}
use transonic.Controller.Exec.From.{From-read, From-keeps, Keeps-from}
use transonic.Controller.Load.{
  entry_at, begin_load, finish_load, load_track_at_index, begin_reload, finish_reload,
  reload_track_at_index_exact,
}
use transonic.Controller.Stream.{load_stream_for_song}
use transonic.Controller.Status.{
  report_server_playback_state, clear_server_reporting, report_status,
}
use transonic.Controller.Frame.{OnQueue}
use transonic.Controller.Frame.Inert.{
  report_status-Keeps, clear_native_events-Keeps, clear_server_reporting-Keeps,
  reset_output_stream_recovery_attempts-Keeps, report_server_playback_state-Keeps,
  replace_actual_stream_info_from_backend-Keeps, load_stream_for_song-Keeps,
}
use transonic.Controller.Frame.GaplessInert.{sync_gapless_for_current_track-Keeps}
use transonic.Controller.Invariant.Loads.{activate_or_load-Keeps, fail_load-Keeps}
use transonic.Controller.Untouched.{SameQueue, HasQueue}

module _ (queue : List SongResponse) (revision : ℕ) (index_map : List (Option ℕ)) {W : Type 0}
    ⦃env : Env W⦄ where
  abbrev Untouched : {A : Type 0} → Exec W A → Type 0
  Untouched m = Keeps (OnQueue (SameQueue queue revision index_map)) m

  pub entry_at-Untouched : (index : ℕ) → Untouched (entry_at index)
  unfolding entry_at
  entry_at-Untouched index = search (keeps_rules) depth 60

  pub begin_load-Untouched :
      (index : ℕ) (entry : SongResponse) (position_ms : ℕ)
      → Untouched (begin_load index entry position_ms)
  unfolding begin_load
  begin_load-Untouched index entry position_ms =
      search (keeps_rules, Keeps-modify, clear_native_events-Keeps, report_status-Keeps) depth 60

  pub finish_load-Untouched :
      (context : Context) (entry : SongResponse) (position_ms : ℕ) (autoplay : Bool)
      → Untouched (finish_load context entry position_ms autoplay)
  unfolding finish_load
  finish_load-Untouched context entry position_ms autoplay =
      search
        (
          keeps_rules, Keeps-modify, clear_native_events-Keeps,
          replace_actual_stream_info_from_backend-Keeps,
          reset_output_stream_recovery_attempts-Keeps, sync_gapless_for_current_track-Keeps,
          report_server_playback_state-Keeps,
        )
        depth 60

  pub load_track_at_index-Untouched :
      (context : Context) (index : ℕ) (position_ms : ℕ) (autoplay : Bool)
      → Untouched (load_track_at_index context index position_ms autoplay)
  unfolding load_track_at_index
  load_track_at_index-Untouched context index position_ms autoplay =
      search
        (
          keeps_rules, entry_at-Untouched, begin_load-Untouched, finish_load-Untouched,
          report_server_playback_state-Keeps, activate_or_load-Keeps, fail_load-Keeps,
        )
        depth 60

  pub begin_reload-Untouched :
      (index : ℕ) (entry : SongResponse) (position_ms : ℕ)
      → Untouched (begin_reload index entry position_ms)
  unfolding begin_reload
  begin_reload-Untouched index entry position_ms =
      search (keeps_rules, Keeps-modify, clear_native_events-Keeps, report_status-Keeps) depth 60

  pub finish_reload-Untouched :
      (context : Context) (index : ℕ) (entry : SongResponse) (position_ms : ℕ) (autoplay : Bool)
      → Untouched (finish_reload context index entry position_ms autoplay)
  unfolding finish_reload
  finish_reload-Untouched context index entry position_ms autoplay =
      search
        (
          keeps_rules, Keeps-modify, clear_native_events-Keeps,
          reset_output_stream_recovery_attempts-Keeps, sync_gapless_for_current_track-Keeps,
          report_server_playback_state-Keeps,
        )
        depth 60

  load_on :
      (context : Context) (index position_ms : ℕ) (autoplay : Bool) (entry : SongResponse)
      (previous : Controller)
      → HasQueue queue revision index_map previous
      → Untouched (do
        begin_reload index entry position_ms
        report_server_playback_state context entry position_ms ServerPlaybackState.starting
        load_result ← attempt (load_stream_for_song context entry position_ms autoplay)
        on_result load_result
            (λ _. finish_reload context index entry position_ms autoplay)
            (λ e. do
              modify λ c. record c {
                status = previous.status;
                interrupted_resume_state = previous.interrupted_resume_state;
              }
              clear_server_reporting
              report_status
              raise e))
  load_on context index position_ms autoplay entry previous h =
      search
        (
          keeps_rules, Keeps-modify, begin_reload-Untouched, finish_reload-Untouched,
          report_server_playback_state-Keeps, load_stream_for_song-Keeps,
          clear_server_reporting-Keeps, report_status-Keeps,
        )
        depth 60

  pub reload_track_at_index_exact-Untouched :
      (context : Context) (index position_ms : ℕ) (autoplay : Bool)
      → Untouched (reload_track_at_index_exact context index position_ms autoplay)
  unfolding reload_track_at_index_exact
  reload_track_at_index_exact-Untouched context index position_ms autoplay =
      Keeps-bind _ _ (entry_at-Untouched index) (λ entry. Keeps-from _ (
        From-read _ _ λ previous h.
          From-keeps _ (λ c h'. h') (load_on context index position_ms autoplay entry previous h)))
