-- ===== src/Controller/Invariant/Loads.antt =====
-- Coherence of the queue under loading and reloading (src-tauri/src/playback/controller.rs).
use transonic.Prelude.{ℕ, ◌≡◌, refl, String, Bool, true, Option, none, some, get_elem?}
use transonic.Result.{is_ok}
use transonic.Models.{SongResponse}
use transonic.Controller.State.{Controller, Env, Context}
use transonic.Controller.Exec.{
  Machine, Exec, if_some, pure, raise, modify, ◌>>◌, ask, gets, ◌>>=◌, ◌>>◌,
}
use transonic.Controller.Exec.Keeps.{Keeps, Keeps-modify, Keeps-attempt, keeps_rules}
use transonic.Controller.Exec.From.{
  From, From-bind, From-step, From-sure, From-keeps, From-read, From-on_result, From-write,
  Keeps-from,
}
use transonic.Controller.Helpers.{current_queue_entry}
use transonic.Controller.Status.{
  with_status, clear_native_events, clear_server_reporting, report_status,
}
use transonic.Controller.Load.{
  loaded_state, entry_at, activate_or_load, begin_load, fail_load, finish_load, load_track_at_index,
  begin_reload, finish_reload, reload_track_at_index_exact,
}
use transonic.Controller.Frame.{QueuePredicate, OnQueue}
use transonic.Controller.Frame.Inert.{
  clear_native_events-Keeps, report_status-Keeps, report_server_playback_state-Keeps,
  clear_server_reporting-Keeps, clear_gapless_preparation-Keeps, load_stream_for_song-Keeps,
  replace_actual_stream_info_from_backend-Keeps, reset_output_stream_recovery_attempts-Keeps,
}
use transonic.Controller.Frame.GaplessInert.{
  try_activate_prepared_gapless_track-Keeps, sync_gapless_for_current_track-Keeps,
}
use transonic.Controller.Invariant.{
  HasCoherentQueue, Coherent, Found, Loading, found-Coherent, loading_song,
}

module _ (Q : QueuePredicate) {W : Type 0} ⦃env : Env W⦄ where
  abbrev Inert : {A : Type 0} → Exec W A → Type 0
  Inert m = Keeps (OnQueue Q) m

  pub activate_or_load-Keeps :
      (context : Context) (index : ℕ) (entry : SongResponse) (position_ms : ℕ) (autoplay : Bool)
      → Inert (activate_or_load context index entry position_ms autoplay)
  unfolding activate_or_load
  activate_or_load-Keeps context index entry position_ms autoplay =
      search
        (
          keeps_rules, try_activate_prepared_gapless_track-Keeps, clear_gapless_preparation-Keeps,
          load_stream_for_song-Keeps,
        )
        depth 40

  pub fail_load-Keeps : (message : String) → Inert (fail_load message)
  unfolding fail_load
  fail_load-Keeps message =
      search (keeps_rules, Keeps-modify, clear_server_reporting-Keeps, report_status-Keeps) depth 40

finish_write :
    (index : ℕ) (entry : SongResponse) (autoplay : Bool) (position_ms : ℕ) (c : Controller)
    → OnQueue (Loading index entry) c
    → OnQueue (Loading index entry) (
        with_status
          (λ st. record st {
            playing_state = loaded_state autoplay;
            current_position_ms = position_ms;
            current_song_id = some entry.id;
            playback_error = none;
            interrupt_reason = none;
            pending_seek_position_ms = none;
          })
          c)
finish_write index entry autoplay position_ms c h = (
  (
    (h.0.0.0, h.0.0.1, loading_song c.status.queue c.status.current_index index entry h.0.1 h.1),
    h.0.1,
  ),
  h.1,
)

reload_write :
    (index : ℕ) (entry : SongResponse) (autoplay : Bool) (position_ms : ℕ) (c : Controller)
    → OnQueue (Loading index entry) c
    → OnQueue (Loading index entry) (record c {
      status = record c.status {
        playing_state = loaded_state autoplay;
        current_index = some index;
        current_song_id = some entry.id;
        current_position_ms = position_ms;
        playback_error = none;
        interrupt_reason = none;
        pending_seek_position_ms = none;
      };
      interrupted_resume_state = none;
    })
reload_write index entry autoplay position_ms c h =
    ((found-Coherent c.status.queue index entry _ h.0.1 h.0.0.1, h.0.1), refl)

module _ {W : Type 0} ⦃env : Env W⦄ where
  abbrev Kept : {A : Type 0} → QueuePredicate → Exec W A → Type 0
  Kept Q m = Keeps (OnQueue Q) m

  abbrev Ends : {A : Type 0} → QueuePredicate → Exec W A → QueuePredicate → Type 0
  Ends Q m R = From (OnQueue Q) m (OnQueue R)

  entry_found :
      {B : Type 0} (R : Controller → Type 0) (o : Option SongResponse) (e : String)
      (f : SongResponse → Exec W B) (s : Machine W)
      → ((entry : SongResponse) → o ≡ some entry → R (f entry s).1.controller)
      → R s.controller
      → R ((if_some o pure (raise e) >>= f) s).1.controller
  unfolding if_some pure raise ◌>>=◌
  entry_found R none e f s k h = h
  entry_found R (some entry) e f s k h = k entry refl

  entry_at-Found :
      {B : Type 0} (R : QueuePredicate) (index : ℕ) (f : SongResponse → Exec W B)
      → ((entry : SongResponse) → Ends (Found index entry) (f entry) R)
      → ((c : Controller) → HasCoherentQueue c → OnQueue R c)
      → Ends Coherent (entry_at index >>= f) R
  unfolding entry_at current_queue_entry ◌>>=◌ gets
  entry_at-Found R index f k w = record {
    after = λ s h.
        entry_found (OnQueue R) (get_elem? s.controller.status.queue index) _ f s
          (λ entry e. (k entry).after s (h, e)) (w s.controller h);
  }

  pub clear_native_events-sure : (s : Machine W) → is_ok (clear_native_events s).0 ≡ true
  unfolding clear_native_events ask ◌>>=◌ pure
  clear_native_events-sure s = refl

  begin_load-Loading :
      (index : ℕ) (entry : SongResponse) (position_ms : ℕ)
      → Ends (Found index entry) (begin_load index entry position_ms) (Loading index entry)
  unfolding begin_load
  begin_load-Loading index entry position_ms =
      From-sure _ _ (clear_native_events-Keeps (Found index entry)) clear_native_events-sure (λ _.
        From-write (OnQueue (Loading index entry)) _ _
          (λ c h. ((found-Coherent _ index entry _ h.1 h.0.1, h.1), refl))
          (λ _. From-keeps _ (λ c h. h) (report_status-Keeps (Loading index entry))))

  -- A method that keeps the loaded entry, and what is left of it.
  loaded :
      {A : Type 0} (index : ℕ) (entry : SongResponse) (m : Exec W A)
      → Keeps (OnQueue (Loading index entry)) m
      → Ends (Loading index entry) m Coherent
  loaded index entry m k = record { after = λ s h. (k.at s h).0.0 }

  finish_load-Keeps :
      (context : Context) (index : ℕ) (entry : SongResponse) (position_ms : ℕ) (autoplay : Bool)
      → Kept (Loading index entry) (finish_load context entry position_ms autoplay)
  unfolding finish_load
  finish_load-Keeps context index entry position_ms autoplay =
      search
        (
          keeps_rules, Keeps-modify, clear_native_events-Keeps, finish_write,
          replace_actual_stream_info_from_backend-Keeps,
          reset_output_stream_recovery_attempts-Keeps, sync_gapless_for_current_track-Keeps,
          report_server_playback_state-Keeps,
        )
        depth 40

  pub load_track_at_index-Coherent :
      (context : Context) (index : ℕ) (position_ms : ℕ) (autoplay : Bool)
      → Kept Coherent (load_track_at_index context index position_ms autoplay)
  unfolding load_track_at_index
  load_track_at_index-Coherent context index position_ms autoplay = Keeps-from _ (
      entry_at-Found Coherent index _
        (λ entry.
          From-bind _ _ (begin_load-Loading index entry position_ms)
            (λ _. loaded index entry _ (
              search
                (
                  keeps_rules, report_server_playback_state-Keeps, activate_or_load-Keeps,
                  finish_load-Keeps, fail_load-Keeps,
                )
                depth 40))
            (λ c h. h.0.0))
        (λ c h. h))

  begin_reload-Loading :
      (index : ℕ) (entry : SongResponse) (position_ms : ℕ)
      → Ends (Found index entry) (begin_reload index entry position_ms) (Loading index entry)
  unfolding begin_reload
  begin_reload-Loading index entry position_ms =
      From-sure _ _ (clear_native_events-Keeps (Found index entry)) clear_native_events-sure (λ _.
        From-write (OnQueue (Loading index entry)) _ _
          (λ c h. ((found-Coherent _ index entry _ h.1 h.0.1, h.1), refl))
          (λ _. From-keeps _ (λ c h. h) (report_status-Keeps (Loading index entry))))

  finish_reload-Keeps :
      (context : Context) (index : ℕ) (entry : SongResponse) (position_ms : ℕ) (autoplay : Bool)
      → Kept (Loading index entry) (finish_reload context index entry position_ms autoplay)
  unfolding finish_reload
  finish_reload-Keeps context index entry position_ms autoplay =
      search
        (
          keeps_rules, Keeps-modify, clear_native_events-Keeps, reload_write,
          reset_output_stream_recovery_attempts-Keeps, sync_gapless_for_current_track-Keeps,
          report_server_playback_state-Keeps,
        )
        depth 40

  report_failure :
      (e : String)
      → Kept Coherent (do clear_server_reporting; report_status; raise {A = Unit {0}} e)
  report_failure e =
      search (keeps_rules, clear_server_reporting-Keeps, report_status-Keeps) depth 20

  -- Behind the failure of a reload, the status is one that was coherent before.
  reload_failed :
      (previous : Controller) (e : String)
      → HasCoherentQueue previous
      → Kept Coherent (do
        modify λ c. record c {
          status = previous.status;
          interrupted_resume_state = previous.interrupted_resume_state;
        }
        clear_server_reporting
        report_status
        raise {A = Unit {0}} e)
  reload_failed previous e h = Keeps-from _ (
      From-write (OnQueue Coherent) _ _ (λ c _. h)
        (λ _. From-keeps _ (λ c h'. h') (report_failure e)))

  pub reload_track_at_index_exact-Coherent :
      (context : Context) (index : ℕ) (position_ms : ℕ) (autoplay : Bool)
      → Kept Coherent (reload_track_at_index_exact context index position_ms autoplay)
  unfolding reload_track_at_index_exact
  reload_track_at_index_exact-Coherent context index position_ms autoplay = Keeps-from _ (
      entry_at-Found Coherent index _
        (λ entry. From-read _ _ λ previous hp.
          From-bind _ _ (begin_reload-Loading index entry position_ms)
            (λ _.
              From-step _ _ (report_server_playback_state-Keeps _ _ _ _ _)
                (λ _.
                  From-step _ _ (Keeps-attempt _ (load_stream_for_song-Keeps _ _ _ _ _))
                    (λ result.
                      From-on_result result _ _
                        (λ _.
                          loaded index entry _
                            (finish_reload-Keeps context index entry position_ms autoplay))
                        (λ e. From-keeps _ (λ c h. h.0.0) (reload_failed previous e hp.0)))
                    (λ c h. h.0.0))
                (λ c h. h.0.0))
            (λ c h. h.0.0))
        (λ c h. h))
