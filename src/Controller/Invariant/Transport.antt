-- ===== src/Controller/Invariant/Transport.antt =====
-- Coherence of the queue under playing, seeking and moving between tracks (src-tauri/src/playback/controller.rs).
use transonic.Prelude.{
  ℕ, ◌-◌, ◌<◌, ◌≡◌, refl, arith, String, Bool, true, false, Option, none, some, List, length, leb,
  checked_add_u32, if◌then◌else◌,
}
use transonic.Models.{SongResponse, empty_status, is_loaded, is_playing_or_paused}
use transonic.Controller.State.{
  Controller, Env, Context, PlaybackSeekAction, applied, reload_required,
}
use transonic.Controller.Exec.{Exec, pure, raise, modify, gets, call, when, ◌>>=◌, ◌>>◌}
use transonic.Controller.Exec.Keeps.{
  Keeps, Keeps-modify, Keeps-call, Keeps-when, Keeps-bind, keeps_rules,
}
use transonic.Controller.Exec.From.{
  From, From-bind, From-if, From-if_some, From-raise, From-gets, From-read, From-step, From-keeps,
  From-write, From-modify, From-weaken, Keeps-from,
}
use transonic.Controller.Events.{process_native_events_inner}
use transonic.Controller.Invariant.Move.{Sized}
use transonic.Controller.Status.{
  clear_native_events, report_status, state, persist_state, with_status, ensure_current_index,
  sync_current_position_from_backend, report_current_server_playback_stopped,
}
use transonic.Controller.Helpers.{current_song_id}
use transonic.Controller.Load.{load_track_at_index}
use transonic.Controller.Transport.{
  stopped_at, adjust_play_next, resume_paused, play, play_queue_index, pause_with_context,
  rest_at_head, stop_with_context, seek_in_backend, report_seek, seek, change_track, next, prev,
  on_track_finished, reset, sync_and_persist, synced_state_with_context, process_native_events,
}
use transonic.Controller.Frame.{QueuePredicate, OnQueue}
use transonic.Controller.Frame.Inert.{
  report_status-Keeps, state-Keeps, clear_gapless_preparation-Keeps, clear_native_events-Keeps,
  clear_server_reporting-Keeps, sync_queue_state-Keeps, persist_state-Keeps,
  reset_output_stream_recovery_attempts-Keeps, current_entry-Keeps, report_entry-Keeps,
  sync_current_position_from_backend-Keeps, clear_actual_stream_info-Keeps,
  sync_actual_stream_info_from_backend-Keeps, report_current_server_playback_stopped-Keeps,
}
use transonic.Controller.Frame.GaplessInert.{sync_gapless_for_current_track-Keeps}
use transonic.Controller.Frame.QueueInert.{
  finish-Keeps, clear_errors-Keeps, set_playing_state-Keeps,
}
use transonic.Controller.Invariant.{IndexInRange, Coherent}
use transonic.Controller.Invariant.Loads.{
  load_track_at_index-Coherent, reload_track_at_index_exact-Coherent,
}
use transonic.Controller.Invariant.Events.{process_native_events_inner-Coherent}
use transonic.Controller.Invariant.Queue.{record_queue_change-Coherent}
use transonic.Controller.Invariant.Position.{Current, ensure_current_index-Current}
use transonic.Queue.PlayNext.Region.{adjusted-le}

-- A coherent queue in which an index is in range.
abbrev pub Within : ℕ → QueuePredicate
Within index queue current_index n song_id revision index_map =
    Coherent queue current_index n song_id revision index_map × (index < length queue)

pub above : (a b : ℕ) → leb a b ≡ false → b < a
above a b h = ground arith

previous_in_range :
    (queue : List SongResponse) (current_index : Option ℕ) (index : ℕ)
    → IndexInRange queue current_index
    → current_index ≡ some index
    → index - 1 < length queue
previous_in_range queue none index h e = cc
previous_in_range queue (some i) index h e = let same : i ≡ index = cc in omega (arith, same, h)

module _ {W : Type 0} ⦃env : Env W⦄ where
  abbrev Kept : {A : Type 0} → Exec W A → Type 0
  Kept m = Keeps (OnQueue Coherent) m

  abbrev Ends : {A : Type 0} → QueuePredicate → Exec W A → Type 0
  Ends Q m = From (OnQueue Q) m (OnQueue Coherent)

  pub ensure_bind :
      {B : Type 0} (f : ℕ → Exec W B)
      → ((index : ℕ) → Kept (f index))
      → Kept (ensure_current_index >>= f)
  ensure_bind f k = Keeps-from _ (
      ensure_current_index-Current (OnQueue Coherent) f
        (λ index. From-keeps _ (λ c h. h.0) (k index)) (λ c h. h))

  resume_paused-Coherent : (context : Context) → Kept (resume_paused context)
  unfolding resume_paused
  resume_paused-Coherent context =
      search
        (
          keeps_rules, Keeps-modify, sync_actual_stream_info_from_backend-Keeps,
          reset_output_stream_recovery_attempts-Keeps, process_native_events_inner-Coherent,
          current_entry-Keeps, report_entry-Keeps, report_status-Keeps, state-Keeps,
        )
        depth 60

  pub play-Coherent : (context : Context) → Kept (play context)
  unfolding play
  play-Coherent context = ensure_bind _ (λ index.
      search
        (
          keeps_rules, resume_paused-Coherent, load_track_at_index-Coherent,
          process_native_events_inner-Coherent, report_status-Keeps, state-Keeps,
        )
        depth 60)

  pub pause_with_context-Coherent : (context : Option Context) → Kept (pause_with_context context)
  unfolding pause_with_context
  pause_with_context-Coherent context =
      search
        (
          keeps_rules, sync_current_position_from_backend-Keeps, set_playing_state-Keeps,
          clear_errors-Keeps, clear_actual_stream_info-Keeps, process_native_events_inner-Coherent,
          persist_state-Keeps, current_entry-Keeps, report_entry-Keeps, report_status-Keeps,
          state-Keeps,
        )
        depth 60

  rest_at_head-Coherent : Kept rest_at_head
  unfolding rest_at_head
  rest_at_head-Coherent = search (keeps_rules, Keeps-modify) depth 20

  pub stop_with_context-Coherent : (context : Option Context) → Kept (stop_with_context context)
  unfolding stop_with_context
  stop_with_context-Coherent context =
      search
        (
          keeps_rules, sync_current_position_from_backend-Keeps, current_entry-Keeps,
          report_entry-Keeps, clear_gapless_preparation-Keeps, clear_native_events-Keeps,
          clear_server_reporting-Keeps, rest_at_head-Coherent,
          reset_output_stream_recovery_attempts-Keeps, finish-Keeps,
        )
        depth 60

  on_action :
      (action : PlaybackSeekAction) (m n : Exec W (Unit {0}))
      → Kept m
      → Kept n
      → Kept (elim action [ applied ↦ m | reload_required ↦ n ])
  on_action applied m n km kn = km
  on_action reload_required m n km kn = kn

  seek_in_backend-Coherent :
      (context : Context) (index position_ms : ℕ) (autoplay : Bool)
      → Kept (seek_in_backend context index position_ms autoplay)
  unfolding seek_in_backend
  seek_in_backend-Coherent context index position_ms autoplay =
      Keeps-bind _ _ (sync_current_position_from_backend-Keeps Coherent) (λ _.
        Keeps-bind _ _ (Keeps-call _) (λ action.
          on_action action _ _ (Keeps-modify _ (λ c h. h))
            (reload_track_at_index_exact-Coherent context index position_ms autoplay)))

  report_seek-Coherent : (context : Context) → Kept (report_seek context)
  unfolding report_seek
  report_seek-Coherent context =
      search (keeps_rules, current_entry-Keeps, report_entry-Keeps) depth 40

  pub seek-Coherent : (context : Context) (position_ms : ℕ) → Kept (seek context position_ms)
  unfolding seek
  seek-Coherent context position_ms = ensure_bind _ (λ index.
      search
        (
          keeps_rules, Keeps-modify, seek_in_backend-Coherent, clear_errors-Keeps,
          process_native_events_inner-Coherent, report_seek-Coherent, report_status-Keeps,
          state-Keeps,
        )
        depth 60)

  leave_loaded :
      (context : Context) (new_index : ℕ) (autoplay : Bool)
      → Kept (do
        sync_current_position_from_backend
        position_ms ← gets (λ c. c.status.current_position_ms)
        report_current_server_playback_stopped context position_ms
        load_track_at_index context new_index 0 autoplay)
  leave_loaded context new_index autoplay =
      search
        (
          keeps_rules, sync_current_position_from_backend-Keeps,
          report_current_server_playback_stopped-Keeps, load_track_at_index-Coherent,
        )
        depth 40

  pub on_track_finished-Coherent : Kept on_track_finished
  unfolding on_track_finished
  on_track_finished-Coherent =
      search
        (
          keeps_rules, clear_gapless_preparation-Keeps, clear_server_reporting-Keeps,
          clear_native_events-Keeps, rest_at_head-Coherent, report_status-Keeps, state-Keeps,
        )
        depth 40

  reset_status :
      Kept (modify (with_status λ st. record empty_status { queue_revision = st.queue_revision }))
  unfolding empty_status current_song_id
  reset_status = Keeps-modify _ (λ c _. (tt, omega arith, refl))

  pub reset-Coherent : Kept reset
  unfolding reset
  reset-Coherent =
      search
        (
          keeps_rules, Keeps-modify, reset_status, record_queue_change-Coherent,
          clear_gapless_preparation-Keeps, clear_server_reporting-Keeps, clear_native_events-Keeps,
          sync_queue_state-Keeps, finish-Keeps,
        )
        depth 60

  pub sync_and_persist-Coherent : Kept sync_and_persist
  unfolding sync_and_persist
  sync_and_persist-Coherent =
      search
        (
          keeps_rules, sync_current_position_from_backend-Keeps, persist_state-Keeps,
          clear_native_events-Keeps,
        )
        depth 60

  pub synced_state_with_context-Coherent :
      (context : Option Context) → Kept (synced_state_with_context context)
  unfolding synced_state_with_context
  synced_state_with_context-Coherent context =
      search
        (
          keeps_rules, process_native_events_inner-Coherent,
          sync_current_position_from_backend-Keeps, sync_actual_stream_info_from_backend-Keeps,
          sync_gapless_for_current_track-Keeps, state-Keeps,
        )
        depth 60

  pub process_native_events-Coherent :
      (context : Option Context) → Kept (process_native_events context)
  unfolding process_native_events
  process_native_events-Coherent context =
      search (keeps_rules, process_native_events_inner-Coherent) depth 20

  settle :
      (context : Context)
      → Kept (do
        persist_state
        _ ← process_native_events_inner (some context) false
        report_status
        state)
  settle context =
      search
        (
          keeps_rules, persist_state-Keeps, process_native_events_inner-Coherent,
          report_status-Keeps, state-Keeps,
        )
        depth 40

  change_track-Coherent :
      (context : Context) (current_index new_index : ℕ)
      → Ends (Within new_index) (change_track context current_index new_index)
  unfolding change_track adjust_play_next stopped_at
  change_track-Coherent context current_index new_index = From-read _ _ λ c hc.
      From-write (OnQueue (Within new_index)) _ _
        (λ c h. (
          (
            h.0.0,
            adjusted-le (length c.status.queue) (some current_index) c.status.play_next_queue_len
                (some new_index),
            h.0.2,
          ),
          h.1,
        ))
        (λ _. From-read _ _ λ c' hc'.
          From-bind _ _
            (From-if (is_playing_or_paused c'.status.playing_state) _ _
              (λ _. From-keeps _ (λ c h. h.0) (leave_loaded context new_index _))
              (λ _. From-modify _ (λ c h. (h.1, h.0.1, refl))))
            (λ _. From-keeps _ (λ c h. h) (settle context)) (λ c h. h))

  pub next-Coherent : (context : Context) → Kept (next context)
  unfolding next
  next-Coherent context = ensure_bind _ (λ current_index. Keeps-from _ (
      From-gets _ _ λ queue_len.
        From-if_some (checked_add_u32 current_index 1) _ _
          (λ next_index _.
            From-if (leb queue_len next_index) _ _ (λ _. From-raise _ (λ c h. h.0))
              (λ t.
                From-weaken _ (λ c h. (h.0, omega (arith, above queue_len next_index t, h.1)))
                  (change_track-Coherent context current_index next_index)))
          (λ _. From-raise _ (λ c h. h.0))))

  seek_to_start :
      (context : Context) → Kept (do result ← seek context 0; persist_state; pure result)
  seek_to_start context = search (keeps_rules, seek-Coherent, persist_state-Keeps) depth 20

  pub prev-Coherent : (context : Context) → Kept (prev context)
  unfolding prev
  prev-Coherent context = Keeps-from _ (
      ensure_current_index-Current (OnQueue Coherent) _
        (λ current_index.
          From-step _ _ (sync_current_position_from_backend-Keeps (Current current_index))
            (λ _. From-read _ _ λ c hc.
              From-if _ _ _ (λ _. From-keeps _ (λ c h. h.0) (seek_to_start context))
                (λ _.
                  From-weaken _
                    (λ c h. (
                      h.0,
                      previous_in_range c.status.queue c.status.current_index current_index h.0.0
                          h.1,
                    ))
                    (change_track-Coherent context current_index (current_index - 1))))
            (λ c h. h.0))
        (λ c h. h))

  leave_entry :
      (Q : QueuePredicate) (context : Context)
      → Keeps {W = W} (OnQueue Q) (do
        sync_current_position_from_backend
        position_ms ← gets (λ c. c.status.current_position_ms)
        report_current_server_playback_stopped context position_ms)
  leave_entry Q context =
      search
        (
          keeps_rules, sync_current_position_from_backend-Keeps,
          report_current_server_playback_stopped-Keeps,
        )
        depth 20

  pub check_index :
      {B : Type 0} (Q : QueuePredicate) (e : String) (b : Bool) (f : Unit {0} → Exec W B)
      → (b ≡ false → Ends Q (f tt))
      → ((c : Controller) → OnQueue Q c → OnQueue Coherent c)
      → Ends Q ((if b then raise e else pure tt) >>= f)
  unfolding pure raise ◌>>=◌
  check_index Q e false f k w = record { after = λ s h. (k refl).after s h }
  check_index Q e true f k w = record { after = λ s h. w s.controller h }

  start_at :
      (context : Context) (index : ℕ) (loaded : Bool)
      → Ends (Within index) (do
        when loaded (do
          sync_current_position_from_backend
          position_ms ← gets (λ c. c.status.current_position_ms)
          report_current_server_playback_stopped context position_ms)
        call env.stop
        clear_native_events
        modify λ c. record c {
          status =
              record (stopped_at index (adjust_play_next c.status.current_index index c.status)) {
                actual_stream_info = none;
              };
          interrupted_resume_state = none;
        }
        persist_state
        play context)
  unfolding adjust_play_next stopped_at
  start_at context index loaded =
      From-step _ _ (Keeps-when loaded _ (leave_entry (Within index) context))
        (λ _.
          From-step _ _ (Keeps-call _)
            (λ _.
              From-step _ _ (clear_native_events-Keeps (Within index))
                (λ _.
                  From-write (OnQueue Coherent) _ _
                    (λ c h. (
                      h.1,
                      adjusted-le (length c.status.queue) c.status.current_index
                          c.status.play_next_queue_len (some index),
                      refl,
                    ))
                    (λ _.
                      From-keeps _ (λ c h. h)
                        (Keeps-bind _ _ (persist_state-Keeps Coherent)
                          (λ _. play-Coherent context))))
                (λ c h. h.0))
            (λ c h. h.0))
        (λ c h. h.0)

  pub play_queue_index-Coherent :
      (context : Context) (index : ℕ) → Kept (play_queue_index context index)
  unfolding play_queue_index
  play_queue_index-Coherent context index = Keeps-from _ (
      From-gets _ _ λ queue_len. From-read _ _ λ c hc.
        check_index (Sized queue_len) _ _ _
          (λ t.
            let inside = above queue_len index t in
            From-weaken _ (λ c h. (h.0, omega (arith, inside, h.1)))
              (start_at context index (is_loaded c.status.playing_state)))
          (λ c h. h.0))
