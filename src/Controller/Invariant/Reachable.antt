-- ===== src/Controller/Invariant/Reachable.antt =====
-- Coherence of the queue of a reachable controller (src-tauri/src/playback/controller.rs).
use transonic.Prelude.{refl, arith}
use transonic.Models.{empty_status}
use transonic.Controller.State.{Env}
use transonic.Controller.Exec.{Machine, Exec, ignore}
use transonic.Controller.Exec.Keeps.{Keeps, Keeps-ignore}
use transonic.Controller.Exec.From.{From, From-ignore}
use transonic.Controller.Helpers.{current_song_id}
use transonic.Controller.Operations.{Operation, run, new, Reachable, started, operated, changed}
use transonic.Controller.Frame.{OnQueue}
use transonic.Controller.Frame.Inert.{state-Keeps}
use transonic.Controller.Invariant.{Coherent, HasCoherentQueue}
use transonic.Controller.Invariant.Queue.{
  restore_state-Coherent, set_queue-Coherent, clear_queue-Coherent,
}
use transonic.Controller.Invariant.Insert.{
  Fitting, append_to_queue-Coherent, insert_after_current-Coherent,
}
use transonic.Controller.Invariant.Move.{move_queue_indices-Coherent}
use transonic.Controller.Invariant.Position.{set_position-Coherent}
use transonic.Controller.Invariant.Removal.{
  remove_queue_index-Coherent, remove_queue_indices-Coherent,
}
use transonic.Controller.Invariant.Transport.{
  play-Coherent, play_queue_index-Coherent, pause_with_context-Coherent, stop_with_context-Coherent,
  seek-Coherent, next-Coherent, prev-Coherent, on_track_finished-Coherent, reset-Coherent,
  sync_and_persist-Coherent, synced_state_with_context-Coherent, process_native_events-Coherent,
}
use transonic.Controller.Invariant.Settings.{
  set_active_profile_id-Coherent, defer_state_restore-Coherent,
  set_gapless_playback_enabled-Coherent, set_stream_settings-Coherent,
  update_artwork_if_current-Coherent, set_output_device-Coherent,
  apply_connect_shared_state-Coherent,
}

module _ {W : Type 0} ⦃env : Env W⦄ where
  abbrev Ends : Exec W (Unit {0}) → Type 0
  Ends m = From (OnQueue Fitting) m (OnQueue Coherent)

  keeps : {A : Type 0} (m : Exec W A) → Keeps (OnQueue Coherent) m → Ends (ignore m)
  keeps m k = let kept = Keeps-ignore m k in record { after = λ s h. kept.at s h.0 }

  keeps_own : (m : Exec W (Unit {0})) → Keeps (OnQueue Coherent) m → Ends m
  keeps_own m k = record { after = λ s h. k.at s h.0 }

  run-Coherent : (operation : Operation) → Ends (run operation)
  unfolding run
  run-Coherent Operation.state = keeps _ (state-Keeps Coherent)
  run-Coherent Operation.sync_and_persist = keeps_own _ sync_and_persist-Coherent
  run-Coherent Operation.reset = keeps _ reset-Coherent
  run-Coherent Operation.on_track_finished = keeps _ on_track_finished-Coherent
  run-Coherent (Operation.set_active_profile_id profile_id) =
      keeps_own _ (set_active_profile_id-Coherent profile_id)
  run-Coherent (Operation.defer_state_restore profile_id) =
      keeps_own _ (defer_state_restore-Coherent profile_id)
  run-Coherent (Operation.set_gapless_playback_enabled enabled context) =
      keeps_own _ (set_gapless_playback_enabled-Coherent enabled context)
  run-Coherent (Operation.set_stream_settings mode rate codec context) =
      keeps_own _ (set_stream_settings-Coherent mode rate codec context)
  run-Coherent (Operation.set_output_device device context) =
      keeps_own _ (set_output_device-Coherent device context)
  run-Coherent (Operation.update_artwork_if_current target path) =
      keeps _ (update_artwork_if_current-Coherent target path)
  run-Coherent (Operation.restore_state profile_id queue index len position_ms) =
      keeps _ (restore_state-Coherent profile_id queue index len position_ms)
  run-Coherent (Operation.set_queue entries index) = keeps _ (set_queue-Coherent entries index)
  run-Coherent (Operation.clear_queue context) = keeps _ (clear_queue-Coherent context)
  run-Coherent (Operation.pause_with_context context) =
      keeps _ (pause_with_context-Coherent context)
  run-Coherent (Operation.stop_with_context context) = keeps _ (stop_with_context-Coherent context)
  run-Coherent (Operation.synced_state_with_context context) =
      keeps _ (synced_state_with_context-Coherent context)
  run-Coherent (Operation.process_native_events context) =
      keeps_own _ (process_native_events-Coherent context)
  run-Coherent (Operation.set_position position_ms) = keeps _ (set_position-Coherent position_ms)
  run-Coherent (Operation.apply_connect_shared_state context shared active preserve) =
      keeps _ (apply_connect_shared_state-Coherent context shared active preserve)
  run-Coherent (Operation.insert_after_current songs) =
      From-ignore _ (insert_after_current-Coherent songs)
  run-Coherent (Operation.append_to_queue songs) = keeps _ (append_to_queue-Coherent songs)
  run-Coherent (Operation.move_queue_indices indices gap) =
      keeps _ (move_queue_indices-Coherent indices gap)
  run-Coherent (Operation.remove_queue_index context index) =
      keeps _ (remove_queue_index-Coherent context index)
  run-Coherent (Operation.remove_queue_indices context indices) =
      keeps _ (remove_queue_indices-Coherent context indices)
  run-Coherent (Operation.play context) = keeps _ (play-Coherent context)
  run-Coherent (Operation.next context) = keeps _ (next-Coherent context)
  run-Coherent (Operation.prev context) = keeps _ (prev-Coherent context)
  run-Coherent (Operation.play_queue_index context index) =
      keeps _ (play_queue_index-Coherent context index)
  run-Coherent (Operation.seek context position_ms) = keeps _ (seek-Coherent context position_ms)

  -- In every state that operations reach, whatever the outside world answers and however it changes
  -- between them, and whether an operation returned or failed: the current index is in range of the
  -- queue, the play-next length is at most the queue's, and the current song is the id of the current
  -- entry. Each operation starts on a queue of at most `usize::MAX` entries.
  pub Reachable-HasCoherentQueue : (s : Machine W) → Reachable s → HasCoherentQueue s.controller
  unfolding new current_song_id empty_status
  Reachable-HasCoherentQueue _ (started capabilities enabled device world) = (tt, omega arith, refl)
  Reachable-HasCoherentQueue _ (operated s operation reachable fits) =
      let ends = run-Coherent operation in
      ends.after s (Reachable-HasCoherentQueue s reachable, fits)
  Reachable-HasCoherentQueue _ (changed s world reachable) = Reachable-HasCoherentQueue s reachable
