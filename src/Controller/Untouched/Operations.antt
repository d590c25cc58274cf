-- ===== src/Controller/Untouched/Operations.antt =====
-- The transport operations, and the queue that they start on (src-tauri/src/playback/controller.rs).
use transonic.Prelude.{◌≡◌, refl}
use transonic.Controller.State.{Env}
use transonic.Controller.Exec.{Machine, Exec, ignore}
use transonic.Controller.Exec.Keeps.{Keeps, Keeps-ignore}
use transonic.Controller.Operations.{Operation, run}
use transonic.Controller.Frame.{OnQueue}
use transonic.Controller.Frame.Inert.{state-Keeps}
use transonic.Controller.Untouched.{SameQueue}
use transonic.Controller.Untouched.Transport.{
  play-Untouched, play_queue_index-Untouched, pause_with_context-Untouched,
  stop_with_context-Untouched, seek-Untouched, next-Untouched, prev-Untouched,
  on_track_finished-Untouched, sync_and_persist-Untouched, synced_state_with_context-Untouched,
  process_native_events-Untouched,
}

-- Playing, pausing, stopping, seeking, moving between tracks, and reading the state.
abbrev pub IsTransport : Operation → Type 0
IsTransport Operation.state = Unit
IsTransport (Operation.play context) = Unit
IsTransport (Operation.play_queue_index context index) = Unit
IsTransport (Operation.pause_with_context context) = Unit
IsTransport (Operation.stop_with_context context) = Unit
IsTransport (Operation.seek context position_ms) = Unit
IsTransport (Operation.next context) = Unit
IsTransport (Operation.prev context) = Unit
IsTransport Operation.on_track_finished = Unit
IsTransport Operation.sync_and_persist = Unit
IsTransport (Operation.synced_state_with_context context) = Unit
IsTransport (Operation.process_native_events context) = Unit
IsTransport _ = ⊥

module _ {W : Type 0} ⦃env : Env W⦄ where
  module _ (s : Machine W) where
    abbrev Untouched : {A : Type 0} → Exec W A → Type 0
    Untouched m =
        Keeps
          (OnQueue (
            SameQueue s.controller.status.queue s.controller.status.queue_revision
              s.controller.status.queue_index_map))
          m

    discarded : {A : Type 0} (m : Exec W A) → Untouched m → Untouched (ignore m)
    discarded m k = Keeps-ignore m k

    run-Untouched : (operation : Operation) → IsTransport operation → Untouched (run operation)
    unfolding run
    run-Untouched Operation.state h = discarded _ (state-Keeps _)
    run-Untouched (Operation.play context) h = discarded _ (play-Untouched _ _ _ context)
    run-Untouched (Operation.play_queue_index context index) h =
        discarded _ (play_queue_index-Untouched _ _ _ context index)
    run-Untouched (Operation.pause_with_context context) h =
        discarded _ (pause_with_context-Untouched _ _ _ context)
    run-Untouched (Operation.stop_with_context context) h =
        discarded _ (stop_with_context-Untouched _ _ _ context)
    run-Untouched (Operation.seek context position_ms) h =
        discarded _ (seek-Untouched _ _ _ context position_ms)
    run-Untouched (Operation.next context) h = discarded _ (next-Untouched _ _ _ context)
    run-Untouched (Operation.prev context) h = discarded _ (prev-Untouched _ _ _ context)
    run-Untouched Operation.on_track_finished h = discarded _ (on_track_finished-Untouched _ _ _)
    run-Untouched Operation.sync_and_persist h = sync_and_persist-Untouched _ _ _
    run-Untouched (Operation.synced_state_with_context context) h =
        discarded _ (synced_state_with_context-Untouched _ _ _ context)
    run-Untouched (Operation.process_native_events context) h =
        process_native_events-Untouched _ _ _ context
    run-Untouched Operation.reset h = absurd h
    run-Untouched (Operation.set_active_profile_id a) h = absurd h
    run-Untouched (Operation.defer_state_restore a) h = absurd h
    run-Untouched (Operation.set_gapless_playback_enabled a b) h = absurd h
    run-Untouched (Operation.set_stream_settings a b c d) h = absurd h
    run-Untouched (Operation.set_output_device a b) h = absurd h
    run-Untouched (Operation.update_artwork_if_current a b) h = absurd h
    run-Untouched (Operation.restore_state a b c d e) h = absurd h
    run-Untouched (Operation.set_queue a b) h = absurd h
    run-Untouched (Operation.clear_queue a) h = absurd h
    run-Untouched (Operation.set_position a) h = absurd h
    run-Untouched (Operation.apply_connect_shared_state a b c d) h = absurd h
    run-Untouched (Operation.insert_after_current a) h = absurd h
    run-Untouched (Operation.append_to_queue a) h = absurd h
    run-Untouched (Operation.move_queue_indices a b) h = absurd h
    run-Untouched (Operation.remove_queue_index a b) h = absurd h
    run-Untouched (Operation.remove_queue_indices a b) h = absurd h

  -- A transport operation, or one that reads the state, leaves the queue, its revision and its index map
  -- as they are, from any state, whatever the outside world answers and whether it returns or fails.
  pub transport_keeps_queue :
      (operation : Operation)
      → IsTransport operation
      → (s : Machine W)
      → let status = s.controller.status in
        let status' = (run operation s).1.controller.status in
        (status'.queue ≡ status.queue)
        × (status'.queue_revision ≡ status.queue_revision)
        × (status'.queue_index_map ≡ status.queue_index_map)
  transport_keeps_queue operation h s =
      let kept = run-Untouched s operation h in kept.at s (refl, refl, refl)
