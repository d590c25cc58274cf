-- ===== src/Controller/Invariant/Queue.antt =====
-- Coherence of the queue under its replacement (src-tauri/src/playback/controller.rs).
use transonic.Prelude.{
  ℕ, ◌≤◌, ◌<◌, ◌≡◌, refl, arith, String, Bool, true, false, Option, none, some, List, [], ◌∷◌,
  length, leb, if◌then◌else◌,
}
use transonic.Result.{Result, ok, err}
use transonic.Models.{SongResponse}
use transonic.Controller.State.{Env, Context}
use transonic.Controller.Exec.{Exec, modify, call, ◌>>◌}
use transonic.Controller.Exec.Keeps.{Keeps, Keeps-modify, keeps_rules}
use transonic.Controller.Exec.From.{From-lift, From-keeps, From-write, Keeps-from}
use transonic.Controller.Helpers.{validate_queue_index, clamp_play_next_queue_len}
use transonic.Controller.Status.{
  with_status, record_queue_change, clear_gapless_preparation, clear_server_reporting,
  clear_native_events, reset_output_stream_recovery_attempts, report_status, state,
}
use transonic.Controller.QueueOps.{
  restore_queue, restore_state, set_queue, clear_queue, finish_queue_change, end_deferred_restore,
  clear_errors, set_playing_state, replaced_queue, resting_state,
}
use transonic.Controller.Frame.{OnQueue}
use transonic.Controller.Frame.Inert.{
  report_status-Keeps, state-Keeps, clear_gapless_preparation-Keeps, clear_native_events-Keeps,
  clear_server_reporting-Keeps, reset_output_stream_recovery_attempts-Keeps, current_entry-Keeps,
  report_entry-Keeps, sync_current_position_from_backend-Keeps,
}
use transonic.Controller.Frame.QueueInert.{
  finish_queue_change-Keeps, end_deferred_restore-Keeps, clear_errors-Keeps,
  set_playing_state-Keeps,
}
use transonic.Controller.Invariant.{IndexInRange, Coherent}
use transonic.Queue.PlayNext.{clamped_play_next_queue_len}
use transonic.Queue.PlayNext.Region.{clamped_bounds}

pub clamped-le :
    (queue_len : ℕ) (current_index : Option ℕ) (n : ℕ)
    → clamped_play_next_queue_len queue_len current_index n ≤ queue_len
clamped-le queue_len current_index n =
    let bounds = clamped_bounds queue_len current_index n in omega (arith, bounds.1)

accepted :
    (queue_len i : ℕ) (e : String) (u : Unit {0}) (b : Bool)
    → leb queue_len i ≡ b
    → (if b then err e else ok tt) ≡ ok u
    → i < queue_len
accepted queue_len i e u true t h = cc
accepted queue_len i e u false t h = ground arith

-- An index that the validation accepts is in range.
pub validate_queue_index-IndexInRange :
    (queue : List SongResponse) (index : Option ℕ) (u : Unit {0})
    → validate_queue_index queue index ≡ ok u
    → IndexInRange queue index
unfolding validate_queue_index
validate_queue_index-IndexInRange [] none u h = tt
validate_queue_index-IndexInRange [] (some i) u h = cc
validate_queue_index-IndexInRange (x ∷ xs) none u h = tt
validate_queue_index-IndexInRange (x ∷ xs) (some i) u h =
    accepted (length (x ∷ xs)) i _ u (leb (length (x ∷ xs)) i) refl h

module _ {W : Type 0} ⦃env : Env W⦄ where
  abbrev Kept : {A : Type 0} → Exec W A → Type 0
  Kept m = Keeps (OnQueue Coherent) m

  pub record_queue_change-Coherent :
      (index_map : List (Option ℕ)) → Kept (record_queue_change index_map)
  unfolding record_queue_change
  record_queue_change-Coherent index_map = search (keeps_rules, Keeps-modify) depth 40

  restored :
      (queue : List SongResponse) (current_index : Option ℕ) (profile_id : String)
      → IndexInRange queue current_index
      → Kept (do
        record_queue_change []
        set_playing_state (resting_state queue)
        clear_errors
        clear_gapless_preparation
        clear_server_reporting
        modify λ c. record c { active_profile_id = some profile_id; restore_state_deferred = false }
        report_status
        state)
  restored queue current_index profile_id r =
      search
        (
          keeps_rules, Keeps-modify, record_queue_change-Coherent, set_playing_state-Keeps,
          clear_errors-Keeps, clear_gapless_preparation-Keeps, clear_server_reporting-Keeps,
          report_status-Keeps, state-Keeps,
        )
        depth 40

  restore_queue-Coherent :
      (profile_id : String) (queue : List SongResponse) (current_index : Option ℕ)
      (n position_ms : ℕ)
      → IndexInRange queue current_index
      → Kept (restore_queue profile_id queue current_index n position_ms)
  unfolding restore_queue clamp_play_next_queue_len
  restore_queue-Coherent profile_id queue current_index n position_ms r = Keeps-from _ (
      From-write (OnQueue Coherent) _ _
        (λ c h. (r, clamped-le (length queue) current_index n, refl))
        (λ _. From-keeps _ (λ c h. h) (restored queue current_index profile_id r)))

  on_validated :
      {A : Type 0} (r : Result (Unit {0})) (m n : Exec W A)
      → ((u : Unit {0}) → r ≡ ok u → Kept m)
      → Kept n
      → Kept (elim r [ ok _ ↦ m | err _ ↦ n ])
  on_validated (ok u) m n km kn = km u refl
  on_validated (err e) m n km kn = kn

  pub restore_state-Coherent :
      (profile_id : String) (queue : List SongResponse) (current_index : Option ℕ)
      (n position_ms : ℕ)
      → Kept (restore_state profile_id queue current_index n position_ms)
  unfolding restore_state
  restore_state-Coherent profile_id queue current_index n position_ms =
      on_validated (validate_queue_index queue current_index) _ _
        (λ u e.
          restore_queue-Coherent profile_id queue current_index n position_ms
            (validate_queue_index-IndexInRange queue current_index u e))
        (search (keeps_rules, Keeps-modify, state-Keeps) depth 20)

  replace_queue-Coherent :
      (entries : List SongResponse) (current_index : Option ℕ)
      → IndexInRange entries current_index
      → Kept (modify (with_status (replaced_queue entries current_index 0 0)))
  replace_queue-Coherent entries current_index r = Keeps-modify _ (λ c h. (r, omega arith, refl))

  replaced :
      (entries : List SongResponse) (current_index : Option ℕ)
      → IndexInRange entries current_index
      → Kept (do
        end_deferred_restore
        call env.stop
        clear_gapless_preparation
        clear_server_reporting
        clear_native_events
        modify (with_status (replaced_queue entries current_index 0 0))
        record_queue_change []
        clear_errors
        modify (with_status λ st. record st { actual_stream_info = none })
        reset_output_stream_recovery_attempts
        set_playing_state (resting_state entries)
        finish_queue_change)
  replaced entries current_index r =
      search
        (
          keeps_rules, Keeps-modify, replace_queue-Coherent, record_queue_change-Coherent,
          set_playing_state-Keeps, clear_errors-Keeps, clear_gapless_preparation-Keeps,
          clear_server_reporting-Keeps, clear_native_events-Keeps, end_deferred_restore-Keeps,
          reset_output_stream_recovery_attempts-Keeps, finish_queue_change-Keeps,
        )
        depth 60

  pub set_queue-Coherent :
      (entries : List SongResponse) (current_index : Option ℕ)
      → Kept (set_queue entries current_index)
  unfolding set_queue
  set_queue-Coherent entries current_index = Keeps-from _ (
      From-lift (validate_queue_index entries current_index) _
        (λ u e.
          From-keeps _ (λ c h. h)
            (replaced entries current_index
              (validate_queue_index-IndexInRange entries current_index u e)))
        (λ c h. h))

  empty_queue-Coherent : Kept (modify (with_status (replaced_queue [] none 0 0)))
  empty_queue-Coherent = replace_queue-Coherent [] none tt

  pub clear_queue-Coherent : (context : Option Context) → Kept (clear_queue context)
  unfolding clear_queue
  clear_queue-Coherent context =
      search
        (
          keeps_rules, Keeps-modify, empty_queue-Coherent, record_queue_change-Coherent,
          set_playing_state-Keeps, clear_errors-Keeps, clear_gapless_preparation-Keeps,
          clear_server_reporting-Keeps, clear_native_events-Keeps,
          sync_current_position_from_backend-Keeps, end_deferred_restore-Keeps, current_entry-Keeps,
          report_entry-Keeps, reset_output_stream_recovery_attempts-Keeps,
          finish_queue_change-Keeps,
        )
        depth 60
