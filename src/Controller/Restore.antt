-- ===== src/Controller/Restore.antt =====
-- What `restore_state` of src-tauri/src/playback/controller.rs restores.
use transonic.Prelude.{
  ℕ, ◌+◌, ◌≤◌, ◌<◌, ◌≡◌, refl, arith, String, false, Option, none, some, List, [], length, u32_mod,
}
use transonic.Result.{Result, ok, err}
use transonic.Models.{SongResponse}
use transonic.Controller.State.{Controller, Env}
use transonic.Controller.Exec.{Machine, Exec, modify, ◌>>◌}
use transonic.Controller.Exec.Keeps.{Keeps, Keeps-modify, keeps_rules}
use transonic.Controller.Exec.From.{From, From-keeps, From-write}
use transonic.Controller.Helpers.{validate_queue_index, current_song_id, clamp_play_next_queue_len}
use transonic.Controller.Status.{
  record_queue_change, clear_gapless_preparation, clear_server_reporting, report_status, state,
}
use transonic.Controller.QueueOps.{
  restore_state, restore_queue, resting_state, clear_errors, set_playing_state,
}
use transonic.Controller.CurrentEntry.{accepts}
use transonic.Controller.Frame.{QueuePredicate, OnQueue}
use transonic.Controller.Frame.Inert.{
  clear_gapless_preparation-Keeps, clear_server_reporting-Keeps, report_status-Keeps, state-Keeps,
}
use transonic.Controller.Frame.QueueInert.{clear_errors-Keeps, set_playing_state-Keeps}
use transonic.Controller.Invariant.{IndexInRange}
use transonic.Queue.PlayNext.{play_next_start_index, clamped_play_next_queue_len}

-- A given queue, current entry and play-next length, under any revision.
abbrev Snapshot : List SongResponse → Option ℕ → ℕ → QueuePredicate
Snapshot queue current_index n queue' current_index' n' song_id revision index_map =
    (queue' ≡ queue)
    × (current_index' ≡ current_index)
    × (n' ≡ n)
    × (song_id ≡ current_song_id queue current_index)

clamped-eq :
    (queue_len : ℕ) (current_index : Option ℕ) (n : ℕ)
    → play_next_start_index queue_len current_index + n ≤ queue_len
    → n < u32_mod
    → clamped_play_next_queue_len queue_len current_index n ≡ n
unfolding clamped_play_next_queue_len
clamped-eq queue_len none n h small = ground arith
clamped-eq queue_len (some i) n h small = ground arith

module _ {W : Type 0} ⦃env : Env W⦄ (queue : List SongResponse) (current_index : Option ℕ)
    (n : ℕ) where
  abbrev Restored : {A : Type 0} → Exec W A → Type 0
  Restored m = Keeps (OnQueue (Snapshot queue current_index n)) m

  record_change : Restored (record_queue_change [])
  unfolding record_queue_change
  record_change = search (keeps_rules, Keeps-modify) depth 40

  settled :
      (profile_id : String)
      → Restored (do
        record_queue_change []
        set_playing_state (resting_state queue)
        clear_errors
        clear_gapless_preparation
        clear_server_reporting
        modify λ c. record c { active_profile_id = some profile_id; restore_state_deferred = false }
        report_status
        state)
  settled profile_id =
      search
        (
          keeps_rules, Keeps-modify, record_change, set_playing_state-Keeps, clear_errors-Keeps,
          clear_gapless_preparation-Keeps, clear_server_reporting-Keeps, report_status-Keeps,
          state-Keeps,
        )
        depth 60

  restored :
      (profile_id : String) (position_ms : ℕ)
      → clamped_play_next_queue_len (length queue) current_index n ≡ n
      → From {W = W}
          (λ _. Unit {0})
          (restore_queue profile_id queue current_index n position_ms)
          (OnQueue (Snapshot queue current_index n))
  unfolding restore_queue clamp_play_next_queue_len
  restored profile_id position_ms h =
      From-write (OnQueue (Snapshot queue current_index n)) _ _ (λ c _. (refl, refl, h, refl))
        (λ _. From-keeps _ (λ c h'. h') (settled profile_id))

module _ {W A : Type 0} {P R : Controller → Type 0} where
  on_accepted :
      (r : Result (Unit {0})) (m m' : Exec W A)
      → r ≡ ok tt
      → From P m R
      → From P (elim r [ ok _ ↦ m | err _ ↦ m' ]) R
  on_accepted (ok u) m m' e k = k
  on_accepted (err e') m m' e k = cc

module _ {W : Type 0} ⦃env : Env W⦄ where
  -- Restoring a queue whose current index, if there is one, is in range, and whose play-next length is
  -- below 2³² and fits behind the current entry, gives back that queue, that index, that length and the
  -- id of the current entry, from any state.
  pub restore_state-Snapshot :
      (profile_id : String) (queue : List SongResponse) (current_index : Option ℕ)
      (n position_ms : ℕ)
      → IndexInRange queue current_index
      → play_next_start_index (length queue) current_index + n ≤ length queue
      → n < u32_mod
      → (s : Machine W)
      → let status =
          (restore_state profile_id queue current_index n position_ms s).1.controller.status in
        (status.queue ≡ queue)
        × (status.current_index ≡ current_index)
        × (status.play_next_queue_len ≡ n)
        × (status.current_song_id ≡ current_song_id queue current_index)
  unfolding restore_state
  restore_state-Snapshot profile_id queue current_index n position_ms r fits small s =
      let k =
        on_accepted (validate_queue_index queue current_index) _ _ (accepts queue current_index r) (
          restored queue current_index n profile_id position_ms
            (clamped-eq (length queue) current_index n fits small)) in
      k.after s tt
