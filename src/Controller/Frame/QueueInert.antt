-- ===== src/Controller/Frame/QueueInert.antt =====
-- The steps that the queue methods share and that write none of the queue's fields.
use transonic.Models.{PlayingState}
use transonic.Controller.State.{Env}
use transonic.Controller.Exec.{Exec}
use transonic.Controller.Exec.Keeps.{Keeps, Keeps-modify, keeps_rules}
use transonic.Controller.QueueOps.{
  stop_loaded_track, finish, finish_queue_change, end_deferred_restore, clear_errors,
  set_playing_state,
}
use transonic.Controller.Frame.{QueuePredicate, OnQueue}
use transonic.Controller.Frame.Inert.{
  report_status-Keeps, state-Keeps, clear_gapless_preparation-Keeps, clear_native_events-Keeps,
  clear_server_reporting-Keeps, sync_queue_state-Keeps, persist_state-Keeps,
}

module _ (Q : QueuePredicate) {W : Type 0} ⦃env : Env W⦄ where
  abbrev Inert : {A : Type 0} → Exec W A → Type 0
  Inert m = Keeps (OnQueue Q) m

  pub finish-Keeps : Inert finish
  unfolding finish
  finish-Keeps =
      search (keeps_rules, persist_state-Keeps, report_status-Keeps, state-Keeps) depth 40

  pub finish_queue_change-Keeps : Inert finish_queue_change
  unfolding finish_queue_change
  finish_queue_change-Keeps = search (keeps_rules, sync_queue_state-Keeps, finish-Keeps) depth 40

  pub end_deferred_restore-Keeps : Inert end_deferred_restore
  unfolding end_deferred_restore
  end_deferred_restore-Keeps = search (keeps_rules, Keeps-modify) depth 40

  pub clear_errors-Keeps : Inert clear_errors
  unfolding clear_errors
  clear_errors-Keeps = search (keeps_rules, Keeps-modify) depth 40

  pub set_playing_state-Keeps :
      (playing_state : PlayingState) → Inert (set_playing_state playing_state)
  unfolding set_playing_state
  set_playing_state-Keeps playing_state = search (keeps_rules, Keeps-modify) depth 40

  pub stop_loaded_track-Keeps : Inert stop_loaded_track
  unfolding stop_loaded_track
  stop_loaded_track-Keeps =
      search
        (
          keeps_rules, clear_gapless_preparation-Keeps, clear_native_events-Keeps,
          clear_server_reporting-Keeps, set_playing_state-Keeps,
        )
        depth 40
