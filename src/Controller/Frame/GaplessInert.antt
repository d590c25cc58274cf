-- ===== src/Controller/Frame/GaplessInert.antt =====
-- The gapless methods that write none of the queue's fields.
use transonic.Prelude.{ℕ, String, Bool, Option, none, some}
use transonic.Models.{SongResponse}
use transonic.Controller.State.{
  Env, Context, GaplessTrackTarget, PreparedGaplessTrackState, preparing, ready, failed,
}
use transonic.Controller.Exec.{Exec}
use transonic.Controller.Exec.Keeps.{Keeps, Keeps-modify, keeps_rules}
use transonic.Controller.Frame.{QueuePredicate, OnQueue}
use transonic.Controller.Frame.Inert.{
  update_gapless_status-Keeps, clear_gapless_preparation-Keeps, prepare_stream_for_song-Keeps,
}
use transonic.Controller.Gapless.{
  try_activate_backend_prepared_track, activate_prepared_state, try_activate_prepared_gapless_track,
  prepare_target, sync_gapless_for_current_track, handle_gapless_prepared, handle_gapless_failed,
  confirm_generation,
}

module _ (Q : QueuePredicate) {W : Type 0} ⦃env : Env W⦄ where
  abbrev Inert : {A : Type 0} → Exec W A → Type 0
  Inert m = Keeps (OnQueue Q) m

  pub try_activate_backend_prepared_track-Keeps :
      (autoplay : Bool) → Inert (try_activate_backend_prepared_track autoplay)
  unfolding try_activate_backend_prepared_track
  try_activate_backend_prepared_track-Keeps autoplay =
      search
        (keeps_rules, Keeps-modify, update_gapless_status-Keeps, clear_gapless_preparation-Keeps)
        depth 40

  pub activate_prepared_state-Keeps :
      (prepared : PreparedGaplessTrackState) (autoplay : Bool)
      → Inert (activate_prepared_state prepared autoplay)
  unfolding activate_prepared_state
  activate_prepared_state-Keeps prepared autoplay =
      search
        (
          keeps_rules, Keeps-modify, clear_gapless_preparation-Keeps,
          try_activate_backend_prepared_track-Keeps,
        )
        depth 40

  pub try_activate_prepared_gapless_track-Keeps :
      (index : ℕ) (entry : SongResponse) (position_ms : ℕ) (autoplay : Bool)
      → Inert (try_activate_prepared_gapless_track index entry position_ms autoplay)
  unfolding try_activate_prepared_gapless_track
  try_activate_prepared_gapless_track-Keeps index entry position_ms autoplay =
      search (keeps_rules, clear_gapless_preparation-Keeps, activate_prepared_state-Keeps) depth 40

  pub prepare_target-Keeps :
      (context : Context) (target : GaplessTrackTarget) → Inert (prepare_target context target)
  unfolding prepare_target
  prepare_target-Keeps context target =
      search
        (
          keeps_rules, Keeps-modify, update_gapless_status-Keeps, clear_gapless_preparation-Keeps,
          prepare_stream_for_song-Keeps,
        )
        depth 40

  pub sync_gapless_for_current_track-Keeps :
      (context : Option Context) → Inert (sync_gapless_for_current_track context)
  unfolding sync_gapless_for_current_track
  sync_gapless_for_current_track-Keeps context =
      search (keeps_rules, clear_gapless_preparation-Keeps, prepare_target-Keeps) depth 40

  confirm_prepared :
      (prepared : Option PreparedGaplessTrackState) (generation : ℕ)
      → Inert (confirm_generation prepared generation)
  unfolding confirm_generation
  confirm_prepared (some (preparing target current)) generation =
      search (keeps_rules, Keeps-modify) depth 40
  confirm_prepared (some (ready target current)) generation = search keeps_rules
  confirm_prepared (some (failed target current)) generation = search keeps_rules
  confirm_prepared none generation = search keeps_rules

  pub handle_gapless_prepared-Keeps : (generation : ℕ) → Inert (handle_gapless_prepared generation)
  unfolding handle_gapless_prepared
  handle_gapless_prepared-Keeps generation = search (keeps_rules, confirm_prepared)

  pub handle_gapless_failed-Keeps :
      (generation : ℕ) (message : String) → Inert (handle_gapless_failed generation message)
  unfolding handle_gapless_failed
  handle_gapless_failed-Keeps generation message = search (keeps_rules, Keeps-modify) depth 40
