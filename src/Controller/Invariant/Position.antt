-- ===== src/Controller/Invariant/Position.antt =====
-- Coherence of the queue under the choice of a first current index and of a position (src-tauri/src/playback/controller.rs).
use transonic.Prelude.{
  ℕ, ◌<◌, ◌≡◌, ap, sym, refl, arith, String, Bool, true, false, Option, none, some, List, [], ◌∷◌,
  length, is_empty, ltb, if◌then◌else◌, Bool-cases, inl, inr,
}
use transonic.Models.{SongResponse}
use transonic.Controller.State.{Controller, Env}
use transonic.Controller.Exec.{Machine, Exec, pure, raise, modify, gets, if_some, ◌>>=◌, ◌>>◌}
use transonic.Controller.Exec.Keeps.{Keeps, Keeps-modify, Keeps-when, keeps_rules}
use transonic.Controller.Exec.From.{From, From-read, From-step, From-keeps, From-write, Keeps-from}
use transonic.Controller.Helpers.{current_song_id, clamp_play_next_queue_len}
use transonic.Controller.Status.{
  with_status, ensure_current_index, sync_actual_stream_info_from_backend,
  reset_output_stream_recovery_attempts,
}
use transonic.Controller.QueueOps.{finish, set_position}
use transonic.Controller.Frame.{QueuePredicate, OnQueue}
use transonic.Controller.Frame.Inert.{
  reset_output_stream_recovery_attempts-Keeps, sync_actual_stream_info_from_backend-Keeps,
}
use transonic.Controller.Frame.QueueInert.{
  finish-Keeps, end_deferred_restore-Keeps, stop_loaded_track-Keeps,
}
use transonic.Controller.Invariant.{Coherent, HasCoherentQueue}
use transonic.Controller.Invariant.Queue.{clamped-le}

-- A coherent queue with a known current index.
abbrev pub Current : ℕ → QueuePredicate
Current index queue current_index n song_id revision index_map =
    Coherent queue current_index n song_id revision index_map × (current_index ≡ some index)

not_empty : (queue : List SongResponse) → is_empty queue ≡ false → 0 < length queue
not_empty [] h = cc
not_empty (x ∷ xs) h = omega arith

module _ {W : Type 0} ⦃env : Env W⦄ where
  abbrev Kept : {A : Type 0} → Exec W A → Type 0
  Kept m = Keeps (OnQueue Coherent) m

  ensure_cases :
      {B : Type 0} (R : Controller → Type 0) (f : ℕ → Exec W B) (s : Machine W) (b : Bool)
      (o : Option ℕ) (inside : ℕ → Bool) (e e' : String)
      → ((index : ℕ) → From (OnQueue (Current index)) (f index) R)
      → ((c : Controller) → HasCoherentQueue c → R c)
      → is_empty s.controller.status.queue ≡ b
      → s.controller.status.current_index ≡ o
      → HasCoherentQueue s.controller
      → R
          (((if b
                then raise e
                else if_some o
                    (λ index. if inside index then pure index else raise e')
                    (do
                      modify (
                          with_status
                            λ st. clamp_play_next_queue_len (record st { current_index = some 0 }))
                      modify (
                          with_status
                            λ st. record st { current_song_id = current_song_id st.queue (some 0) })
                      pure 0))
              >>= f)
            s).1.controller
  unfolding raise if_some pure modify ◌>>=◌ clamp_play_next_queue_len
  ensure_cases R f s true o inside e e' k w eb eo h = w s.controller h
  ensure_cases R f s false (some index) inside e e' k w eb eo h = elim (Bool-cases (inside index)) [
    | inl t ↦ rw t ((k index).after s (h, eo))
    | inr t ↦ rw t (w s.controller h)
  ]
  ensure_cases R f s false none inside e e' k w eb eo h = (k 0).after _ (
    (
      not_empty s.controller.status.queue eb,
      clamped-le (length s.controller.status.queue) (some 0)
          s.controller.status.play_next_queue_len,
      refl,
    ),
    refl,
  )

  pub ensure_current_index-Current :
      {B : Type 0} (R : Controller → Type 0) (f : ℕ → Exec W B)
      → ((index : ℕ) → From (OnQueue (Current index)) (f index) R)
      → ((c : Controller) → HasCoherentQueue c → R c)
      → From HasCoherentQueue (ensure_current_index >>= f) R
  unfolding ensure_current_index gets ◌>>=◌
  ensure_current_index-Current R f k w = record {
    after = λ s h.
        ensure_cases R f s (is_empty s.controller.status.queue) s.controller.status.current_index
          (λ index. ltb index (length s.controller.status.queue)) _ _ k w refl refl h;
  }

  set_position_rest :
      (position_ms : ℕ)
      → Kept (do
        sync_actual_stream_info_from_backend
        modify λ c. record c { interrupted_resume_state = none }
        reset_output_stream_recovery_attempts
        finish)
  set_position_rest position_ms =
      search
        (
          keeps_rules, Keeps-modify, sync_actual_stream_info_from_backend-Keeps,
          reset_output_stream_recovery_attempts-Keeps, finish-Keeps,
        )
        depth 40

  pub set_position-Coherent : (position_ms : ℕ) → Kept (set_position position_ms)
  unfolding set_position
  set_position-Coherent position_ms = Keeps-from _ (
      ensure_current_index-Current (OnQueue Coherent) _
        (λ index.
          From-step _ _ (end_deferred_restore-Keeps (Current index))
            (λ _. From-read _ _ λ c hc.
              From-step _ _ (Keeps-when _ _ (stop_loaded_track-Keeps (Current index)))
                (λ _.
                  From-write (OnQueue Coherent) _ _
                    (λ c h. (h.0.0, h.0.1, ap (λ i. current_song_id c.status.queue i) (sym h.1)))
                    (λ _. From-keeps _ (λ c h. h) (set_position_rest position_ms)))
                (λ c h. h.0))
            (λ c h. h.0))
        (λ c h. h))
