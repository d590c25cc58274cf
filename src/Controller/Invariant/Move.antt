-- ===== src/Controller/Invariant/Move.antt =====
-- Coherence of the queue under batch moves (src-tauri/src/playback/controller.rs).
use transonic.Prelude.{
  ℕ, zero, suc, ◌≤◌, ◌<◌, ◌≡◌, ◌∙◌, ap, subst, sym, refl, arith, String, Bool, true, false, Option,
  none, some, List, [], ◌∷◌, length, get_elem?, lt_of_get_elem?, ltb, leb→le, if◌then◌else◌,
  u32_mod, u32_from,
}
use transonic.Models.{SongResponse}
use transonic.Controller.State.{Controller, Env}
use transonic.Controller.Exec.{Exec, pure, raise, modify, ◌>>=◌, ◌>>◌}
use transonic.Controller.Exec.Keeps.{Keeps, Keeps-bind}
use transonic.Controller.Exec.From.{
  From, From-if, From-gets, From-lift, From-step, From-keeps, From-write, Keeps-from,
}
use transonic.Controller.Status.{
  with_status, record_queue_change, clear_gapless_preparation,
  sync_current_position_for_queue_mutation,
}
use transonic.Controller.QueueOps.{
  moved_status, move_queue_indices, end_deferred_restore, finish_queue_change,
}
use transonic.Controller.Frame.{QueuePredicate, OnQueue}
use transonic.Controller.Frame.Inert.{
  state-Keeps, clear_gapless_preparation-Keeps, sync_current_position_for_queue_mutation-Keeps,
}
use transonic.Controller.Frame.QueueInert.{finish_queue_change-Keeps, end_deferred_restore-Keeps}
use transonic.Controller.Invariant.{IndexInRange, Coherent, HasCoherentQueue}
use transonic.Controller.Invariant.Queue.{clamped-le, record_queue_change-Coherent}
use transonic.Queue.PlayNext.{option_eq}
use transonic.Queue.PlayNext.Region.{adjusted-le}
use transonic.Queue.Indices.{sorted_queue_indices, IsIncreasing, AllBelow}
use transonic.Queue.Indices.Sorted.{sorted_queue_indices_sound}
use transonic.Queue.IndexMap.{
  moved_queue_index_map, apply_queue_index_map, mapped_queue_index, is_identity_from,
  flatten_option,
}
use transonic.Queue.IndexMap.Follows.{moved_follows}

pub fits_some : (v j : ℕ) (b : Bool) → (if b then some v else none) ≡ some j → v ≡ j
fits_some v j true h = cc
fits_some v j false h = cc

mapped_some :
    (o : Option (Option ℕ)) (j : ℕ)
    → elim (flatten_option o) [ none ↦ none | some value ↦ u32_from value ] ≡ some j
    → o ≡ some (some j)
mapped_some none j h = cc
mapped_some (some none) j h = cc
mapped_some (some (some v)) j h = ap (λ k. some (some k)) (fits_some v j (ltb v u32_mod) h)

pub in_range_if :
    (queue : List SongResponse) (o : Option ℕ)
    → ((j : ℕ) → o ≡ some j → j < length queue)
    → IndexInRange queue o
in_range_if queue none k = tt
in_range_if queue (some j) k = k j refl

pub get_elem?-some {ℓ} :
    {A : Type ℓ} (xs : List A) (i : ℕ) → i < length xs → (x : A) × (get_elem? xs i ≡ some x)
get_elem?-some [] i h = absurd (omega arith)
get_elem?-some (x ∷ xs) zero h = (x, refl)
get_elem?-some (x ∷ xs) (suc i) h = get_elem?-some xs i (omega arith)

-- The index that a move gives to the current entry is in range of the moved queue.
moved-IndexInRange :
    (queue : List SongResponse) (moving : List ℕ) (insert_before : ℕ) (current_index : Option ℕ)
    → IsIncreasing 0 moving
    → AllBelow (length queue) moving
    → insert_before ≤ length queue
    → IndexInRange queue current_index
    → IndexInRange
        (apply_queue_index_map queue (moved_queue_index_map (length queue) moving insert_before))
        (mapped_queue_index current_index
          (moved_queue_index_map (length queue) moving insert_before))
unfolding mapped_queue_index
moved-IndexInRange queue moving insert_before none increasing below inside h = tt
moved-IndexInRange queue moving insert_before (some i) increasing below inside h =
    let index_map = moved_queue_index_map (length queue) moving insert_before in
    in_range_if _ _ λ j e.
      let follows =
        moved_follows moving insert_before queue increasing below inside i j
          (mapped_some (get_elem? index_map i) j e) in
      let found = get_elem?-some queue i h in
      lt_of_get_elem? (apply_queue_index_map queue index_map) j found.0 (follows ∙ found.1)

either_le : (b : Bool) (x y m : ℕ) → x ≤ m → y ≤ m → (if b then x else y) ≤ m
either_le true x y m hx hy = hx
either_le false x y m hx hy = hy

moved_write :
    (c : Controller) (moving : List ℕ) (queue_len insert_before : ℕ)
    → IsIncreasing 0 moving
    → AllBelow queue_len moving
    → insert_before ≤ queue_len
    → queue_len ≡ length c.status.queue
    → HasCoherentQueue c
    → OnQueue Coherent
        (with_status (moved_status (moved_queue_index_map queue_len moving insert_before)) c)
unfolding moved_status
moved_write c moving queue_len insert_before increasing below inside e h =
    let at_len = λ (n : ℕ).
      OnQueue Coherent
        (with_status (moved_status (moved_queue_index_map n moving insert_before)) c) in
    subst at_len (sym e) (
      moved-IndexInRange c.status.queue moving insert_before c.status.current_index increasing
          (subst (λ n. AllBelow n moving) e below) (omega (arith, inside, e)) h.0,
      either_le (option_eq _ c.status.current_index) _ _ _
          (clamped-le _ _ c.status.play_next_queue_len)
          (adjusted-le _ c.status.current_index c.status.play_next_queue_len _),
      refl,
    )

-- A coherent queue of a known length.
abbrev pub Sized : ℕ → QueuePredicate
Sized queue_len queue current_index n song_id revision index_map =
    Coherent queue current_index n song_id revision index_map × (length queue ≡ queue_len)

module _ {W : Type 0} ⦃env : Env W⦄ where
  abbrev Kept : {A : Type 0} → Exec W A → Type 0
  Kept m = Keeps (OnQueue Coherent) m

  abbrev Ends : {A : Type 0} → QueuePredicate → Exec W A → Type 0
  Ends Q m = From (OnQueue Q) m (OnQueue Coherent)

  move_entries :
      (moving : List ℕ) (queue_len insert_before : ℕ)
      → IsIncreasing 0 moving
      → AllBelow queue_len moving
      → insert_before ≤ queue_len
      → Ends (Sized queue_len) (do
        end_deferred_restore
        clear_gapless_preparation
        sync_current_position_for_queue_mutation
        modify (with_status (moved_status (moved_queue_index_map queue_len moving insert_before)))
        record_queue_change (moved_queue_index_map queue_len moving insert_before)
        finish_queue_change)
  move_entries moving queue_len insert_before increasing below inside =
      From-step _ _ (end_deferred_restore-Keeps (Sized queue_len))
        (λ _.
          From-step _ _ (clear_gapless_preparation-Keeps (Sized queue_len))
            (λ _.
              From-step _ _ (sync_current_position_for_queue_mutation-Keeps (Sized queue_len))
                (λ _.
                  From-write (OnQueue Coherent) _ _
                    (λ c h.
                      moved_write c moving queue_len insert_before increasing below inside (sym h.1)
                        h.0)
                    (λ _.
                      From-keeps _ (λ c h. h)
                        (Keeps-bind _ _ (record_queue_change-Coherent _)
                          (λ _. finish_queue_change-Keeps Coherent))))
                (λ c h. h.0))
            (λ c h. h.0))
        (λ c h. h.0)

  check_gap :
      {B : Type 0} (Q : QueuePredicate) (e : String) (b : Bool) (f : Unit {0} → Exec W B)
      → (b ≡ true → Ends Q (f tt))
      → ((c : Controller) → OnQueue Q c → OnQueue Coherent c)
      → Ends Q ((if b then pure tt else raise e) >>= f)
  unfolding pure raise ◌>>=◌
  check_gap Q e true f k w = record { after = λ s h. (k refl).after s h }
  check_gap Q e false f k w = record { after = λ s h. w s.controller h }

  pub move_queue_indices-Coherent :
      (indices : List ℕ) (insert_before : ℕ) → Kept (move_queue_indices indices insert_before)
  unfolding move_queue_indices
  move_queue_indices-Coherent indices insert_before = Keeps-from _ (
      From-gets _ _ λ queue_len.
        From-lift (sorted_queue_indices indices queue_len) _
          (λ moving e.
            let sound = sorted_queue_indices_sound indices queue_len moving e in
            check_gap (Sized queue_len) _ _ _
              (λ t.
                From-if (is_identity_from 0 (moved_queue_index_map queue_len moving insert_before))
                  _ _ (λ _. From-keeps _ (λ c h. h.0) (state-Keeps Coherent))
                  (λ _. move_entries moving queue_len insert_before sound.0 sound.1 (leb→le _ _ t)))
              (λ c h. h.0))
          (λ c h. h.0))
