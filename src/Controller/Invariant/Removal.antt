-- ===== src/Controller/Invariant/Removal.antt =====
-- Coherence of the queue under removals (src-tauri/src/playback/controller.rs).
use transonic.Prelude.{
  ℕ, zero, suc, ◌-◌, ◌<◌, ◌≡◌, ◌∙◌, ap, refl, arith, Bool, true, false, ◌&&◌, Option, none, some,
  List, [], ◌∷◌, length, get_elem?, lt_of_get_elem?, ltb, ◌==◌, if◌then◌else◌, u32_mod,
}
use transonic.Models.{SongResponse, is_loaded}
use transonic.Controller.State.{Env, Context}
use transonic.Controller.Exec.{Exec, modify, gets, when, ◌>>=◌, ◌>>◌}
use transonic.Controller.Exec.Keeps.{Keeps, Keeps-modify, Keeps-when, Keeps-if, keeps_rules}
use transonic.Controller.Exec.From.{
  From, From-gets, From-read, From-step, From-keeps, From-bind, From-modify, From-weaken,
  Keeps-from,
}
use transonic.Controller.Status.{
  with_status, should_autoplay, record_queue_change, clear_gapless_preparation,
  sync_current_position_from_backend, sync_current_position_for_queue_mutation,
}
use transonic.Controller.QueueOps.{
  end_deferred_restore, finish_queue_change, valid_index, remove_at, index_after_remove,
  index_after_removal,
}
use transonic.Controller.Removal.{
  is_at, removed_one_status, removed_status, u32_option, stop_removed_entry, load_replacement,
  replace_current, remove_queue_index, pause_replacement, rest_after_removal, remove_queue_indices,
}
use transonic.Controller.Frame.{QueuePredicate, OnQueue}
use transonic.Controller.Frame.Inert.{
  report_status-Keeps, state-Keeps, clear_gapless_preparation-Keeps, clear_native_events-Keeps,
  clear_server_reporting-Keeps, sync_queue_state-Keeps, persist_state-Keeps, report_entry-Keeps,
  sync_current_position_from_backend-Keeps, sync_current_position_for_queue_mutation-Keeps,
}
use transonic.Controller.Frame.QueueInert.{
  finish_queue_change-Keeps, end_deferred_restore-Keeps, clear_errors-Keeps,
  set_playing_state-Keeps,
}
use transonic.Controller.Invariant.{IndexInRange, Coherent}
use transonic.Controller.Invariant.Loads.{load_track_at_index-Coherent}
use transonic.Controller.Invariant.Events.{process_native_events_inner-Coherent}
use transonic.Controller.Invariant.Queue.{clamped-le, record_queue_change-Coherent}
use transonic.Controller.Invariant.Move.{Sized, fits_some, in_range_if, get_elem?-some}
use transonic.Controller.Invariant.Transport.{Within, above, check_index}
use transonic.Queue.IndexMap.{
  IndexMap, removed_loop, removed_queue_index_map, apply_queue_index_map, flatten_option,
}
use transonic.Queue.IndexMap.Removed.{removed_follows}

pub length-remove_at {ℓ} :
    {A : Type ℓ} (xs : List A) (i : ℕ) → i < length xs → length (remove_at xs i) ≡ length xs - 1
length-remove_at [] i h = absurd (omega arith)
length-remove_at (x ∷ xs) zero h = omega arith
length-remove_at (x ∷ xs) (suc i) h = omega (arith, h, length-remove_at xs i (omega arith))

after_remove_below :
    (i r queue_len m j : ℕ)
    → i < queue_len
    → r < queue_len
    → m ≡ queue_len - 1
    → index_after_remove (valid_index (some i) queue_len) r m ≡ some j
    → j < m
after_remove_below i r queue_len m j hi hr hm e = ground arith

after_remove-IndexInRange :
    (queue : List SongResponse) (current_index : Option ℕ) (r : ℕ)
    → IndexInRange queue current_index
    → r < length queue
    → IndexInRange (remove_at queue r) (
        index_after_remove
          (valid_index current_index (length queue))
          r
          (length (remove_at queue r)))
after_remove-IndexInRange queue none r h hr = tt
after_remove-IndexInRange queue (some i) r h hr =
    in_range_if _ _
      (λ j e. after_remove_below i r (length queue) _ j h hr (length-remove_at queue r hr) e)

if_none :
    (b : Bool) (o : Option ℕ) (j : ℕ)
    → (if b then none else o) ≡ some j
    → (b ≡ false) × (o ≡ some j)
if_none true o j h = cc
if_none false o j h = (refl, h)

last_below : (m j : ℕ) → (m == 0) ≡ false → some (m - 1) ≡ some j → j < m
last_below m j h e = let e' : m - 1 ≡ j = cc in ground arith

module _ (index_map : IndexMap) (m : ℕ)
    (below : (i j : ℕ) → flatten_option (get_elem? index_map i) ≡ some j → j < m) where
  replacement_below :
      (o : Option ℕ) (j : ℕ)
      → ((k : ℕ) → o ≡ some k → k < m)
      → (m == 0) ≡ false
      → elim o [ none ↦ some (m - 1) | some new ↦ some new ] ≡ some j
      → j < m
  replacement_below none j k z e = last_below m j z e
  replacement_below (some new) j k z e = k j e

  after_removal_below :
      (current_index removed replacement : Option ℕ) (j : ℕ)
      → index_after_removal current_index removed replacement index_map m ≡ some j
      → j < m
  after_removal_below none removed replacement j e = cc
  after_removal_below (some current) none replacement j e =
      below current j (if_none (m == 0) _ j e).1
  after_removal_below (some current) (some r) none j e =
      let split = if_none (m == 0) _ j e in last_below m j split.0 split.1
  after_removal_below (some current) (some r) (some index) j e =
      let split = if_none (m == 0) _ j e in
      replacement_below (flatten_option (get_elem? index_map index)) j (below index) split.0 split.1

length-removed_loop :
    (removing : List ℕ) (index left next : ℕ)
    → length (removed_loop removing index left next) ≡ left
unfolding removed_loop
length-removed_loop removing index zero next = refl
length-removed_loop removing index (suc left) next =
    ap suc (length-removed_loop removing (suc index) left _)

flatten_some_iff : (o : Option (Option ℕ)) (j : ℕ) → flatten_option o ≡ some j → o ≡ some (some j)
flatten_some_iff none j e = cc
flatten_some_iff (some o) j e = ap some e

removed_below :
    (queue : List SongResponse) (removing : List ℕ) (i j : ℕ)
    → flatten_option (get_elem? (removed_queue_index_map (length queue) removing) i) ≡ some j
    → j < length (apply_queue_index_map queue (removed_queue_index_map (length queue) removing))
unfolding removed_queue_index_map
removed_below queue removing i j e =
    let index_map = removed_queue_index_map (length queue) removing in
    let found = flatten_some_iff (get_elem? index_map i) j e in
    let inside = lt_of_get_elem? index_map i (some j) found in
    let entry =
      get_elem?-some queue i
        (omega (arith, inside, length-removed_loop removing 0 (length queue) 0)) in
    lt_of_get_elem? (apply_queue_index_map queue index_map) j entry.0
      (removed_follows removing queue i j found ∙ entry.1)

u32_in_range :
    (o : Option ℕ) (m j : ℕ) → ((k : ℕ) → o ≡ some k → k < m) → u32_option o ≡ some j → j < m
u32_in_range none m j k e = cc
u32_in_range (some v) m j k e = let same = fits_some v j (ltb v u32_mod) e in k j (ap some same)

module _ {W : Type 0} ⦃env : Env W⦄ where
  abbrev Kept : {A : Type 0} → Exec W A → Type 0
  Kept m = Keeps (OnQueue Coherent) m

  abbrev Ends : {A : Type 0} → QueuePredicate → Exec W A → Type 0
  Ends Q m = From (OnQueue Q) m (OnQueue Coherent)

  stop_removed_entry-Keeps :
      (Q : QueuePredicate) (context : Option Context) (removed : ℕ)
      → Keeps {W = W} (OnQueue Q) (stop_removed_entry context removed)
  unfolding stop_removed_entry
  stop_removed_entry-Keeps Q context removed =
      search
        (keeps_rules, clear_native_events-Keeps, report_entry-Keeps, clear_server_reporting-Keeps)
        depth 40

  load_replacement-Coherent :
      (context : Context) (next_index : ℕ) (autoplay : Bool)
      → Kept (load_replacement context next_index autoplay)
  unfolding load_replacement
  load_replacement-Coherent context next_index autoplay =
      search
        (
          keeps_rules, sync_queue_state-Keeps, load_track_at_index-Coherent, persist_state-Keeps,
          process_native_events_inner-Coherent, report_status-Keeps, state-Keeps,
        )
        depth 40

  replace_current-Coherent :
      (context : Option Context) (was_loaded autoplay : Bool)
      → Kept (replace_current context was_loaded autoplay)
  unfolding replace_current
  replace_current-Coherent context was_loaded autoplay =
      search
        (
          keeps_rules, Keeps-modify, clear_errors-Keeps, set_playing_state-Keeps,
          load_replacement-Coherent, finish_queue_change-Keeps,
        )
        depth 60

  pause_replacement-Coherent :
      (context : Option Context) (was_loaded : Bool) (replacement : Option ℕ)
      → Kept (pause_replacement context was_loaded replacement)
  unfolding pause_replacement
  pause_replacement-Coherent context was_loaded replacement =
      search (keeps_rules, clear_errors-Keeps, load_replacement-Coherent, finish_queue_change-Keeps)
        depth 60

  rest_after_removal-Coherent : (removed_current : Bool) → Kept (rest_after_removal removed_current)
  unfolding rest_after_removal
  rest_after_removal-Coherent removed_current = search (keeps_rules, Keeps-modify) depth 40

  settle_position :
      (Q : QueuePredicate) (current : Bool)
      → Keeps {W = W} (OnQueue Q) (
          if current
          then sync_current_position_from_backend
          else sync_current_position_for_queue_mutation)
  settle_position Q current =
      Keeps-if current _ _ (sync_current_position_from_backend-Keeps Q)
        (sync_current_position_for_queue_mutation-Keeps Q)

  removed_one : (r : ℕ) → Ends (Within r) (modify (with_status (removed_one_status r)))
  unfolding removed_one_status
  removed_one r = From-modify _ (λ c h. (
    after_remove-IndexInRange c.status.queue c.status.current_index r h.0.0 h.1,
    clamped-le (length (remove_at c.status.queue r)) _ _,
    refl,
  ))

  removed_many : (removing : List ℕ) → Kept (modify (with_status (removed_status removing)))
  unfolding removed_status
  removed_many removing = Keeps-modify _ (λ c h. (
    in_range_if _ _ (λ j. u32_in_range _ _ j (
        after_removal_below (removed_queue_index_map (length c.status.queue) removing) _
          (removed_below c.status.queue removing) _ _ _)),
    clamped-le _ _ _,
    refl,
  ))

  finish_removal :
      (context : Option Context) (current was_loaded autoplay : Bool) (index_map : IndexMap)
      → Kept (do
        record_queue_change index_map
        if current then replace_current context was_loaded autoplay else finish_queue_change)
  finish_removal context current was_loaded autoplay index_map =
      search
        (
          keeps_rules, record_queue_change-Coherent, replace_current-Coherent,
          finish_queue_change-Keeps,
        )
        depth 20

  remove_inside :
      (context : Option Context) (queue_len r : ℕ)
      → Ends (Within r) (do
        end_deferred_restore
        status ← gets (λ c. c.status)
        autoplay ← gets should_autoplay
        let removing_current = is_at (valid_index status.current_index queue_len) r
        let was_loaded = is_loaded status.playing_state
        if removing_current
            then sync_current_position_from_backend
            else sync_current_position_for_queue_mutation
        clear_gapless_preparation
        when (removing_current && was_loaded) (stop_removed_entry context r)
        modify (with_status (removed_one_status r))
        record_queue_change (removed_queue_index_map queue_len (r ∷ []))
        if removing_current
            then replace_current context was_loaded autoplay
            else finish_queue_change)
  remove_inside context queue_len r =
      From-step _ _ (end_deferred_restore-Keeps (Within r))
        (λ _. From-read _ _ λ c hc. From-read _ _ λ c' hc'.
          From-step _ _ (settle_position (Within r) _)
            (λ _.
              From-step _ _ (clear_gapless_preparation-Keeps (Within r))
                (λ _.
                  From-step _ _ (Keeps-when _ _ (stop_removed_entry-Keeps (Within r) context r))
                    (λ _.
                      From-bind _ _ (removed_one r)
                        (λ _. From-keeps _ (λ c h. h) (finish_removal context _ _ _ _)) (λ c h. h))
                    (λ c h. h.0))
                (λ c h. h.0))
            (λ c h. h.0))
        (λ c h. h.0)

  pub remove_queue_index-Coherent :
      (context : Option Context) (r : ℕ) → Kept (remove_queue_index context r)
  unfolding remove_queue_index
  remove_queue_index-Coherent context r = Keeps-from _ (
      From-gets _ _ λ queue_len.
        check_index (Sized queue_len) _ _ _
          (λ t.
            let inside = above queue_len r t in
            From-weaken _ (λ c h. (h.0, omega (arith, inside, h.1)))
              (remove_inside context queue_len r))
          (λ c h. h.0))

  pub remove_queue_indices-Coherent :
      (context : Option Context) (indices : List ℕ) → Kept (remove_queue_indices context indices)
  unfolding remove_queue_indices
  remove_queue_indices-Coherent context indices =
      search
        (
          keeps_rules, end_deferred_restore-Keeps, sync_current_position_from_backend-Keeps,
          sync_current_position_for_queue_mutation-Keeps, clear_gapless_preparation-Keeps,
          stop_removed_entry-Keeps, removed_many, record_queue_change-Coherent,
          rest_after_removal-Coherent, pause_replacement-Coherent, finish_queue_change-Keeps,
        )
        depth 60
