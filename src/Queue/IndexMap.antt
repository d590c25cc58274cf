-- ===== src/Queue/IndexMap.antt =====
-- Index maps of src-tauri/src/playback/controller.rs: the new index of each entry of the queue under
-- a batch move or a batch removal, and how a map is applied to the queue and to an index.
pub mod Segments
pub mod Counts
pub mod Moved
pub mod Follows
pub mod Removed
use transonic.Prelude.{
  ℕ, zero, suc, ◌+◌, ◌-◌, Bool, true, false, Option, none, some, List, [], ◌∷◌, length, get_elem?,
  set, range_from, ltb, leb, ◌==◌, if◌then◌else◌, u32_from, ◌&&◌,
}
use transonic.Queue.Indices.{contains}

abbrev pub IndexMap : Type 0
IndexMap = List (Option ℕ)

-- `moving.iter().filter(|index| **index < bound).count()`.
abbrev pub count_below : ℕ → List ℕ → ℕ
count_below bound [] = 0
count_below bound (x ∷ xs) =
    let rest = count_below bound xs in if ltb x bound then suc rest else rest

unfoldable pub moved_insert_at : List ℕ → ℕ → ℕ
moved_insert_at moving insert_before = insert_before - count_below insert_before moving

-- The closure of `moved_queue_index_map` over the indices from `index` on, with its two counters.
unfoldable pub moved_loop : List ℕ → ℕ → ℕ → ℕ → ℕ → ℕ → IndexMap
moved_loop moving insert_at index zero next_staying next_moving = []
moved_loop moving insert_at index (suc left) next_staying next_moving =
    let is_moving = contains moving index in
    (if is_moving
      then some next_moving
      else some (if ltb next_staying insert_at then next_staying else next_staying + length moving))
    ∷ moved_loop moving insert_at (suc index) left
        (if is_moving then next_staying else suc next_staying)
        (if is_moving then suc next_moving else next_moving)

unfoldable pub moved_queue_index_map : ℕ → List ℕ → ℕ → IndexMap
unfolding moved_insert_at moved_loop
moved_queue_index_map queue_len moving insert_before =
    let insert_at = moved_insert_at moving insert_before in
    moved_loop moving insert_at 0 queue_len 0 insert_at

-- The closure of `removed_queue_index_map`.
unfoldable pub removed_loop : List ℕ → ℕ → ℕ → ℕ → IndexMap
removed_loop removing index zero next_index = []
removed_loop removing index (suc left) next_index =
    let is_removed = contains removing index in
    (if is_removed then none else some next_index)
    ∷ removed_loop removing (suc index) left (if is_removed then next_index else suc next_index)

unfoldable pub removed_queue_index_map : ℕ → List ℕ → IndexMap
unfolding removed_loop
removed_queue_index_map queue_len removing = removed_loop removing 0 queue_len 0

-- `index_map.iter().flatten().count()`.
abbrev pub count_some {ℓ} : {A : Type ℓ} → List (Option A) → ℕ
count_some [] = 0
count_some (none ∷ xs) = count_some xs
count_some (some _ ∷ xs) = suc (count_some xs)

abbrev pub flatten_some {ℓ} : {A : Type ℓ} → List (Option A) → List A
flatten_some [] = []
flatten_some (none ∷ xs) = flatten_some xs
flatten_some (some x ∷ xs) = x ∷ flatten_some xs

abbrev pub empty_slots {ℓ} : {A : Type ℓ} → ℕ → List (Option A)
empty_slots zero = []
empty_slots (suc n) = none ∷ empty_slots n

-- The loop over `queue.into_iter().zip(index_map)`. An index outside the slots would panic; the maps
-- that the program builds have none.
unfoldable pub fill_slots {ℓ} : {A : Type ℓ} → List (Option A) → List A → IndexMap → List (Option A)
fill_slots slots [] index_map = slots
fill_slots slots (entry ∷ queue) [] = slots
fill_slots slots (entry ∷ queue) (none ∷ index_map) = fill_slots slots queue index_map
fill_slots slots (entry ∷ queue) (some new_index ∷ index_map) =
    fill_slots (set slots new_index (some entry)) queue index_map

unfoldable pub apply_queue_index_map {ℓ} : {A : Type ℓ} → List A → IndexMap → List A
unfolding fill_slots
apply_queue_index_map queue index_map =
    flatten_some (fill_slots (empty_slots (count_some index_map)) queue index_map)

abbrev pub flatten_option : Option (Option ℕ) → Option ℕ
flatten_option none = none
flatten_option (some o) = o

unfoldable pub mapped_queue_index : Option ℕ → IndexMap → Option ℕ
mapped_queue_index none index_map = none
mapped_queue_index (some index) index_map = elim (flatten_option (get_elem? index_map index)) [
  | none ↦ none
  | some value ↦ u32_from value
]

-- `iter().enumerate().all(|(old, new)| *new == Some(old))`.
abbrev pub is_identity_from : ℕ → IndexMap → Bool
is_identity_from old [] = true
is_identity_from old (none ∷ index_map) = false
is_identity_from old (some new ∷ index_map) = new == old && is_identity_from (suc old) index_map
