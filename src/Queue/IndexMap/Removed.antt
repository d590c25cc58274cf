-- ===== src/Queue/IndexMap/Removed.antt =====
-- What `removed_queue_index_map` does to the queue.
use native.Mathlib.Nat.{zero-add}
use transonic.Prelude.{
  ℕ, zero, suc, ◌+◌, ◌≤◌, ◌<◌, ◌≡◌, ◌↔◌, refl, ap, sym, ◌∙◌, true, false, none, some, List, [], ◌∷◌,
  ◌++◌, length, get_elem?, arith, if◌then◌else◌, length-append, append_assoc, append-nil,
  get_elem?-append_length, Bool-cases, inl, inr,
}
use transonic.Queue.Indices.{contains}
use transonic.Queue.IndexMap.{
  count_some, removed_loop, removed_queue_index_map, fill_slots, apply_queue_index_map,
  flatten_some, empty_slots,
}
use transonic.Queue.IndexMap.Segments.{
  stayed, segment, set-segment, flatten_some-segment, empty_slots-eq-segment,
}

module _ {ℓ} {A : Type ℓ} (removing : List ℕ) where
  count_some-removed_loop :
      (index : ℕ) (queue : List A) (next : ℕ)
      → count_some (removed_loop removing index (length queue) next)
        ≡ length (stayed removing index queue)
  unfolding removed_loop
  count_some-removed_loop index [] next = refl
  count_some-removed_loop index (x ∷ queue) next = elim (Bool-cases (contains removing index)) [
    | inl e ↦ rw e (count_some-removed_loop (suc index) queue next)
    | inr e ↦ rw e (ap suc (count_some-removed_loop (suc index) queue (suc next)))
  ]

  fill_removed :
      (n : ℕ) (kept : List A) (index : ℕ) (queue : List A)
      → length kept + length (stayed removing index queue) ≤ n
      → fill_slots (segment n kept) queue (removed_loop removing index (length queue) (length kept))
        ≡ segment n (kept ++ stayed removing index queue)
  unfolding fill_slots removed_loop
  fill_removed n kept index [] h = ap (segment n) (sym (append-nil kept))
  fill_removed n kept index (x ∷ queue) h = elim (Bool-cases (contains removing index)) [
    | inl e ↦ rw e (fill_removed n kept (suc index) queue (rw e at h))
    | inr e ↦
        let h' = rw e at h in
        let longer : length (kept ++ x ∷ []) ≡ suc (length kept) =
          omega (arith, length-append kept (x ∷ [])) in
        rw e (
          ap
            (λ t.
              fill_slots t queue
                (removed_loop removing (suc index) (length queue) (suc (length kept))))
            (set-segment n kept x (omega arith))
          ∙ ap
              (λ k.
                fill_slots (segment n (kept ++ x ∷ [])) queue
                  (removed_loop removing (suc index) (length queue) k))
              (sym longer)
          ∙ fill_removed n (kept ++ x ∷ []) (suc index) queue (omega arith)
          ∙ ap (segment n) (append_assoc kept (x ∷ []) (stayed removing (suc index) queue)))
  ]

  -- Applying the map of a removal leaves the entries that are not removed, in queue order. The
  -- source passes sorted indices.
  pub apply-removed :
      (queue : List A)
      → apply_queue_index_map queue (removed_queue_index_map (length queue) removing)
        ≡ stayed removing 0 queue
  unfolding apply_queue_index_map removed_queue_index_map
  apply-removed queue =
      let n = length (stayed removing 0 queue) in
      ap
        (λ k.
          flatten_some
            (fill_slots (empty_slots k) queue (removed_loop removing 0 (length queue) 0)))
        (count_some-removed_loop 0 queue 0)
      ∙ ap (λ t. flatten_some (fill_slots t queue (removed_loop removing 0 (length queue) 0)))
          (empty_slots-eq-segment n)
      ∙ ap flatten_some (fill_removed n [] 0 queue (omega arith))
      ∙ flatten_some-segment n (stayed removing 0 queue) refl

  removed_loop_follows :
      (kept : List A) (index : ℕ) (queue : List A) (i j : ℕ)
      → get_elem? (removed_loop removing index (length queue) (length kept)) i ≡ some (some j)
      → get_elem? (kept ++ stayed removing index queue) j ≡ get_elem? queue i
  unfolding removed_loop
  removed_loop_follows kept index [] i j h = cc
  removed_loop_follows kept index (x ∷ queue) zero j h =
      elim (Bool-cases (contains removing index)) [
        | inl e ↦ cc (rw e at h)
        | inr e ↦
            let at_end : length kept ≡ j = cc (rw e at h) in
            rw e (get_elem?-append_length kept (stayed removing (suc index) queue) j x (sym at_end))
      ]
  removed_loop_follows kept index (x ∷ queue) (suc i) j h =
      elim (Bool-cases (contains removing index)) [
        | inl e ↦ rw e (removed_loop_follows kept (suc index) queue i j (rw e at h))
        | inr e ↦
            let longer : suc (length kept) ≡ length (kept ++ x ∷ []) =
              omega (arith, length-append kept (x ∷ [])) in
            rw e (
              rw (append_assoc kept (x ∷ []) (stayed removing (suc index) queue)) at (
                removed_loop_follows (kept ++ x ∷ []) (suc index) queue i j
                  (rw longer at (rw e at h))))
      ]

  -- An entry for which the map of a removal gives an index stands, after the removal, at that
  -- index.
  pub removed_follows :
      (queue : List A) (i j : ℕ)
      → get_elem? (removed_queue_index_map (length queue) removing) i ≡ some (some j)
      → get_elem? (apply_queue_index_map queue (removed_queue_index_map (length queue) removing)) j
        ≡ get_elem? queue i
  removed_follows queue i j h =
      rw (apply-removed queue)
        (removed_loop_follows [] 0 queue i j (unfold removed_queue_index_map in h))

removed_loop-some :
    (removing : List ℕ) (index left next i : ℕ)
    → i < left
    → contains removing (index + i) ≡ false
    → (j : ℕ) × (get_elem? (removed_loop removing index left next) i ≡ some (some j))
unfolding removed_loop
removed_loop-some removing index zero next i h e = elim h [ ]
removed_loop-some removing index (suc left) next zero h e =
    let same : index + 0 ≡ index = omega arith in (next, rw (rw same at e))
removed_loop-some removing index (suc left) next (suc i) h e =
    let same : index + suc i ≡ suc index + i = omega arith in
    removed_loop-some removing (suc index) left (if contains removing index then next else suc next)
      i (omega arith) (rw same at e)

removed_loop-none :
    (removing : List ℕ) (index left next i : ℕ)
    → i < left
    → contains removing (index + i) ≡ true
    → get_elem? (removed_loop removing index left next) i ≡ some none
unfolding removed_loop
removed_loop-none removing index zero next i h e = elim h [ ]
removed_loop-none removing index (suc left) next zero h e =
    let same : index + 0 ≡ index = omega arith in rw (rw same at e)
removed_loop-none removing index (suc left) next (suc i) h e =
    let same : index + suc i ≡ suc index + i = omega arith in
    removed_loop-none removing (suc index) left (if contains removing index then next else suc next)
      i (omega arith) (rw same at e)

-- The map gives an index to every entry that stays, and none to a removed one.
pub removed_map_cases :
    (removing : List ℕ) (queue_len i : ℕ)
    → i < queue_len
    → (contains removing i ≡ false
        → (j : ℕ) × (get_elem? (removed_queue_index_map queue_len removing) i ≡ some (some j)))
      × (contains removing i ≡ true
          → get_elem? (removed_queue_index_map queue_len removing) i ≡ some none)
unfolding removed_queue_index_map
removed_map_cases removing queue_len i h = (
  λ e. removed_loop-some removing 0 queue_len 0 i h (rw (zero-add i) e),
  λ e. removed_loop-none removing 0 queue_len 0 i h (rw (zero-add i) e),
)

-- The map of a removal holds no new index for an index of the queue exactly if that one is among
-- the removed, which the source passes sorted.
pub removed_map-none_iff :
    (removing : List ℕ) (queue_len i : ℕ)
    → i < queue_len
    → (get_elem? (removed_queue_index_map queue_len removing) i ≡ some none)
      ↔ (contains removing i ≡ true)
removed_map-none_iff removing queue_len i h =
    let cases = removed_map_cases removing queue_len i h in
    (
      λ e. elim (Bool-cases (contains removing i)) [
        | inl t ↦ t
        | inr f ↦ let kept = cases.0 f in let stays = kept.1 in cc
      ],
      cases.1,
    )
