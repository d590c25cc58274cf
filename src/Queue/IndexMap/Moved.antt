-- ===== src/Queue/IndexMap/Moved.antt =====
-- What `moved_queue_index_map` does to the queue.
use transonic.Prelude.{
  ℕ, zero, suc, ◌+◌, ◌-◌, ◌≤◌, ◌<◌, min, ◌≡◌, refl, ap, sym, ◌∙◌, false, Option, some, List, [],
  ◌∷◌, ◌++◌, length, set, arith, take, drop, length-append, length-take, length-drop,
  take-append_length, drop-append_length, append_assoc, append-nil, ltb, ltb→lt, Bool-cases, inl,
  inr,
}
use mathlib.Core.Path.{ap₂}
use native.Mathlib.Nat.{zero-add}
use transonic.Queue.Indices.{contains, IsIncreasing, AllBelow}
use transonic.Queue.IndexMap.{
  count_below, moved_insert_at, moved_loop, moved_queue_index_map, fill_slots, count_some,
  apply_queue_index_map, empty_slots, flatten_some,
}
use transonic.Queue.IndexMap.Counts.{count_below-all, length-picked, stayed-append}
use transonic.Queue.IndexMap.Segments.{
  picked, stayed, segment, three_segments, set-slots_first, set-slots_second, set-slots_third,
  length-picked-stayed, flatten_some-segment, flatten_some-append, empty_slots-eq-segment,
  segment-split,
}

pub ltb-false : (a b : ℕ) → ltb a b ≡ false → b ≤ a
ltb-false a b h = ground arith

module _ {ℓ} {A : Type ℓ} where
  append-take_nil : (a : List A) (n : ℕ) → a ++ take n [] ≡ a
  append-take_nil a zero = append-nil a
  append-take_nil a (suc n) = append-nil a

  append-drop_nil : (a : List A) (n : ℕ) → a ++ drop n [] ≡ a
  append-drop_nil a zero = append-nil a
  append-drop_nil a (suc n) = append-nil a

  -- Before the gap: the next entry that stays goes to the first segment.
  pub next_before_gap :
      (at m r : ℕ) (a b c st : List A) (x : A)
      → length a < at
      → three_segments at m r
          ((a ++ x ∷ []) ++ take (at - length (a ++ x ∷ [])) st)
          b
          (c ++ drop (at - length (a ++ x ∷ [])) st)
        ≡ three_segments at m r
            (a ++ take (at - length a) (x ∷ st))
            b
            (c ++ drop (at - length a) (x ∷ st))
  next_before_gap at m r a b c st x h =
      let e : at - length a ≡ suc (at - length (a ++ x ∷ [])) =
        omega (arith, length-append a (x ∷ [])) in
      rw (e, append_assoc a (x ∷ []))

  -- After it: to the third.
  pub next_after_gap :
      (at m r : ℕ) (a b c st : List A) (x : A)
      → at ≤ length a
      → three_segments at m r
          (a ++ take (at - length a) st)
          b
          ((c ++ x ∷ []) ++ drop (at - length a) st)
        ≡ three_segments at m r
            (a ++ take (at - length a) (x ∷ st))
            b
            (c ++ drop (at - length a) (x ∷ st))
  next_after_gap at m r a b c st x h =
      let e : at - length a ≡ 0 = omega arith in rw (e, append_assoc c (x ∷ []))

module _ {ℓ} {A : Type ℓ} (moving : List ℕ) (at r : ℕ) where
  -- What the three segments hold in the end, from what they hold before the entries of `queue`.
  abbrev filled : List A → List A → List A → ℕ → List A → List (Option A)
  filled a b c index queue =
      let st = stayed moving index queue in
      three_segments at (length moving) r (a ++ take (at - length a) st)
        (b ++ picked moving index queue) (c ++ drop (at - length a) st)

  fill_moved :
      (a b c : List A) (index : ℕ) (queue : List A) (ns nm : ℕ)
      → length a ≡ min ns at
      → length c ≡ ns - at
      → nm ≡ at + length b
      → length b + length (picked moving index queue) ≤ length moving
      → ns + length (stayed moving index queue) ≤ at + r
      → fill_slots
          (three_segments at (length moving) r a b c)
          queue
          (moved_loop moving at index (length queue) ns nm)
        ≡ filled a b c index queue
  unfolding fill_slots moved_loop
  fill_moved a b c index [] ns nm ha hc hn hb hr = sym (
      ap₂ (λ u v. three_segments at (length moving) r u (b ++ []) v)
        (append-take_nil a (at - length a)) (append-drop_nil c (at - length a))
      ∙ ap (λ t. three_segments at (length moving) r a t c) (append-nil b))
  fill_moved a b c index (x ∷ queue) ns nm ha hc hn hb hr =
      elim (Bool-cases (contains moving index)) [
        | inl e ↦
            let hb' = rw e at hb in
            let hr' = rw e at hr in
            rw e (
              ap
                (λ t.
                  fill_slots t queue (moved_loop moving at (suc index) (length queue) ns (suc nm)))
                (ap (λ k. set (three_segments at (length moving) r a b c) k (some x)) hn
                  ∙ set-slots_second at (length moving) r a b c x (omega arith))
              ∙ fill_moved a (b ++ x ∷ []) c (suc index) queue ns (suc nm) ha hc
                  (omega (arith, length-append b (x ∷ [])))
                  (omega (arith, length-append b (x ∷ []))) hr'
              ∙ ap
                  (λ t.
                    three_segments at (length moving) r
                      (a ++ take (at - length a) (stayed moving (suc index) queue)) t
                      (c ++ drop (at - length a) (stayed moving (suc index) queue)))
                  (append_assoc b (x ∷ []) (picked moving (suc index) queue)))
        | inr e ↦
            let hb' = rw e at hb in
            let hr' = rw e at hr in
            elim (Bool-cases (ltb ns at)) [
              | inl l ↦
                  rw (e, l)
                    (ap
                        (λ t.
                          fill_slots t queue
                            (moved_loop moving at (suc index) (length queue) (suc ns) nm))
                        (ap (λ k. set (three_segments at (length moving) r a b c) k (some x))
                            (omega (arith, ltb→lt ns at l))
                          ∙ set-slots_first at (length moving) r a b c x
                              (omega (arith, ltb→lt ns at l)))
                      ∙ fill_moved (a ++ x ∷ []) b c (suc index) queue (suc ns) nm
                          (omega (arith, ltb→lt ns at l, length-append a (x ∷ [])))
                          (omega (arith, ltb→lt ns at l)) hn hb' (omega arith)
                      ∙ next_before_gap at (length moving) r a
                          (b ++ picked moving (suc index) queue) c (stayed moving (suc index) queue)
                          x (omega (arith, ltb→lt ns at l)))
              | inr l ↦
                  rw (e, l)
                    (ap
                        (λ t.
                          fill_slots t queue
                            (moved_loop moving at (suc index) (length queue) (suc ns) nm))
                        (ap (λ k. set (three_segments at (length moving) r a b c) k (some x))
                            (omega (arith, ltb-false ns at l))
                          ∙ set-slots_third at (length moving) r a b c x
                              (omega (arith, ltb-false ns at l)))
                      ∙ fill_moved a b (c ++ x ∷ []) (suc index) queue (suc ns) nm
                          (omega (arith, ltb-false ns at l))
                          (omega (arith, ltb-false ns at l, length-append c (x ∷ []))) hn hb'
                          (omega arith)
                      ∙ next_after_gap at (length moving) r a (b ++ picked moving (suc index) queue)
                          c (stayed moving (suc index) queue) x (omega (arith, ltb-false ns at l)))
            ]
      ]

count_some-moved_loop :
    (moving : List ℕ) (at index left ns nm : ℕ)
    → count_some (moved_loop moving at index left ns nm) ≡ left
unfolding moved_loop
count_some-moved_loop moving at index zero ns nm = refl
count_some-moved_loop moving at index (suc left) ns nm = elim (Bool-cases (contains moving index)) [
  | inl e ↦ rw e (ap suc (count_some-moved_loop moving at (suc index) left ns (suc nm)))
  | inr e ↦ rw e (ap suc (count_some-moved_loop moving at (suc index) left (suc ns) nm))
]

-- The queue after a move: before the gap those that stay, then the moved entries in queue order, then
-- the others that stay.
abbrev pub moved_queue {ℓ} : {A : Type ℓ} → List ℕ → ℕ → List A → List A
moved_queue moving insert_before queue =
    stayed moving 0 (take insert_before queue)
    ++ (picked moving 0 queue ++ stayed moving insert_before (drop insert_before queue))

module _ {ℓ} {A : Type ℓ} (moving : List ℕ) (insert_before : ℕ) (queue : List A)
    (increasing : IsIncreasing 0 moving) (below : AllBelow (length queue) moving)
    (inside : insert_before ≤ length queue) where
  pub all_picked : length (picked moving 0 queue) ≡ length moving
  all_picked = omega (
    arith,
    length-picked moving 0 queue increasing,
    count_below-all (length queue) moving below,
    ap (λ n. count_below n moving) (zero-add (length queue)),
  )

  insert_at-eq :
      moved_insert_at moving insert_before ≡ length (stayed moving 0 (take insert_before queue))
  unfolding moved_insert_at
  insert_at-eq =
      let e : 0 + length (take insert_before queue) ≡ insert_before =
        omega (arith, length-take insert_before queue) in
      omega (
        arith,
        length-picked moving 0 (take insert_before queue) increasing,
        length-picked-stayed moving 0 (take insert_before queue),
        ap (λ n. count_below n moving) e,
      )

  pub at_rest : moved_insert_at moving insert_before ≤ length (stayed moving 0 queue)
  at_rest =
      let split = ap length (stayed-append moving 0 insert_before queue) in
      omega (
        arith,
        insert_at-eq,
        split,
        length-append (stayed moving 0 (take insert_before queue))
            (stayed moving (0 + insert_before) (drop insert_before queue)),
      )

  slots_at_start :
      (at r : ℕ)
      → at + (length moving + r) ≡ length queue
      → empty_slots {A = A} (length queue) ≡ three_segments at (length moving) r [] [] []
  slots_at_start at r h =
      empty_slots-eq-segment (length queue)
      ∙ ap (λ n. segment n []) (sym h)
      ∙ segment-split at (length moving + r)
      ∙ ap (λ t. segment at [] ++ t) (segment-split (length moving) r)

  flatten_filled :
      (at : ℕ)
      → at ≤ length (stayed moving 0 queue)
      → flatten_some (filled moving at (length (stayed moving 0 queue) - at) [] [] [] 0 queue)
        ≡ take at (stayed moving 0 queue)
          ++ (picked moving 0 queue ++ drop at (stayed moving 0 queue))
  flatten_filled at h =
      let st = stayed moving 0 queue in
      let r = length st - at in
      let second = segment (length moving) (picked moving 0 queue) in
      let e : at - 0 ≡ at = omega arith in
      rw e (
        flatten_some-append (segment at (take at st)) (second ++ segment r (drop at st))
        ∙ ap₂ (λ u v. u ++ v)
            (flatten_some-segment at (take at st) (omega (arith, length-take at st)))
            (flatten_some-append second (segment r (drop at st))
              ∙ ap₂ (λ u v. u ++ v)
                  (flatten_some-segment (length moving) (picked moving 0 queue) all_picked)
                  (flatten_some-segment r (drop at st) (length-drop at st))))

  pub split_at_gap :
      take (moved_insert_at moving insert_before) (stayed moving 0 queue)
        ++ (picked moving 0 queue
            ++ drop (moved_insert_at moving insert_before) (stayed moving 0 queue))
      ≡ moved_queue moving insert_before queue
  split_at_gap =
      let before = stayed moving 0 (take insert_before queue) in
      let after = stayed moving insert_before (drop insert_before queue) in
      rw (insert_at-eq, stayed-append moving 0 insert_before queue, zero-add insert_before)
        (rw (take-append_length before after, drop-append_length before after))

  -- Applying the map of a move moves the chosen entries, in queue order, into the gap before
  -- `insert_before`, and keeps the order of the others. The indices are strictly increasing and in
  -- range, and the gap is at most at the end of the queue.
  pub apply-moved :
      apply_queue_index_map queue (moved_queue_index_map (length queue) moving insert_before)
      ≡ moved_queue moving insert_before queue
  unfolding apply_queue_index_map moved_queue_index_map
  apply-moved =
      let at = moved_insert_at moving insert_before in
      let r = length (stayed moving 0 queue) - at in
      let sizes = length-picked-stayed moving 0 queue in
      ap
        (λ n.
          flatten_some
            (fill_slots (empty_slots n) queue (moved_loop moving at 0 (length queue) 0 at)))
        (count_some-moved_loop moving at 0 (length queue) 0 at)
      ∙ ap (λ t. flatten_some (fill_slots t queue (moved_loop moving at 0 (length queue) 0 at)))
          (slots_at_start at r (omega (arith, at_rest, all_picked, sizes)))
      ∙ ap flatten_some (
          fill_moved moving at r [] [] [] 0 queue 0 at (omega arith) (omega arith) (omega arith)
            (omega (arith, all_picked)) (omega (arith, at_rest)))
      ∙ flatten_filled at at_rest
      ∙ split_at_gap
