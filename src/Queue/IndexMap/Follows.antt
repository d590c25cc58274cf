-- ===== src/Queue/IndexMap/Follows.antt =====
-- An index map sends the index of an entry to where that entry stands after the move.

use transonic.Prelude.{
  ℕ, zero, suc, ◌+◌, ◌-◌, ◌≤◌, ◌<◌, min, ◌≡◌, some, List, [], ◌∷◌, ◌++◌, length, get_elem?, arith,
  if◌then◌else◌, take, drop, length-append, length-take, append_assoc, append-nil,
  get_elem?-append_length, ltb, ltb→lt, Bool-cases, inl, inr,
}
use transonic.Queue.Indices.{contains, IsIncreasing, AllBelow}
use transonic.Queue.IndexMap.{
  moved_insert_at, moved_loop, moved_queue_index_map, apply_queue_index_map,
}
use transonic.Queue.IndexMap.Segments.{picked, stayed}
use transonic.Queue.IndexMap.Moved.{ltb-false, at_rest, all_picked, split_at_gap, apply-moved}

module _ {ℓ} {A : Type ℓ} (moving : List ℕ) (at : ℕ) where
  -- The queue in the end, from what its three parts hold before the entries of `queue`.
  abbrev final : List A → List A → List A → ℕ → List A → List A
  final a b c index queue =
      let st = stayed moving index queue in
      (a ++ take (at - length a) st)
      ++ ((b ++ picked moving index queue) ++ (c ++ drop (at - length a) st))

  final_picked :
      (a b c st pk : List A) (x : A) (n : ℕ)
      → n ≡ at + length b
      → length (a ++ take (at - length a) st) ≡ at
      → get_elem?
          ((a ++ take (at - length a) st) ++ ((b ++ x ∷ pk) ++ (c ++ drop (at - length a) st)))
          n
        ≡ some x
  final_picked a b c st pk x n h e =
      let first = a ++ take (at - length a) st in
      let third = c ++ drop (at - length a) st in
      rw (append_assoc b (x ∷ pk) third, ← append_assoc first b (x ∷ pk ++ third))
        (get_elem?-append_length (first ++ b) (pk ++ third) n x
          (omega (arith, length-append first b)))

  final_first :
      (a b c st : List A) (x : A) (n : ℕ)
      → n ≡ length a
      → length a < at
      → get_elem?
          ((a ++ take (at - length a) (x ∷ st)) ++ (b ++ (c ++ drop (at - length a) (x ∷ st))))
          n
        ≡ some x
  final_first a b c st x n h lt =
      let e : at - length a ≡ suc (at - suc (length a)) = omega arith in
      rw (e, append_assoc a (x ∷ take (at - suc (length a)) st))
        (get_elem?-append_length a
          (take (at - suc (length a)) st ++ (b ++ (c ++ drop (at - suc (length a)) st))) n x h)

  final_third :
      (a b c st : List A) (x : A) (n : ℕ)
      → at ≤ length a
      → n ≡ length a + (length b + length c)
      → get_elem?
          ((a ++ take (at - length a) (x ∷ st)) ++ (b ++ (c ++ drop (at - length a) (x ∷ st))))
          n
        ≡ some x
  final_third a b c st x n le h =
      let e : at - length a ≡ 0 = omega arith in
      rw (e, append-nil a, ← append_assoc b c (x ∷ st), ← append_assoc a (b ++ c) (x ∷ st))
        (get_elem?-append_length (a ++ (b ++ c)) st n x
          (omega (arith, length-append a (b ++ c), length-append b c)))

  first_full :
      (a st : List A) (ns : ℕ)
      → length a ≡ min ns at
      → at ≤ ns + length st
      → length (a ++ take (at - length a) st) ≡ at
  first_full a st ns ha h =
      omega (arith, length-append a (take (at - length a) st), length-take (at - length a) st)

  moved_loop_follows :
      (a b c : List A) (index : ℕ) (queue : List A) (ns nm i j : ℕ)
      → length a ≡ min ns at
      → length c ≡ ns - at
      → nm ≡ at + length b
      → length b + length (picked moving index queue) ≡ length moving
      → at ≤ ns + length (stayed moving index queue)
      → get_elem? (moved_loop moving at index (length queue) ns nm) i ≡ some (some j)
      → get_elem? (final a b c index queue) j ≡ get_elem? queue i
  unfolding moved_loop
  moved_loop_follows a b c index [] ns nm i j ha hc hn hb hr h = cc
  moved_loop_follows a b c index (x ∷ queue) ns nm zero j ha hc hn hb hr h =
      elim (Bool-cases (contains moving index)) [
        | inl e ↦
            let at_nm : nm ≡ j = cc (rw e at h) in
            rw e (
              final_picked a b c (stayed moving (suc index) queue) (picked moving (suc index) queue)
                x j (omega arith)
                (first_full a (stayed moving (suc index) queue) ns ha (rw e at hr)))
        | inr e ↦ elim (Bool-cases (ltb ns at)) [
          | inl l ↦
              let at_ns : ns ≡ j = cc (rw (e, l) at h) in
              rw e (
                final_first a (b ++ picked moving (suc index) queue) c
                  (stayed moving (suc index) queue) x j (omega (arith, ltb→lt ns at l))
                  (omega (arith, ltb→lt ns at l)))
          | inr l ↦
              let at_ns : ns + length moving ≡ j = cc (rw (e, l) at h) in
              let hb' = rw e at hb in
              rw e (
                final_third a (b ++ picked moving (suc index) queue) c
                  (stayed moving (suc index) queue) x j (omega (arith, ltb-false ns at l))
                  (omega
                    (arith, ltb-false ns at l, length-append b (picked moving (suc index) queue))))
        ]
      ]
  moved_loop_follows a b c index (x ∷ queue) ns nm (suc i) j ha hc hn hb hr h =
      elim (Bool-cases (contains moving index)) [
        | inl e ↦
            let hb' = rw e at hb in
            let hr' = rw e at hr in
            let rest =
              moved_loop_follows a (b ++ x ∷ []) c (suc index) queue ns (suc nm) i j ha hc
                (omega (arith, length-append b (x ∷ []))) (omega (arith, length-append b (x ∷ [])))
                hr' (rw e at h) in
            rw e (rw (append_assoc b (x ∷ []) (picked moving (suc index) queue)) at rest)
        | inr e ↦
            let hb' = rw e at hb in
            let hr' = rw e at hr in
            elim (Bool-cases (ltb ns at)) [
              | inl l ↦
                  let st = stayed moving (suc index) queue in
                  let gap : at - length a ≡ suc (at - length (a ++ x ∷ [])) =
                    omega (arith, ltb→lt ns at l, length-append a (x ∷ [])) in
                  let rest =
                    moved_loop_follows (a ++ x ∷ []) b c (suc index) queue (suc ns) nm i j
                      (omega (arith, ltb→lt ns at l, length-append a (x ∷ [])))
                      (omega (arith, ltb→lt ns at l)) hn hb' (omega arith) (rw e at h) in
                  rw (e, gap)
                    (rw (append_assoc a (x ∷ []) (take (at - length (a ++ x ∷ [])) st)) at rest)
              | inr l ↦
                  let st = stayed moving (suc index) queue in
                  let gap : at - length a ≡ 0 = omega (arith, ltb-false ns at l) in
                  let rest =
                    moved_loop_follows a b (c ++ x ∷ []) (suc index) queue (suc ns) nm i j
                      (omega (arith, ltb-false ns at l))
                      (omega (arith, ltb-false ns at l, length-append c (x ∷ []))) hn hb'
                      (omega arith) (rw e at h) in
                  rw (e, gap) (rw (gap, append_assoc c (x ∷ []) st) at rest)
            ]
      ]

module _ {ℓ} {A : Type ℓ} (moving : List ℕ) (insert_before : ℕ) (queue : List A)
    (increasing : IsIncreasing 0 moving) (below : AllBelow (length queue) moving)
    (inside : insert_before ≤ length queue) where
  -- The entry at an index stands, after a move, at the index that the map gives for it. The moved
  -- indices are strictly increasing and in range, and the gap is at most at the end of the queue.
  pub moved_follows :
      (i j : ℕ)
      → get_elem? (moved_queue_index_map (length queue) moving insert_before) i ≡ some (some j)
      → get_elem?
          (apply_queue_index_map queue (moved_queue_index_map (length queue) moving insert_before))
          j
        ≡ get_elem? queue i
  moved_follows i j h =
      let at = moved_insert_at moving insert_before in
      let gap : at - 0 ≡ at = omega arith in
      let rest =
        moved_loop_follows moving at [] [] [] 0 queue 0 at i j (omega arith) (omega arith)
          (omega arith)
          (omega (arith, all_picked moving insert_before queue increasing below inside))
          (omega (arith, at_rest moving insert_before queue increasing below inside))
          (unfold moved_queue_index_map in h) in
      rw
        (
          apply-moved moving insert_before queue increasing below inside,
          ← split_at_gap moving insert_before queue increasing below inside,
        )
        (rw gap at rest)

moved_loop-some :
    (moving : List ℕ) (at index left ns nm i : ℕ)
    → i < left
    → (j : ℕ) × (get_elem? (moved_loop moving at index left ns nm) i ≡ some (some j))
unfolding moved_loop
moved_loop-some moving at index zero ns nm i h = elim h [ ]
moved_loop-some moving at index (suc left) ns nm zero h =
    elim (Bool-cases (contains moving index)) [
      | inl e ↦ (nm, rw e)
      | inr e ↦ ((if ltb ns at then ns else ns + length moving), rw e)
    ]
moved_loop-some moving at index (suc left) ns nm (suc i) h =
    moved_loop-some moving at (suc index) left (if contains moving index then ns else suc ns)
      (if contains moving index then suc nm else nm) i (omega arith)

-- The map of a move holds a new index for every index of the queue.
pub moved_map-some :
    (moving : List ℕ) (queue_len insert_before i : ℕ)
    → i < queue_len
    → (j : ℕ) × (get_elem? (moved_queue_index_map queue_len moving insert_before) i ≡ some (some j))
unfolding moved_queue_index_map
moved_map-some moving queue_len insert_before i h =
    moved_loop-some moving (moved_insert_at moving insert_before) 0 queue_len 0
      (moved_insert_at moving insert_before) i h
