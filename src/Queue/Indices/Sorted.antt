-- ===== src/Queue/Indices/Sorted.antt =====
-- What `sorted_queue_indices` returns: the same indices, strictly increasing and in range.
use transonic.Prelude.{
  ℕ, suc, ◌≤◌, ◌<◌, ◌≡◌, refl, ◌∙◌, true, false, ◌||◌, List, [], ◌∷◌, arith, ◌==◌, Bool-cases,
  is_empty, inl, inr,
}
use transonic.Result.{ok, err}
use transonic.Queue.Indices.{
  contains, all_below, insert_sorted, sort, dedup_after, dedup, sorted_queue_indices, IsIncreasing,
  AllBelow,
}

abbrev IsOrdered : ℕ → List ℕ → Type 0
IsOrdered least [] = Unit
IsOrdered least (x ∷ xs) = (least ≤ x) × IsOrdered x xs

insert_sorted-IsOrdered :
    (least a : ℕ) (xs : List ℕ)
    → least ≤ a
    → IsOrdered least xs
    → IsOrdered least (insert_sorted a xs)
insert_sorted-IsOrdered least a [] h o = (h, tt)
insert_sorted-IsOrdered least a (x ∷ xs) h o =
    ground (arith, λ (p : x ≤ a). insert_sorted-IsOrdered x a xs p o.1)

sort-IsOrdered : (xs : List ℕ) → IsOrdered 0 (sort xs)
unfolding sort
sort-IsOrdered [] = tt
sort-IsOrdered (x ∷ xs) = insert_sorted-IsOrdered 0 x (sort xs) (omega arith) (sort-IsOrdered xs)

dedup_after-IsIncreasing :
    (last : ℕ) (xs : List ℕ) → IsOrdered last xs → IsIncreasing (suc last) (dedup_after last xs)
dedup_after-IsIncreasing last [] o = tt
dedup_after-IsIncreasing last (x ∷ xs) o = ground (arith, dedup_after-IsIncreasing x xs o.1)

dedup-IsIncreasing : (xs : List ℕ) → IsOrdered 0 xs → IsIncreasing 0 (dedup xs)
unfolding dedup
dedup-IsIncreasing [] o = tt
dedup-IsIncreasing (x ∷ xs) o = (o.0, dedup_after-IsIncreasing x xs o.1)

contains-insert_sorted :
    (i a : ℕ) (xs : List ℕ) → contains (insert_sorted a xs) i ≡ (a == i || contains xs i)
contains-insert_sorted i a [] = refl
contains-insert_sorted i a (x ∷ xs) = ground (arith, contains-insert_sorted i a xs)

contains-sort : (i : ℕ) (xs : List ℕ) → contains (sort xs) i ≡ contains xs i
unfolding sort
contains-sort i [] = refl
contains-sort i (x ∷ xs) = ground (arith, contains-insert_sorted i x (sort xs), contains-sort i xs)

contains-dedup_after :
    (i last : ℕ) (xs : List ℕ)
    → (last == i || contains (dedup_after last xs) i) ≡ (last == i || contains xs i)
contains-dedup_after i last [] = refl
contains-dedup_after i last (x ∷ xs) = ground (arith, contains-dedup_after i x xs)

contains-dedup : (i : ℕ) (xs : List ℕ) → contains (dedup xs) i ≡ contains xs i
unfolding dedup
contains-dedup i [] = refl
contains-dedup i (x ∷ xs) = contains-dedup_after i x xs

AllBelow-insert_sorted :
    (n a : ℕ) (xs : List ℕ) → a < n → AllBelow n xs → AllBelow n (insert_sorted a xs)
AllBelow-insert_sorted n a [] h b = (h, tt)
AllBelow-insert_sorted n a (x ∷ xs) h b = ground (arith, AllBelow-insert_sorted n a xs h b.1)

AllBelow-sort : (n : ℕ) (xs : List ℕ) → all_below n xs ≡ true → AllBelow n (sort xs)
unfolding sort
AllBelow-sort n [] h = tt
AllBelow-sort n (x ∷ xs) h =
    AllBelow-insert_sorted n x (sort xs) (ground arith) (AllBelow-sort n xs (ground arith))

AllBelow-dedup_after : (n last : ℕ) (xs : List ℕ) → AllBelow n xs → AllBelow n (dedup_after last xs)
AllBelow-dedup_after n last [] b = tt
AllBelow-dedup_after n last (x ∷ xs) b = ground (arith, AllBelow-dedup_after n x xs b.1)

AllBelow-dedup : (n : ℕ) (xs : List ℕ) → AllBelow n xs → AllBelow n (dedup xs)
unfolding dedup
AllBelow-dedup n [] b = tt
AllBelow-dedup n (x ∷ xs) b = (b.0, AllBelow-dedup_after n x xs b.1)

-- The call succeeds exactly on a non-empty list of indices that are all within the queue.
pub sorted_queue_indices_ok :
    (indices : List ℕ) (queue_len : ℕ) (sorted : List ℕ)
    → sorted_queue_indices indices queue_len ≡ ok sorted
    → (all_below queue_len indices ≡ true)
      × (is_empty indices ≡ false)
      × (dedup (sort indices) ≡ sorted)
unfolding sorted_queue_indices
sorted_queue_indices_ok indices queue_len sorted h =
    elim (Bool-cases (all_below queue_len indices)) [
      | inl inside ↦ elim (Bool-cases (is_empty indices)) [
        | inl e ↦ cc (rw (inside, e) at h)
        | inr e ↦ (inside, e, cc (rw (inside, e) at h))
      ]
      | inr outside ↦ cc (rw outside at h)
    ]

-- The result of a successful call of `sorted_queue_indices` is strictly increasing, within the
-- queue, and holds exactly the indices that were given.
pub sorted_queue_indices_sound :
    (indices : List ℕ) (queue_len : ℕ) (sorted : List ℕ)
    → sorted_queue_indices indices queue_len ≡ ok sorted
    → IsIncreasing 0 sorted
      × AllBelow queue_len sorted
      × ((i : ℕ) → contains sorted i ≡ contains indices i)
sorted_queue_indices_sound indices queue_len sorted h =
    let (inside, _, e) = sorted_queue_indices_ok indices queue_len sorted h in
    rw (← e) (
      dedup-IsIncreasing (sort indices) (sort-IsOrdered indices),
      AllBelow-dedup queue_len (sort indices) (AllBelow-sort queue_len indices inside),
      λ i. contains-dedup i (sort indices) ∙ contains-sort i indices,
    )

-- The two errors: an index outside the queue, and no index at all.
pub sorted_queue_indices_errors :
    (indices : List ℕ) (queue_len : ℕ)
    → (all_below queue_len indices ≡ false
        → sorted_queue_indices indices queue_len ≡ err "Playback queue index is out of range.")
      × (sorted_queue_indices [] queue_len ≡ err "Playback queue indices must not be empty.")
unfolding sorted_queue_indices
sorted_queue_indices_errors indices queue_len = (λ e. rw e, refl)
