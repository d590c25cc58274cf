-- ===== src/Queue/Indices.antt =====
-- `sorted_queue_indices` of src-tauri/src/playback/controller.rs: the indices of a batch operation.
pub mod Sorted
use transonic.Prelude.{
  ℕ, suc, ◌+◌, ◌≤◌, ◌<◌, String, Bool, true, false, ◌&&◌, ◌||◌, List, [], ◌∷◌, is_empty, ltb, leb,
  ◌==◌, if◌then◌else◌,
}
use transonic.Result.{Result, ok, err}

-- `slice.binary_search(&i).is_ok()`: on a sorted slice, whether `i` is in it. What the search finds in a
-- slice that is not sorted is left open by the standard library; every slice that the program searches
-- is one index, or the result of `sorted_queue_indices`.
abbrev pub contains : List ℕ → ℕ → Bool
contains [] i = false
contains (x ∷ xs) i = x == i || contains xs i

abbrev pub all_below : ℕ → List ℕ → Bool
all_below n [] = true
all_below n (x ∷ xs) = ltb x n && all_below n xs

-- `sort_unstable`.
abbrev pub insert_sorted : ℕ → List ℕ → List ℕ
insert_sorted a [] = a ∷ []
insert_sorted a (x ∷ xs) = let rest = insert_sorted a xs in if leb a x then a ∷ x ∷ xs else x ∷ rest

unfoldable pub sort : List ℕ → List ℕ
sort [] = []
sort (x ∷ xs) = insert_sorted x (sort xs)

-- `Vec::dedup`: an entry goes if it equals the one before it.
abbrev pub dedup_after : ℕ → List ℕ → List ℕ
dedup_after last [] = []
dedup_after last (x ∷ xs) = let rest = dedup_after x xs in if last == x then rest else x ∷ rest

unfoldable pub dedup : List ℕ → List ℕ
dedup [] = []
dedup (x ∷ xs) = x ∷ dedup_after x xs

unfoldable pub sorted_queue_indices : List ℕ → ℕ → Result (List ℕ)
sorted_queue_indices indices queue_len =
    if all_below queue_len indices
    then if is_empty indices
      then err "Playback queue indices must not be empty."
      else ok (dedup (sort indices))
    else err "Playback queue index is out of range."

-- Strictly increasing, from `least` on.
abbrev pub IsIncreasing : ℕ → List ℕ → Type 0
IsIncreasing least [] = Unit
IsIncreasing least (x ∷ xs) = (least ≤ x) × IsIncreasing (suc x) xs

abbrev pub AllBelow : ℕ → List ℕ → Type 0
AllBelow n [] = Unit
AllBelow n (x ∷ xs) = (x < n) × AllBelow n xs
