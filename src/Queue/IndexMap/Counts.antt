-- ===== src/Queue/IndexMap/Counts.antt =====
-- How many entries are chosen: the counts by which the index maps are computed.

use transonic.Prelude.{
  ℕ, zero, suc, ◌+◌, ◌≤◌, ◌<◌, ◌≡◌, refl, ap, sym, false, List, [], ◌∷◌, ◌++◌, length, arith, take,
  drop,
}
use native.Mathlib.Decide.{dec_lt}
use transonic.Queue.Indices.{contains, IsIncreasing, AllBelow}
use transonic.Queue.IndexMap.{count_below}
use transonic.Queue.IndexMap.Segments.{picked, stayed}

add_suc : (a b : ℕ) → suc a + b ≡ a + suc b
add_suc a b = omega arith

-- An increasing list that starts later does not hold an earlier index.
contains-below :
    (i least : ℕ) (xs : List ℕ) → i < least → IsIncreasing least xs → contains xs i ≡ false
contains-below i least [] h inc = refl
contains-below i least (x ∷ xs) h inc =
    ground (arith, contains-below i (suc x) xs (omega arith) inc.1)

count_below-least :
    (n least : ℕ) (xs : List ℕ) → n ≤ least → IsIncreasing least xs → count_below n xs ≡ 0
count_below-least n least [] h inc = refl
count_below-least n least (x ∷ xs) h inc =
    ground (arith, count_below-least n (suc x) xs (omega arith) inc.1)

pub count_below-all : (n : ℕ) (xs : List ℕ) → AllBelow n xs → count_below n xs ≡ length xs
count_below-all n [] h = refl
count_below-all n (x ∷ xs) h = ground (arith, count_below-all n xs h.1)

-- Without its first index, the list still starts later or holds it.
IsIncreasing-skip :
    (i : ℕ) (xs : List ℕ) → IsIncreasing i xs → contains xs i ≡ false → IsIncreasing (suc i) xs
IsIncreasing-skip i [] inc h = tt
IsIncreasing-skip i (x ∷ xs) inc h = (ground arith, inc.1)

module _ {ℓ} {A : Type ℓ} where
  picked-cons_below :
      (i j : ℕ) (xs : List ℕ) (queue : List A) → i < j → picked (i ∷ xs) j queue ≡ picked xs j queue
  picked-cons_below i j xs [] h = refl
  picked-cons_below i j xs (x ∷ queue) h =
      ground (arith, picked-cons_below i (suc j) xs queue (omega arith))

  -- As many entries are chosen from `queue` as there are chosen indices below its end.
  pub length-picked :
      (chosen : List ℕ) (index : ℕ) (queue : List A)
      → IsIncreasing index chosen
      → length (picked chosen index queue) ≡ count_below (index + length queue) chosen
  length-picked chosen index [] inc =
      sym (count_below-least (index + 0) index chosen (omega arith) inc)
  length-picked [] index (x ∷ queue) inc = length-picked [] (suc index) queue tt
  length-picked (i ∷ chosen) index (x ∷ queue) inc = elim (dec_lt index i) [
    | yes p ↦ ground (
      arith,
      contains-below index (suc i) chosen (omega arith) inc.1,
      length-picked (i ∷ chosen) (suc index) queue (p, inc.1),
      add_suc index (length queue),
    )
    | no p ↦
        let e : index ≡ i = omega arith in
        ground (
          arith,
          e,
          picked-cons_below i (suc index) chosen queue (omega arith),
          length-picked chosen (suc index) queue (rw e inc.1),
          add_suc index (length queue),
        )
  ]

  pub picked-append :
      (chosen : List ℕ) (index n : ℕ) (queue : List A)
      → picked chosen index queue
        ≡ picked chosen index (take n queue) ++ picked chosen (index + n) (drop n queue)
  picked-append chosen index zero queue = ap (λ k. picked chosen k queue) (omega arith)
  picked-append chosen index (suc n) [] = refl
  picked-append chosen index (suc n) (x ∷ queue) = ground (
    arith,
    picked-append chosen (suc index) n queue,
    ap (λ k. picked chosen k (drop n queue)) (add_suc index n),
  )

  pub stayed-append :
      (chosen : List ℕ) (index n : ℕ) (queue : List A)
      → stayed chosen index queue
        ≡ stayed chosen index (take n queue) ++ stayed chosen (index + n) (drop n queue)
  stayed-append chosen index zero queue = ap (λ k. stayed chosen k queue) (omega arith)
  stayed-append chosen index (suc n) [] = refl
  stayed-append chosen index (suc n) (x ∷ queue) = ground (
    arith,
    stayed-append chosen (suc index) n queue,
    ap (λ k. stayed chosen k (drop n queue)) (add_suc index n),
  )
