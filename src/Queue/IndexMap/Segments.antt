-- ===== src/Queue/IndexMap/Segments.antt =====
-- Slots as segments that fill from the left: the shape that the queue has while a map is applied.
use transonic.Prelude.{
  ℕ, zero, suc, ◌+◌, ◌<◌, ◌≡◌, refl, ap, ◌∙◌, Option, none, some, List, [], ◌∷◌, ◌++◌, length, set,
  arith, if◌then◌else◌,
}
use native.Mathlib.Nat.{suc-add}
use transonic.Queue.Indices.{contains}
use transonic.Queue.IndexMap.{flatten_some, empty_slots}

-- The entries of `queue`, whose first index is `index`, that `chosen` holds, and those that it does
-- not, in queue order.
abbrev pub picked {ℓ} : {A : Type ℓ} → List ℕ → ℕ → List A → List A
picked chosen index [] = []
picked chosen index (x ∷ queue) =
    let rest = picked chosen (suc index) queue in if contains chosen index then x ∷ rest else rest

abbrev pub stayed {ℓ} : {A : Type ℓ} → List ℕ → ℕ → List A → List A
stayed chosen index [] = []
stayed chosen index (x ∷ queue) =
    let rest = stayed chosen (suc index) queue in if contains chosen index then rest else x ∷ rest

-- `n` slots of which the first hold `xs`.
abbrev pub segment {ℓ} : {A : Type ℓ} → ℕ → List A → List (Option A)
segment zero xs = []
segment (suc n) [] = none ∷ segment n []
segment (suc n) (x ∷ xs) = some x ∷ segment n xs

module _ {ℓ} {A : Type ℓ} where
  pub length-segment : (n : ℕ) (xs : List A) → length (segment n xs) ≡ n
  length-segment zero xs = refl
  length-segment (suc n) [] = ap suc (length-segment n [])
  length-segment (suc n) (x ∷ xs) = ap suc (length-segment n xs)

  pub set-segment :
      (n : ℕ) (xs : List A) (x : A)
      → length xs < n
      → set (segment n xs) (length xs) (some x) ≡ segment n (xs ++ x ∷ [])
  set-segment zero xs x h = elim h [ ]
  set-segment (suc n) [] x h = refl
  set-segment (suc n) (y ∷ xs) x h = ap (λ t. some y ∷ t) (set-segment n xs x (omega arith))

  pub flatten_some-segment :
      (n : ℕ) (xs : List A) → length xs ≡ n → flatten_some (segment n xs) ≡ xs
  flatten_some-segment zero [] h = refl
  flatten_some-segment zero (x ∷ xs) h = absurd (omega arith)
  flatten_some-segment (suc n) [] h = absurd (omega arith)
  flatten_some-segment (suc n) (x ∷ xs) h =
      ap (λ t. x ∷ t) (flatten_some-segment n xs (omega arith))

  pub flatten_some-append :
      (xs ys : List (Option A)) → flatten_some (xs ++ ys) ≡ flatten_some xs ++ flatten_some ys
  flatten_some-append [] ys = refl
  flatten_some-append (none ∷ xs) ys = flatten_some-append xs ys
  flatten_some-append (some x ∷ xs) ys = ap (λ t. x ∷ t) (flatten_some-append xs ys)

  pub empty_slots-eq-segment : (n : ℕ) → empty_slots {A = A} n ≡ segment n []
  empty_slots-eq-segment zero = refl
  empty_slots-eq-segment (suc n) = ap (λ t. none ∷ t) (empty_slots-eq-segment n)

  pub segment-split : (m n : ℕ) → segment {A = A} (m + n) [] ≡ segment m [] ++ segment n []
  segment-split zero n = ap (λ k. segment k []) (omega arith)
  segment-split (suc m) n = rw (suc-add m n) (ap (λ t. none ∷ t) (segment-split m n))

  pub set-append_left :
      (xs ys : List A) (i : ℕ) (v : A) → i < length xs → set (xs ++ ys) i v ≡ set xs i v ++ ys
  set-append_left [] ys i v h = elim h [ ]
  set-append_left (x ∷ xs) ys zero v h = refl
  set-append_left (x ∷ xs) ys (suc i) v h =
      ap (λ t. x ∷ t) (set-append_left xs ys i v (omega arith))

  pub set-append_right :
      (xs ys : List A) (n i : ℕ) (v : A)
      → length xs ≡ n
      → set (xs ++ ys) (n + i) v ≡ xs ++ set ys i v
  set-append_right [] ys n i v h = ap (λ k. set ys k v) (omega arith)
  set-append_right (x ∷ xs) ys zero i v h = absurd (omega arith)
  set-append_right (x ∷ xs) ys (suc n) i v h =
      rw (suc-add n i) (ap (λ t. x ∷ t) (set-append_right xs ys n i v (omega arith)))

  pub length-picked-stayed :
      (chosen : List ℕ) (index : ℕ) (queue : List A)
      → length (picked chosen index queue) + length (stayed chosen index queue) ≡ length queue
  length-picked-stayed chosen index [] = omega arith
  length-picked-stayed chosen index (x ∷ queue) =
      ground (arith, length-picked-stayed chosen (suc index) queue)

-- Three adjacent segments.
abbrev pub three_segments {ℓ} :
    {A : Type ℓ} → ℕ → ℕ → ℕ → List A → List A → List A → List (Option A)
three_segments at m r a b c = segment at a ++ (segment m b ++ segment r c)

-- Writing the next entry of one of them.
module _ {ℓ} {A : Type ℓ} (at m r : ℕ) (a b c : List A) (x : A) where
  pub set-slots_first :
      length a < at
      → set (three_segments at m r a b c) (length a) (some x)
        ≡ three_segments at m r (a ++ x ∷ []) b c
  set-slots_first h =
      set-append_left (segment at a) (segment m b ++ segment r c) (length a) (some x)
        (omega (arith, length-segment at a))
      ∙ ap (λ t. t ++ (segment m b ++ segment r c)) (set-segment at a x h)

  pub set-slots_second :
      length b < m
      → set (three_segments at m r a b c) (at + length b) (some x)
        ≡ three_segments at m r a (b ++ x ∷ []) c
  set-slots_second h =
      set-append_right (segment at a) (segment m b ++ segment r c) at (length b) (some x)
        (length-segment at a)
      ∙ ap (λ t. segment at a ++ t)
          (set-append_left (segment m b) (segment r c) (length b) (some x)
              (omega (arith, length-segment m b))
            ∙ ap (λ t. t ++ segment r c) (set-segment m b x h))

  pub set-slots_third :
      length c < r
      → set (three_segments at m r a b c) (at + (m + length c)) (some x)
        ≡ three_segments at m r a b (c ++ x ∷ [])
  set-slots_third h =
      set-append_right (segment at a) (segment m b ++ segment r c) at (m + length c) (some x)
        (length-segment at a)
      ∙ ap (λ t. segment at a ++ t)
          (set-append_right (segment m b) (segment r c) m (length c) (some x) (length-segment m b)
            ∙ ap (λ t. segment m b ++ t) (set-segment r c x h))
