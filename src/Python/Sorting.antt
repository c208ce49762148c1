-- ===== src/Python/Sorting.antt =====
-- `sorted(l, key=…)` on keys that are natural numbers, and `heapq.heappush` on a list that is kept
-- in ascending order: such a list is a heap, and the program looks at its length and its smallest
-- element only.
use ros2_resilience.Prelude.{
  ℕ, suc, length, ◌≤◌, ◌<◌, ◌≡◌, refl, true, false, Bool, List, [], ◌∷◌, ◌++◌, arith, leb, leb→le,
  Bool-cases, inl, inr, if◌then◌else◌, All, All-map, All-filter, All-append, filter, any, ◌||◌,
}

module _ {ℓ} {A : Type ℓ} (key : A → ℕ) where
  -- before the first element whose key is not smaller, so the sort is stable
  unfoldable pub insert : A → List A → List A
  insert a [] = a ∷ []
  insert a (x ∷ xs) = let rest = insert a xs in if leb (key a) (key x) then a ∷ x ∷ xs else x ∷ rest

  unfoldable pub sorted : List A → List A
  unfolding insert
  sorted [] = []
  sorted (x ∷ xs) = insert x (sorted xs)

  abbrev pub IsAscending : List A → Type 0
  IsAscending [] = Unit
  IsAscending (x ∷ xs) = All (λ y. key x ≤ key y) xs × IsAscending xs

  -- a larger key goes to the end
  pub insert_last :
      (a : A) (xs : List A) → All (λ x. key x < key a) xs → insert a xs ≡ xs ++ (a ∷ [])
  unfolding insert
  insert_last a [] h = refl
  insert_last a (x ∷ xs) h = ground (arith, insert_last a xs h.1)

  -- what is at the end with a larger key stays there
  pub insert-append :
      (a b : A) (xs : List A) → key a < key b → insert a (xs ++ (b ∷ [])) ≡ insert a xs ++ (b ∷ [])
  unfolding insert
  insert-append a b [] h = ground arith
  insert-append a b (x ∷ xs) h = ground (arith, insert-append a b xs h)

  pub All-insert {κ} : (P : A → Type κ) (a : A) (xs : List A) → P a → All P xs → All P (insert a xs)
  unfolding insert
  All-insert P a [] p h = (p, tt)
  All-insert P a (x ∷ xs) p h =
      let rest : All P (insert a xs) = All-insert P a xs p h.1 in
      elim (leb (key a) (key x)) as (λ b. All P (if b then a ∷ x ∷ xs else x ∷ insert a xs)) [
        | true ↦ (p, h)
        | false ↦ (h.0, rest)
      ]

  pub All-sorted {κ} : (P : A → Type κ) (xs : List A) → All P xs → All P (sorted xs)
  unfolding sorted
  All-sorted P [] h = tt
  All-sorted P (x ∷ xs) h = All-insert P x (sorted xs) h.0 (All-sorted P xs h.1)

  -- a key that no other is below goes to the front
  pub insert_first : (a : A) (xs : List A) → All (λ x. key a ≤ key x) xs → insert a xs ≡ a ∷ xs
  unfolding insert
  insert_first a [] h = refl
  insert_first a (x ∷ xs) h = ground arith

  insert-IsAscending : (a : A) (xs : List A) → IsAscending xs → IsAscending (insert a xs)
  unfolding insert
  insert-IsAscending a [] h = (tt, tt)
  insert-IsAscending a (x ∷ xs) h = elim (Bool-cases (leb (key a) (key x))) [
    | inl le ↦ rw le ((leb→le _ _ le, All-map (λ y k. ground arith) xs h.0), h)
    | inr gt ↦
        rw gt (All-insert (λ y. key x ≤ key y) a xs (ground arith) h.0, insert-IsAscending a xs h.1)
  ]

  pub sorted-IsAscending : (xs : List A) → IsAscending (sorted xs)
  unfolding sorted
  sorted-IsAscending [] = tt
  sorted-IsAscending (x ∷ xs) = insert-IsAscending x (sorted xs) (sorted-IsAscending xs)

  filter-insert :
      (p : A → Bool) (a : A) (xs : List A)
      → IsAscending xs
      → filter p (insert a xs) ≡ (if p a then insert a (filter p xs) else filter p xs)
  unfolding insert filter
  filter-insert p a [] h = ground arith
  filter-insert p a (x ∷ xs) h = elim (Bool-cases (leb (key a) (key x))) [
    | inl le ↦
        let above : All (λ y. key a ≤ key y) xs = All-map (λ y k. ground arith) xs h.0 in
        ground (arith, insert_first a (filter p xs) (All-filter (λ y. key a ≤ key y) p xs above))
    | inr gt ↦ ground (arith, filter-insert p a xs h.1)
  ]

  -- to sort and to filter commute
  pub filter-sorted : (p : A → Bool) (xs : List A) → filter p (sorted xs) ≡ sorted (filter p xs)
  unfolding sorted filter
  filter-sorted p [] = refl
  filter-sorted p (x ∷ xs) =
      rw (filter-insert p x (sorted xs) (sorted-IsAscending xs), filter-sorted p xs) (ground arith)

  pub sorted_of_IsAscending : (xs : List A) → IsAscending xs → sorted xs ≡ xs
  unfolding sorted
  sorted_of_IsAscending [] h = refl
  sorted_of_IsAscending (x ∷ xs) h = rw (sorted_of_IsAscending xs h.1) (insert_first x xs h.0)

  pub append-IsAscending :
      (xs : List A) (a : A)
      → IsAscending xs
      → All (λ x. key x ≤ key a) xs
      → IsAscending (xs ++ (a ∷ []))
  append-IsAscending [] a h k = (tt, tt)
  append-IsAscending (x ∷ xs) a h k =
      (All-append _ xs (a ∷ []) h.0 (k.0, tt), append-IsAscending xs a h.1 k.1)

  pub filter-IsAscending : (p : A → Bool) (xs : List A) → IsAscending xs → IsAscending (filter p xs)
  unfolding filter
  filter-IsAscending p [] h = tt
  filter-IsAscending p (x ∷ xs) h = elim (Bool-cases (p x)) [
    | inl kept ↦ rw kept (All-filter (λ y. key x ≤ key y) p xs h.0, filter-IsAscending p xs h.1)
    | inr dropped ↦ rw dropped (filter-IsAscending p xs h.1)
  ]

  length-insert : (a : A) (xs : List A) → length (insert a xs) ≡ suc (length xs)
  unfolding insert
  length-insert a [] = refl
  length-insert a (x ∷ xs) = ground (arith, length-insert a xs)

  pub length-sorted : (xs : List A) → length (sorted xs) ≡ length xs
  unfolding sorted
  length-sorted [] = refl
  length-sorted (x ∷ xs) = omega (arith, length-insert x (sorted xs), length-sorted xs)

  any-insert : (p : A → Bool) (a : A) (xs : List A) → any p (insert a xs) ≡ (p a || any p xs)
  unfolding insert
  any-insert p a [] = refl
  any-insert p a (x ∷ xs) = ground (arith, any-insert p a xs)

  pub any-sorted : (p : A → Bool) (xs : List A) → any p (sorted xs) ≡ any p xs
  unfolding sorted
  any-sorted p [] = refl
  any-sorted p (x ∷ xs) = rw (any-insert p x (sorted xs), any-sorted p xs) refl
