-- ===== src/Faults/Latency/Heap.antt =====
-- The heap of faults/latency.py: what pushing and popping do to the entries.
use ros2_resilience.Prelude.{
  ℕ, suc, ◌+◌, ◌≤◌, ◌<◌, ◌≡◌, refl, ◌⊎◌, Bool, true, false, not, List, [], ◌∷◌, map, arith, leb,
  Bool-cases, if◌then◌else◌, inl, inr, length, filter, All, All-map, All-filter,
}
use ros2_resilience.Python.Sorting.{IsAscending}
use ros2_resilience.Faults.Latency.{Entry, heappush, tuple_lt, pop_due}

module _ {T : Type 0} where
  abbrev pub is_due : ℕ → Entry T → Bool
  is_due now e = leb e.deadline now

  abbrev pub is_waiting : ℕ → Entry T → Bool
  is_waiting now e = not (leb e.deadline now)

  abbrev pub ByDeadline : List (Entry T) → Type 0
  ByDeadline = IsAscending (λ e. e.deadline)

  pub length-heappush :
      (e : Entry T) (xs : List (Entry T)) → length (heappush e xs) ≡ suc (length xs)
  unfolding heappush
  length-heappush e [] = refl
  length-heappush e (x ∷ xs) = ground (arith, length-heappush e xs)

  pub All-heappush {κ} :
      (P : Entry T → Type κ) (e : Entry T) (xs : List (Entry T))
      → P e
      → All P xs
      → All P (heappush e xs)
  unfolding heappush
  All-heappush P e [] p h = (p, tt)
  All-heappush P e (x ∷ xs) p h =
      let rest : All P (heappush e xs) = All-heappush P e xs p h.1 in
      elim (tuple_lt e x) as (λ b. All P (if b then e ∷ x ∷ xs else x ∷ heappush e xs)) [
        | true ↦ (p, h)
        | false ↦ (h.0, rest)
      ]

  -- the order of two different tuples
  abbrev pub Before : Entry T → Entry T → Type 0
  Before a b = (a.deadline < b.deadline) ⊎ ((a.deadline ≡ b.deadline) × (a.sequence < b.sequence))

  abbrev pub IsHeap : List (Entry T) → Type 0
  IsHeap [] = Unit
  IsHeap (x ∷ xs) = All (Before x) xs × IsHeap xs

  pub Before-le : (a b : Entry T) → Before a b → a.deadline ≤ b.deadline
  Before-le a b h = omega arith

  Before-trans : (a b c : Entry T) → Before a b → Before b c → Before a c
  Before-trans a b c h k = ground arith

  pub IsHeap-ByDeadline : (xs : List (Entry T)) → IsHeap xs → ByDeadline xs
  IsHeap-ByDeadline [] h = tt
  IsHeap-ByDeadline (x ∷ xs) h = (All-map (λ y. Before-le x y) xs h.0, IsHeap-ByDeadline xs h.1)

  tuple_lt-Before : (a b : Entry T) → tuple_lt a b ≡ true → Before a b
  unfolding tuple_lt
  tuple_lt-Before a b h = ground arith

  not_tuple_lt-Before :
      (a b : Entry T) → tuple_lt a b ≡ false → b.sequence < a.sequence → Before b a
  unfolding tuple_lt
  not_tuple_lt-Before a b h k = ground arith

  -- an entry with a new number keeps the order
  pub heappush-IsHeap :
      (e : Entry T) (xs : List (Entry T))
      → All (λ x. x.sequence < e.sequence) xs
      → IsHeap xs
      → IsHeap (heappush e xs)
  unfolding heappush
  heappush-IsHeap e [] n h = (tt, tt)
  heappush-IsHeap e (x ∷ xs) n h = elim (Bool-cases (tuple_lt e x)) [
    | inl lt ↦
        let first : Before e x = tuple_lt-Before e x lt in
        rw lt ((first, All-map (λ y. Before-trans e x y first) xs h.0), h)
    | inr ge ↦ rw ge (
      All-heappush (Before x) e xs (not_tuple_lt-Before e x ge n.0) h.0,
      heappush-IsHeap e xs n.1 h.1,
    )
  ]

  pub none_due :
      (now : ℕ) (xs : List (Entry T))
      → All (λ y. now < y.deadline) xs
      → (filter (is_due now) xs ≡ []) × (filter (is_waiting now) xs ≡ xs)
  unfolding filter
  none_due now [] h = (refl, refl)
  none_due now (x ∷ xs) h = ground (arith, none_due now xs h.1)

  -- On a heap the loop that pops while the smallest entry is due takes every entry that is due.
  pub pop_due-filter :
      (now : ℕ) (xs : List (Entry T))
      → ByDeadline xs
      → pop_due now xs ≡ (map (λ e. e.message) (filter (is_due now) xs), filter (is_waiting now) xs)
  unfolding pop_due filter
  pop_due-filter now [] h = refl
  pop_due-filter now (x ∷ xs) h = elim (Bool-cases (leb x.deadline now)) [
    | inl due ↦ rw (due, pop_due-filter now xs h.1)
    | inr later ↦
        let (none_left, all_left) = none_due now xs (All-map (λ y k. ground arith) xs h.0) in
        rw (later, none_left, all_left)
  ]

  pub length-pop_due :
      (now : ℕ) (xs : List (Entry T))
      → length (pop_due now xs).0 + length (pop_due now xs).1 ≡ length xs
  unfolding pop_due
  length-pop_due now [] = omega arith
  length-pop_due now (x ∷ xs) = ground (arith, length-pop_due now xs)

  pub All-pop_due {κ} :
      (P : Entry T → Type κ) (now : ℕ) (xs : List (Entry T)) → All P xs → All P (pop_due now xs).1
  unfolding pop_due
  All-pop_due P now [] h = tt
  All-pop_due P now (x ∷ xs) h = elim (Bool-cases (leb x.deadline now)) [
    | inl due ↦ rw due (All-pop_due P now xs h.1)
    | inr later ↦ rw later h
  ]

  pub pop_due-IsHeap : (now : ℕ) (xs : List (Entry T)) → IsHeap xs → IsHeap (pop_due now xs).1
  unfolding pop_due
  pop_due-IsHeap now [] h = tt
  pop_due-IsHeap now (x ∷ xs) h = elim (Bool-cases (leb x.deadline now)) [
    | inl due ↦ rw due (pop_due-IsHeap now xs h.1)
    | inr later ↦ rw later h
  ]

  pub filter-IsHeap : (p : Entry T → Bool) (xs : List (Entry T)) → IsHeap xs → IsHeap (filter p xs)
  unfolding filter
  filter-IsHeap p [] h = tt
  filter-IsHeap p (x ∷ xs) h = elim (Bool-cases (p x)) [
    | inl yes_p ↦ rw yes_p (All-filter (Before x) p xs h.0, filter-IsHeap p xs h.1)
    | inr no_p ↦ rw no_p (filter-IsHeap p xs h.1)
  ]
