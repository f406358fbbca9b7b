-- ===== src/Middleware/Priority/Unique.antt =====
-- Sorting by priority, against the contract of a stable sort.
use golite.Base.{
  ℕ, ◌≤◌, inl, inr, List, [], ◌∷◌, ◌≡◌, refl, sym, ◌∙◌, arith, nat_eq, Bool-cases, All, Str,
}
use golite.Middleware.Priority.{
  Resolved, rank, rank_of, rank_from, sort_by_priority, IsSorted, of_rank, sort_ranked-IsSorted,
  of_rank-sort_ranked,
}

module _ {M : Type 0} where
  rank_empty : (xs : List (Resolved M)) (x : Resolved M) → All (λ y. rank [] x ≤ rank [] y) xs
  rank_empty [] x = tt
  rank_empty (y ∷ ys) x = (unfold rank_of rank_from in omega arith, rank_empty ys x)

  empty-IsSorted : (xs : List (Resolved M)) → IsSorted [] xs
  empty-IsSorted [] = tt
  empty-IsSorted (x ∷ xs) = (rank_empty xs x, empty-IsSorted xs)

  -- The result is in the order of the ranks, and the entries of one rank, those without a priority
  -- among them, keep the order in which they were assigned.
  pub sort_by_priority-IsSorted :
      (priority : List Str) (xs : List (Resolved M))
      → IsSorted priority (sort_by_priority priority xs)
        × ((r : ℕ) → of_rank priority r (sort_by_priority priority xs) ≡ of_rank priority r xs)
  unfolding sort_by_priority
  sort_by_priority-IsSorted [] xs = (empty-IsSorted xs, λ r. refl)
  sort_by_priority-IsSorted (p ∷ ps) xs =
      (sort_ranked-IsSorted (p ∷ ps) xs, λ r. of_rank-sort_ranked (p ∷ ps) r xs)

module _ {M : Type 0} (priority : List Str) where
  rank-le_of_of_rank :
      (m : ℕ) (xs ys : List (Resolved M)) (y : Resolved M)
      → All (λ x. m ≤ rank priority x) xs
      → of_rank priority (rank priority y) xs ≡ of_rank priority (rank priority y) (y ∷ ys)
      → m ≤ rank priority y
  rank-le_of_of_rank m [] ys y h e = absurd (ground arith)
  rank-le_of_of_rank m (x ∷ xs) ys y h e =
      elim (Bool-cases (nat_eq (rank priority x) (rank priority y))) [
        | inl same ↦ ground arith
        | inr other ↦ rank-le_of_of_rank m xs ys y h.1 (rw other at e)
      ]

  -- A list in the order of the ranks is determined by the entries of each rank in their order.
  sorted_unique :
      (xs ys : List (Resolved M))
      → IsSorted priority xs
      → IsSorted priority ys
      → ((r : ℕ) → of_rank priority r xs ≡ of_rank priority r ys)
      → xs ≡ ys
  sorted_unique [] [] h k e = refl
  sorted_unique [] (y ∷ ys) h k e = absurd (ground (arith, e (rank priority y)))
  sorted_unique (x ∷ xs) [] h k e = absurd (ground (arith, e (rank priority x)))
  sorted_unique (x ∷ xs) (y ∷ ys) h k e =
      let a =
        rank-le_of_of_rank (rank priority x) (x ∷ xs) ys y (omega arith, h.0)
          (e (rank priority y)) in
      let b =
        rank-le_of_of_rank (rank priority y) (y ∷ ys) xs x (omega arith, k.0)
          (sym (e (rank priority x))) in
      let heads : x ≡ y = ground (arith, a, b, e (rank priority x)) in
      let tails = sorted_unique xs ys h.1 k.1 (λ r. ground (arith, a, b, e r)) in
      ground (arith, heads, tails)

-- Any list in the order of the ranks that keeps the order of the entries of each rank is the result
-- of the sort: the result does not depend on how the stable sort works.
pub sort_by_priority_unique :
    {M : Type 0} (priority : List Str) (xs out : List (Resolved M))
    → IsSorted priority out
    → ((r : ℕ) → of_rank priority r out ≡ of_rank priority r xs)
    → out ≡ sort_by_priority priority xs
sort_by_priority_unique priority xs out h e =
    let (sorted, same) = sort_by_priority-IsSorted priority xs in
    sorted_unique priority out (sort_by_priority priority xs) h sorted (λ r. e r ∙ sym (same r))
