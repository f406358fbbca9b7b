-- ===== src/Middleware/Priority.antt =====
-- app/Http/Kernel.go: resolvedMiddleware and sortByPriority. sort.SliceStable is modelled by an
-- insertion sort; a theorem below says that any stable sort gives the same list.
pub mod Unique
pub mod Ordered
use golite.Base.{
  inl, inr, ℕ, zero, suc, ◌≤◌, Bool, true, false, Option, none, some, List, [], ◌∷◌, ◌≡◌, ◌≢◌, refl,
  ap, sym, ◌∙◌, arith, if◌then◌else◌, leb, nat_eq, Bool-cases, length, keep, All, Str, ◌==◌,
}

pub record Resolved (M : Type 0) : Type 0 where
  pub name : Str
  pub mw : M
  pub params : List Str

-- rank[name], where a later entry of the priority list overwrites an earlier one.
unfoldable pub rank_from : ℕ → List Str → Str → Option ℕ
rank_from i [] name = none
rank_from i (p ∷ ps) name = elim (rank_from (suc i) ps name) [
  | some r ↦ some r
  | none ↦ if p == name then some i else none
]

abbrev or_unranked : ℕ → Option ℕ → ℕ
or_unranked n none = n
or_unranked n (some r) = r

unfoldable pub rank_of : List Str → Str → ℕ
unfolding rank_from
rank_of priority name = or_unranked (length priority) (rank_from 0 priority name)

module _ {M : Type 0} (priority : List Str) where
  abbrev pub rank : Resolved M → ℕ
  rank m = rank_of priority m.name

  unfoldable pub insert_ranked : Resolved M → List (Resolved M) → List (Resolved M)
  insert_ranked x [] = x ∷ []
  insert_ranked x (y ∷ ys) = if leb (rank x) (rank y) then x ∷ y ∷ ys else y ∷ insert_ranked x ys

  unfoldable pub sort_ranked : List (Resolved M) → List (Resolved M)
  unfolding insert_ranked
  sort_ranked [] = []
  sort_ranked (x ∷ xs) = insert_ranked x (sort_ranked xs)

  unfoldable pub sort_by_priority : List (Resolved M) → List (Resolved M)
  unfolding sort_ranked
  sort_by_priority list = elim priority [ [] ↦ list | p ∷ ps ↦ sort_ranked list ]

  abbrev pub IsSorted : List (Resolved M) → Type 0
  IsSorted [] = Unit
  IsSorted (x ∷ xs) = All (λ y. rank x ≤ rank y) xs × IsSorted xs

  -- The entries of one rank, in their order.
  abbrev pub of_rank : ℕ → List (Resolved M) → List (Resolved M)
  of_rank r = keep (λ m. nat_eq (rank m) r)

  All-insert_ranked {κ} :
      (P : Resolved M → Type κ) (x : Resolved M) (xs : List (Resolved M))
      → P x
      → All P xs
      → All P (insert_ranked x xs)
  unfolding insert_ranked
  All-insert_ranked P x [] h k = (h, tt)
  All-insert_ranked P x (y ∷ ys) h k = ground (arith, All-insert_ranked P x ys h k.1)

  pub All-sort_ranked {κ} :
      (P : Resolved M → Type κ) (xs : List (Resolved M)) → All P xs → All P (sort_ranked xs)
  unfolding sort_ranked
  All-sort_ranked P [] h = tt
  All-sort_ranked P (x ∷ xs) h =
      All-insert_ranked P x (sort_ranked xs) h.0 (All-sort_ranked P xs h.1)

  All-le_trans :
      (m n : ℕ) (ys : List (Resolved M))
      → m ≤ n
      → All (λ y. n ≤ rank y) ys
      → All (λ y. m ≤ rank y) ys
  All-le_trans m n [] h k = tt
  All-le_trans m n (y ∷ ys) h k = (omega arith, All-le_trans m n ys h k.1)

  insert_ranked-IsSorted :
      (x : Resolved M) (xs : List (Resolved M)) → IsSorted xs → IsSorted (insert_ranked x xs)
  unfolding insert_ranked
  insert_ranked-IsSorted x [] h = (tt, tt)
  insert_ranked-IsSorted x (y ∷ ys) h = elim (Bool-cases (leb (rank x) (rank y))) [
    | inl e ↦ rw e (((ground arith), All-le_trans (rank x) (rank y) ys (ground arith) h.0), h)
    | inr e ↦ rw e (
      All-insert_ranked (λ z. rank y ≤ rank z) x ys (ground arith) h.0,
      insert_ranked-IsSorted x ys h.1,
    )
  ]

  pub sort_ranked-IsSorted : (xs : List (Resolved M)) → IsSorted (sort_ranked xs)
  unfolding sort_ranked
  sort_ranked-IsSorted [] = tt
  sort_ranked-IsSorted (x ∷ xs) =
      insert_ranked-IsSorted x (sort_ranked xs) (sort_ranked-IsSorted xs)

  of_rank-insert_ranked :
      (r : ℕ) (x : Resolved M) (xs : List (Resolved M))
      → of_rank r (insert_ranked x xs) ≡ of_rank r (x ∷ xs)
  unfolding insert_ranked
  of_rank-insert_ranked r x [] = refl
  of_rank-insert_ranked r x (y ∷ ys) = ground (arith, of_rank-insert_ranked r x ys)

  pub of_rank-sort_ranked :
      (r : ℕ) (xs : List (Resolved M)) → of_rank r (sort_ranked xs) ≡ of_rank r xs
  unfolding sort_ranked
  of_rank-sort_ranked r [] = refl
  of_rank-sort_ranked r (x ∷ xs) =
      ground (arith, of_rank-insert_ranked r x (sort_ranked xs), of_rank-sort_ranked r xs)
