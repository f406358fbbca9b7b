-- ===== src/Middleware/Priority/Ordered.antt =====
-- app/Http/Kernel.go: what sortByPriority promises, in terms of the priority list itself.
use golite.Base.{
  ℕ, suc, ◌+◌, ◌≤◌, ◌<◌, Bool, true, false, not, none, some, List, [], ◌∷◌, ◌++◌, ◌≡◌, ◌⊎◌, inl,
  inr, refl, sym, ap, ◌∙◌, arith, length, length-append, keep, nat_eq, Bool-cases, All, All-mono,
  Str, ◌==◌, eq_iff, eq_refl, has,
}
use golite.Middleware.Priority.{
  Resolved, rank, rank_of, rank_from, sort_by_priority, IsSorted, of_rank,
}
use golite.Middleware.Priority.Unique.{sort_by_priority-IsSorted}

-- The last place of `a` in the list lies before that of `b`, or `b` is not in the list.
abbrev pub Precedes : List Str → Str → Str → Type 0
Precedes priority a b =
    (front back : List Str) × (priority ≡ front ++ (a ∷ back))
    × (has back a ≡ false)
    × ((has back b ≡ true) ⊎ (has priority b ≡ false))

rank_from-none : (i : ℕ) (ps : List Str) (n : Str) → has ps n ≡ false → rank_from i ps n ≡ none
unfolding rank_from has
rank_from-none i [] n h = refl
rank_from-none i (p ∷ ps) n h = ground (arith, rank_from-none (suc i) ps n, eq_iff p n)

rank_from-some :
    (i : ℕ) (ps : List Str) (n : Str)
    → has ps n ≡ true
    → (r : ℕ) × (rank_from i ps n ≡ some r) × (i ≤ r)
unfolding rank_from has
rank_from-some i [] n h = cc
rank_from-some i (p ∷ ps) n h = elim (Bool-cases (has ps n)) [
  | inl e ↦
      let (r, f, le) = rank_from-some (suc i) ps n e in (r, rw (rank_from, f) refl, omega arith)
  | inr e ↦
      let here : (p == n) ≡ true = ground (arith, eq_iff p n) in
      (i, rw (rank_from, rank_from-none (suc i) ps n e, here) refl, omega arith)
]

rank_from-append :
    (i r : ℕ) (front ps : List Str) (n : Str)
    → rank_from (i + length front) ps n ≡ some r
    → rank_from i (front ++ ps) n ≡ some r
unfolding rank_from
rank_from-append i r [] ps n h =
    let same : i + length {A = Str} [] ≡ i = omega arith in rw same at h
rank_from-append i r (f ∷ front) ps n h =
    let same : i + length (f ∷ front) ≡ suc i + length front = omega arith in
    rw (rank_from, rank_from-append (suc i) r front ps n (rw same at h)) refl

rank_of-at :
    (front ps : List Str) (n : Str) (r : ℕ)
    → rank_from (length front) ps n ≡ some r
    → rank_of (front ++ ps) n ≡ r
unfolding rank_of
rank_of-at front ps n r h =
    let zero_plus : 0 + length front ≡ length front = omega arith in
    rw (rank_from-append 0 r front ps n (rw zero_plus h)) refl

rank_of-none :
    (priority : List Str) (n : Str) → has priority n ≡ false → rank_of priority n ≡ length priority
unfolding rank_of
rank_of-none priority n h = rw (rank_from-none 0 priority n h) refl

rank_from-here :
    (i : ℕ) (back : List Str) (a : Str) → has back a ≡ false → rank_from i (a ∷ back) a ≡ some i
unfolding rank_from
rank_from-here i back a h = rw (rank_from-none (suc i) back a h, eq_refl a) refl

rank_from-later :
    (i r : ℕ) (back : List Str) (a b : Str)
    → rank_from (suc i) back b ≡ some r
    → rank_from i (a ∷ back) b ≡ some r
unfolding rank_from
rank_from-later i r back a b h = rw h refl

Precedes-rank :
    (priority : List Str) (a b : Str)
    → Precedes priority a b
    → rank_of priority a < rank_of priority b
Precedes-rank priority a b (front, back, e, last, inl h) =
    let (r, f, le) = rank_from-some (suc (length front)) back b h in
    let first =
      rank_of-at front (a ∷ back) a (length front) (rank_from-here (length front) back a last) in
    let second = rank_of-at front (a ∷ back) b r (rank_from-later (length front) r back a b f) in
    rw e (omega (arith, first, second, le))
Precedes-rank priority a b (front, back, e, last, inr h) =
    let first =
      rank_of-at front (a ∷ back) a (length front) (rank_from-here (length front) back a last) in
    let second = rank_of-none (front ++ (a ∷ back)) b (rw e at h) in
    rw e (omega (arith, first, second, length-append front (a ∷ back)))

module _ {M : Type 0} where
  -- No entry comes before one whose name precedes its own.
  abbrev pub IsOrdered : List Str → List (Resolved M) → Type 0
  IsOrdered priority [] = Unit
  IsOrdered priority (x ∷ xs) =
      All (λ y. ¬ Precedes priority y.name x.name) xs × IsOrdered priority xs

  pub IsSorted-IsOrdered :
      (priority : List Str) (xs : List (Resolved M)) → IsSorted priority xs → IsOrdered priority xs
  IsSorted-IsOrdered priority [] h = tt
  IsSorted-IsOrdered priority (x ∷ xs) h = (
    All-mono _ _ (λ y le p. absurd (omega (arith, le, Precedes-rank priority y.name x.name p))) xs
        h.0,
    IsSorted-IsOrdered priority xs h.1,
  )

  abbrev pub named : Str → List (Resolved M) → List (Resolved M)
  named n = keep (λ m. m.name == n)

  abbrev pub unranked : List Str → List (Resolved M) → List (Resolved M)
  unranked priority = keep (λ m. not (has priority m.name))

  keep-keep :
      (p q : Resolved M → Bool)
      → ((m : Resolved M) → q m ≡ true → p m ≡ true)
      → (xs : List (Resolved M)) → keep q (keep p xs) ≡ keep q xs
  keep-keep p q h [] = refl
  keep-keep p q h (x ∷ xs) = ground (arith, keep-keep p q h xs, h x)

  named-of_rank :
      (priority : List Str) (n : Str) (xs : List (Resolved M))
      → named n (of_rank priority (rank_of priority n) xs) ≡ named n xs
  named-of_rank priority n xs =
      keep-keep (λ m. nat_eq (rank priority m) (rank_of priority n)) (λ m. m.name == n)
        (λ m h. let same : m.name ≡ n = (eq_iff m.name n).0 h in rw same (ground arith)) xs

  unranked-of_rank :
      (priority : List Str) (xs : List (Resolved M))
      → unranked priority (of_rank priority (length priority) xs) ≡ unranked priority xs
  unranked-of_rank priority xs =
      keep-keep (λ m. nat_eq (rank priority m) (length priority)) (λ m. not (has priority m.name))
        (λ m h.
          let absent : has priority m.name ≡ false = ground arith in
          rw (rank_of-none priority m.name absent) (ground arith))
        xs

  -- The result of sortByPriority has no entry before one whose name precedes its own in the
  -- priority list, where the last place of a name counts and a name of the list precedes any other
  -- one. It has the entries that were assigned: those of each name, and those whose name is not in
  -- the list, keep their order.
  pub sort_by_priority_lem :
      (priority : List Str) (xs : List (Resolved M)) (n : Str)
      → IsOrdered priority (sort_by_priority priority xs)
        × (named n (sort_by_priority priority xs) ≡ named n xs)
        × (unranked priority (sort_by_priority priority xs) ≡ unranked priority xs)
  sort_by_priority_lem priority xs n =
      let (sorted, same) = sort_by_priority-IsSorted priority xs in
      (
        IsSorted-IsOrdered priority (sort_by_priority priority xs) sorted,
        sym (named-of_rank priority n (sort_by_priority priority xs))
            ∙ ap (named n) (same (rank_of priority n))
            ∙ named-of_rank priority n xs,
        sym (unranked-of_rank priority (sort_by_priority priority xs))
            ∙ ap (unranked priority) (same (length priority))
            ∙ unranked-of_rank priority xs,
      )
