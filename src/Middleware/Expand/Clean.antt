-- ===== src/Middleware/Expand/Clean.antt =====
-- What is left after expandMiddlewareNames.
use golite.Base.{
  ℕ, zero, suc, true, none, some, List, [], ◌∷◌, map, ◌≡◌, ◌⊎◌, inl, inr, ap, ◌∙◌, arith,
  Bool-cases, Option-cases, length, All, All-append, All-mono, Str, ◌==◌, eq_iff, eq_refl, lookup,
  has, add, remove, has-add,
}
use golite.Middleware.Spec.{base_name}
use golite.Middleware.Expand.{Groups, group_of, expand, expand_middleware_names}
use golite.Middleware.Expand.Fuel.{
  group_of_facts, expand_plain, expand_group, expand_spent, expand-visiting, remove-add,
}

-- A member of group `a` has the base name `b`.
abbrev pub Edge : Groups → Str → Str → Type 0
Edge groups a b =
    (members : List Str) × (lookup a groups ≡ some members) × (has (map base_name members) b ≡ true)

-- From group `a` the name `b` is reached through members of members.
pub data Reaches (groups : Groups) (a : Str) : Str → Type 0 where
  direct : {b : Str} → Edge groups a b → Reaches groups a b
  onward : {b c : Str} → Reaches groups a b → Edge groups b c → Reaches groups a c

-- The spec is of no group, or of one that contains itself.
abbrev pub IsClean : Groups → Str → Type 0
IsClean groups spec =
    (lookup (base_name spec) groups ≡ none) ⊎ Reaches groups (base_name spec) (base_name spec)

All-base_name :
    (xs ys : List Str)
    → ((k : Str) → has (map base_name xs) k ≡ true → has (map base_name ys) k ≡ true)
    → All (λ s. has (map base_name ys) (base_name s) ≡ true) xs
unfolding has
All-base_name [] ys h = tt
All-base_name (x ∷ xs) ys h = (
  h (base_name x) (ground (arith, eq_refl (base_name x))),
  All-base_name xs ys (λ k p. h k (ground arith)),
)

All-Edge :
    (groups : Groups) (a : Str) (members : List Str)
    → lookup a groups ≡ some members
    → All (λ s. Edge groups a (base_name s)) members
All-Edge groups a members e =
    All-mono _ _ (λ s p. (members, e, p)) members (All-base_name members members (λ k p. p))

-- Every group being visited reaches every spec.
abbrev FromVisited : Groups → List Str → List Str → Type 0
FromVisited groups visiting specs =
    (a : Str) → has visiting a ≡ true → All (λ s. Reaches groups a (base_name s)) specs

FromVisited-members :
    (groups : Groups) (visiting specs members : List Str) (spec base : Str)
    → base ≡ base_name spec
    → lookup base groups ≡ some members
    → FromVisited groups visiting (spec ∷ specs)
    → FromVisited groups (add base visiting) members
FromVisited-members groups visiting specs members spec base same found from a h =
    elim (Bool-cases (base == a)) [
      | inl here ↦
          rw (← (eq_iff base a).0 here)
            (All-mono _ _ (λ s p. direct p) members (All-Edge groups base members found))
      | inr there ↦
          let up = (from a (ground (arith, has-add base a visiting))).0 in
          All-mono _ _ (λ s p. onward (rw (← same) at up) p) members
            (All-Edge groups base members found)
    ]

group_of-none :
    (groups : Groups) (visiting specs : List Str) (spec : Str)
    → group_of groups visiting spec ≡ none
    → FromVisited groups visiting (spec ∷ specs)
    → IsClean groups spec
unfolding group_of
group_of-none groups visiting specs spec e from =
    elim (Option-cases (lookup (base_name spec) groups)) [
      | inl missing ↦ inl missing
      | inr (members, found) ↦ inr ((from (base_name spec) (ground arith)).0)
    ]

expand-IsClean :
    (fuel : ℕ) (groups : Groups) (specs visiting out after : List Str)
    → FromVisited groups visiting specs
    → expand fuel groups specs visiting ≡ some (out, after)
    → All (IsClean groups) out
expand-IsClean fuel groups [] visiting out after from h =
    let e : out ≡ [] = unfold expand in ground arith in rw e tt
expand-IsClean zero groups (spec ∷ specs) visiting out after from h =
    elim (Option-cases (group_of groups visiting spec)) [
      | inr (g, e) ↦ absurd (ground (arith, expand_spent groups spec specs visiting e))
      | inl e ↦
          let (rest, f, k) = expand_plain zero groups spec specs visiting out after e h in
          rw k (
            group_of-none groups visiting specs spec e from,
            expand-IsClean zero groups specs visiting rest after (λ a p. (from a p).1) f,
          )
    ]
expand-IsClean (suc fuel) groups (spec ∷ specs) visiting out after from h =
    elim (Option-cases (group_of groups visiting spec)) [
      | inl e ↦
          let (rest, f, k) = expand_plain (suc fuel) groups spec specs visiting out after e h in
          rw k (
            group_of-none groups visiting specs spec e from,
            expand-IsClean (suc fuel) groups specs visiting rest after (λ a p. (from a p).1) f,
          )
      | inr ((base, members), e) ↦
          let (inner, left, rest, f, f', k) =
            expand_group fuel groups spec specs visiting out after base members e h in
          let (same, new, found) = group_of_facts groups visiting members spec base e in
          let kept : remove base left ≡ visiting =
            ap (remove base) (expand-visiting fuel groups members (add base visiting) inner left f)
            ∙ remove-add base visiting new in
          rw k (
            All-append (IsClean groups) inner rest
              (expand-IsClean fuel groups members (add base visiting) inner left
                (FromVisited-members groups visiting specs members spec base same found from) f)
              (expand-IsClean (suc fuel) groups specs visiting rest after (λ a p. (from a p).1)
                (rw kept at f')))
    ]

-- Every spec that is left names no group, or a group that contains itself through its members:
-- where no group does, every group name has been replaced.
pub expand_middleware_names-IsClean :
    (groups : Groups) (specs out after : List Str)
    → expand_middleware_names groups specs ≡ some (out, after)
    → All (IsClean groups) out
unfolding expand_middleware_names has
expand_middleware_names-IsClean groups specs out after h =
    expand-IsClean (length groups) groups specs [] out after (λ a p. absurd (ground arith)) h
