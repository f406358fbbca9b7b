-- ===== src/Middleware/Expand/Fuel.antt =====
-- The fuel of expandMiddlewareNames, and the map of the groups being visited.
use golite.Base.{
  ℕ, zero, suc, ◌+◌, ◌≤◌, ◌<◌, false, none, some, List, [], ◌∷◌, ◌++◌, ◌≡◌, ◌≢◌, inl, inr, refl, ap,
  ◌∙◌, arith, if◌then◌else◌, >>=-eq-some, Option-cases, length, Str, eq_iff, eq_refl, lookup, has,
  add, remove, has-add,
}
use golite.Middleware.Spec.{base_name}
use golite.Middleware.Expand.{Groups, group_of, expand, expand_middleware_names}

remove_absent : (b : Str) (v : List Str) → has v b ≡ false → remove b v ≡ v
unfolding remove has
remove_absent b [] h = refl
remove_absent b (j ∷ v) h = ground (arith, remove_absent b v)

pub remove-add : (b : Str) (v : List Str) → has v b ≡ false → remove b (add b v) ≡ v
unfolding add remove
remove-add b v h = ground (arith, eq_refl b, remove_absent b v)

pub group_of_facts :
    (groups : Groups) (visiting members : List Str) (spec base : Str)
    → group_of groups visiting spec ≡ some (base, members)
    → (base ≡ base_name spec) × (has visiting base ≡ false) × (lookup base groups ≡ some members)
unfolding group_of
group_of_facts groups visiting members spec base h = ground arith

-- The three ways in which a call on one more spec succeeds or runs out of fuel.
pub expand_plain :
    (fuel : ℕ) (groups : Groups) (spec : Str) (specs visiting out after : List Str)
    → group_of groups visiting spec ≡ none
    → expand fuel groups (spec ∷ specs) visiting ≡ some (out, after)
    → (rest : List Str) × (expand fuel groups specs visiting ≡ some (rest, after))
      × (out ≡ spec ∷ rest)
unfolding expand
expand_plain zero groups spec specs visiting out after e h =
    let (r, f, k) = >>=-eq-some (expand zero groups specs visiting) _ (rw (e, expand) at h) in
    (r.0, ground arith, ground arith)
expand_plain (suc fuel) groups spec specs visiting out after e h =
    let (r, f, k) = >>=-eq-some (expand (suc fuel) groups specs visiting) _ (rw (e, expand) at h) in
    (r.0, ground arith, ground arith)

pub expand_group :
    (fuel : ℕ) (groups : Groups) (spec : Str) (specs visiting out after : List Str) (base : Str)
    (members : List Str)
    → group_of groups visiting spec ≡ some (base, members)
    → expand (suc fuel) groups (spec ∷ specs) visiting ≡ some (out, after)
    → (inner left rest : List Str) × (expand fuel groups members (add base visiting)
        ≡ some (inner, left))
      × (expand (suc fuel) groups specs (remove base left) ≡ some (rest, after))
      × (out ≡ inner ++ rest)
unfolding expand
expand_group fuel groups spec specs visiting out after base members e h =
    let (r, f, k) =
      >>=-eq-some (expand fuel groups members (add base visiting)) _ (rw (e, expand) at h) in
    let (q, f', k') = >>=-eq-some (expand (suc fuel) groups specs (remove base r.1)) _ k in
    (r.0, r.1, q.0, ground arith, ground arith, ground arith)

pub expand_spent :
    (groups : Groups) (spec : Str) (specs visiting : List Str) {g : Str × List Str}
    → group_of groups visiting spec ≡ some g
    → expand zero groups (spec ∷ specs) visiting ≡ none
unfolding expand
expand_spent groups spec specs visiting e = rw (e, expand)

-- A call leaves the map of visited groups as it found it.
pub expand-visiting :
    (fuel : ℕ) (groups : Groups) (specs visiting out after : List Str)
    → expand fuel groups specs visiting ≡ some (out, after)
    → after ≡ visiting
expand-visiting fuel groups [] visiting out after h = unfold expand in ground arith
expand-visiting zero groups (spec ∷ specs) visiting out after h =
    elim (Option-cases (group_of groups visiting spec)) [
      | inr (g, e) ↦ absurd (ground (arith, expand_spent groups spec specs visiting e))
      | inl e ↦
          let (rest, f, _) = expand_plain zero groups spec specs visiting out after e h in
          expand-visiting zero groups specs visiting rest after f
    ]
expand-visiting (suc fuel) groups (spec ∷ specs) visiting out after h =
    elim (Option-cases (group_of groups visiting spec)) [
      | inl e ↦
          let (rest, f, _) = expand_plain (suc fuel) groups spec specs visiting out after e h in
          expand-visiting (suc fuel) groups specs visiting rest after f
      | inr ((base, members), e) ↦
          let (inner, left, rest, f, f', _) =
            expand_group fuel groups spec specs visiting out after base members e h in
          let same = expand-visiting fuel groups members (add base visiting) inner left f in
          let (_, new, _) = group_of_facts groups visiting members spec base e in
          expand-visiting (suc fuel) groups specs (remove base left) rest after f'
          ∙ ap (remove base) same
          ∙ remove-add base visiting new
    ]

unvisited : Groups → List Str → ℕ
unvisited [] visiting = 0
unvisited ((k, members) ∷ groups) visiting =
    (if has visiting k then 0 else 1) + unvisited groups visiting

unvisited-add-le :
    (groups : Groups) (b : Str) (v : List Str) → unvisited groups (add b v) ≤ unvisited groups v
unfolding unvisited
unvisited-add-le [] b v = omega arith
unvisited-add-le ((k, members) ∷ groups) b v =
    ground (arith, unvisited-add-le groups b v, has-add b k v)

unvisited-add-lt :
    (groups : Groups) (b : Str) (v : List Str)
    → has v b ≡ false
    → lookup b groups ≢ none
    → unvisited groups (add b v) < unvisited groups v
unfolding unvisited lookup
unvisited-add-lt [] b v h k = absurd (k refl)
unvisited-add-lt ((j, members) ∷ groups) b v h k = ground (
  arith,
  unvisited-add-lt groups b v h,
  unvisited-add-le groups b v,
  has-add b j v,
  eq_iff j b,
  eq_refl b,
)

expand_total :
    (fuel : ℕ) (groups : Groups) (specs visiting : List Str)
    → unvisited groups visiting ≤ fuel
    → (out : List Str) × (expand fuel groups specs visiting ≡ some (out, visiting))
unfolding expand
expand_total fuel groups [] visiting h = ([], refl)
expand_total zero groups (spec ∷ specs) visiting h =
    elim (Option-cases (group_of groups visiting spec)) [
      | inl e ↦
          let (rest, f) = expand_total zero groups specs visiting h in
          (spec ∷ rest, rw (e, expand) (rw f))
      | inr ((base, members), e) ↦
          let (same, new, found) = group_of_facts groups visiting members spec base e in
          absurd (omega (arith, unvisited-add-lt groups base visiting new (λ p. ground arith)))
    ]
expand_total (suc fuel) groups (spec ∷ specs) visiting h =
    elim (Option-cases (group_of groups visiting spec)) [
      | inl e ↦
          let (rest, f) = expand_total (suc fuel) groups specs visiting h in
          (spec ∷ rest, rw (e, expand) (rw f))
      | inr ((base, members), e) ↦
          let (same, new, found) = group_of_facts groups visiting members spec base e in
          let less = unvisited-add-lt groups base visiting new (λ p. ground arith) in
          let (inner, f) = expand_total fuel groups members (add base visiting) (omega arith) in
          let (rest, f') = expand_total (suc fuel) groups specs visiting h in
          (inner ++ rest, rw (e, expand) (rw f (rw (remove-add base visiting new) (rw f'))))
    ]

unvisited-le-length : (groups : Groups) → unvisited groups [] ≤ length groups
unfolding unvisited has
unvisited-le-length [] = omega arith
unvisited-le-length (g ∷ groups) = omega (arith, unvisited-le-length groups)

-- Whatever the groups, also where they name one another in a cycle, the expansion ends: as much
-- fuel as there are groups is enough. It leaves the map of visited groups empty.
pub expand_middleware_names_total :
    (groups : Groups) (specs : List Str)
    → (out : List Str) × (expand_middleware_names groups specs ≡ some (out, []))
unfolding expand_middleware_names
expand_middleware_names_total groups specs =
    expand_total (length groups) groups specs [] (unvisited-le-length groups)
