-- ===== src/Middleware/Expand.antt =====
-- app/Http/Kernel.go: expandMiddlewareNames, which replaces group names by their members. The Go
-- function recurs without a bound; here it has fuel, and a theorem that the number of groups is
-- enough. `visiting` is the map that the calls share and change.
pub mod Fuel
pub mod Clean
use golite.Base.{
  ℕ, zero, suc, ◌+◌, ◌≤◌, ◌<◌, Bool, true, false, not, ◌&&◌, ◌||◌, Option, none, some, List, [],
  ◌∷◌, ◌++◌, map, ◌≡◌, ◌≢◌, ◌⊎◌, inl, inr, refl, ap, arith, if◌then◌else◌, ◌>>=◌, >>=-eq-some,
  Bool-cases, Option-cases, length, keep, All, All-append, Str, ◌==◌, eq_iff, eq_refl, Map, lookup,
  has, add, remove, has-add,
}
use golite.Middleware.Spec.{base_name}

abbrev pub Groups : Type 0
Groups = Map (List Str)

-- The group that a spec names, unless it is being expanded already.
abbrev group_at : Str → Bool → Option (List Str) → Option (Str × List Str)
group_at base visited none = none
group_at base true (some members) = none
group_at base false (some members) = some (base, members)

unfoldable pub group_of : Groups → List Str → Str → Option (Str × List Str)
group_of groups visiting spec =
    group_at (base_name spec) (has visiting (base_name spec)) (lookup (base_name spec) groups)

abbrev prepend : List Str → List Str × List Str → Option (List Str × List Str)
prepend out (rest, visiting) = some (out ++ rest, visiting)

-- `none` means that the fuel ran out.
unfoldable pub expand : ℕ → Groups → List Str → List Str → Option (List Str × List Str)
expand fuel groups [] visiting = some ([], visiting)
expand zero groups (spec ∷ specs) visiting = elim (group_of groups visiting spec) [
  | none ↦ expand zero groups specs visiting >>= prepend (spec ∷ [])
  | some g ↦ none
]
expand (suc fuel) groups (spec ∷ specs) visiting = elim (group_of groups visiting spec) [
  | none ↦ expand (suc fuel) groups specs visiting >>= prepend (spec ∷ [])
  | some (base, members) ↦ expand fuel groups members (add base visiting) >>= λ r.
      expand (suc fuel) groups specs (remove base r.1) >>= prepend r.0
]

unfoldable pub expand_middleware_names : Groups → List Str → Option (List Str × List Str)
unfolding expand group_of
expand_middleware_names groups specs = expand (length groups) groups specs []
