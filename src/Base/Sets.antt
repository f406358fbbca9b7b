-- ===== src/Base/Sets.antt =====
-- Go's map[string]bool, where every value is true: a set of strings.
use mathlib.Core.Path.{◌≡◌, refl}
use mathlib.Core.Bool.{Bool, false, ◌||◌, ◌&&◌, not}
use mathlib.Core.List.{List, [], ◌∷◌, ◌++◌}
use native.Mathlib.Omega.{arith}
use golite.Base.Tests.{if◌then◌else◌}
use golite.Base.Text.{Str, ◌==◌, eq_iff}

unfoldable pub has : List Str → Str → Bool
has [] k = false
has (j ∷ s) k = (j == k) || has s k

unfoldable pub add : Str → List Str → List Str
add k s = if has s k then s else k ∷ s

unfoldable pub remove : Str → List Str → List Str
remove k [] = []
remove k (j ∷ s) = let rest = remove k s in if j == k then rest else j ∷ rest

pub has-add : (k j : Str) (s : List Str) → has (add k s) j ≡ ((k == j) || has s j)
unfolding add has
has-add k j s = ground (arith, eq_iff k j)

pub has-remove : (k j : Str) (s : List Str) → has (remove k s) j ≡ (not (k == j) && has s j)
unfolding remove has
has-remove k j [] = ground arith
has-remove k j (i ∷ s) = ground (arith, eq_iff k j, eq_iff i k, eq_iff i j, has-remove k j s)

pub has-append : (k : Str) (s t : List Str) → has (s ++ t) k ≡ (has s k || has t k)
unfolding has
has-append k [] t = refl
has-append k (j ∷ s) t = ground (arith, has-append k s t)

abbrev pub add_all : List Str → List Str → List Str
add_all [] s = s
add_all (k ∷ ks) s = add_all ks (add k s)
