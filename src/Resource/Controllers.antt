-- ===== src/Resource/Controllers.antt =====
-- app/Http/Controllers/Controller.go: the middleware that a controller declares, and what
-- app/Http/Resource.go finds out about a controller by reflection, as a record.
use golite.Base.{Bool, true, false, not, Option, List, [], ◌∷◌, if◌then◌else◌, Str, has}

-- MiddlewareRule of a controller.
pub record MiddlewareRule : Type 0 where
  pub name : Str
  pub only_actions : List Str
  pub except_actions : List Str

-- The test len(list) > 0.
abbrev pub is_given : List Str → Bool
is_given [] = false
is_given (a ∷ actions) = true

unfoldable pub applies_to : MiddlewareRule → Str → Bool
applies_to r name =
    if is_given r.only_actions
    then has r.only_actions name
    else (if is_given r.except_actions then not (has r.except_actions name) else true)

unfoldable pub middleware_for_action : List MiddlewareRule → Str → List Str
unfolding applies_to
middleware_for_action [] name = []
middleware_for_action (r ∷ rules) name =
    let rest = middleware_for_action rules name in if applies_to r name then r.name ∷ rest else rest

-- `handler_of` is methodHandler; `declares` is MiddlewareForAction of a controller that has it.
pub record Controller (H : Type 0) : Type 0 where
  pub handler_of : Str → Option H
  pub declares : Option (Str → List Str)
