-- ===== src/Resource/Restricted.antt =====
-- What a chain of Only, Except and Shallow makes of a registrar of app/Http/Resource.go.
use golite.Base.{
  ℕ, Bool, true, false, not, Option, some, List, [], ◌∷◌, ◌≡◌, refl, ap, ◌∙◌, arith, >>=-eq-some,
  keep, keep-ext, Str, has,
}
use golite.Routing.Pattern.{Matcher}
use golite.Routing.Table.{Kernel, remove_routes}
use golite.Resource.{ResourceAction, Registrar, allowed_actions, action_uri, is_allowed}
use golite.Resource.Controllers.{Controller}
use golite.Resource.Register.{
  handled, register_all, register, only, except, shallow, Refines, only_these, except_these,
  shallowly, refine, refine_all,
}

-- Which actions a chain leaves: all, those of a list that is not empty, or those not in a list.
pub data Restriction : Type 0 where
  unrestricted : Restriction
  only_named except_named : List Str → Restriction

abbrev pub keeps : Restriction → Str → Bool
keeps unrestricted name = true
keeps (only_named []) name = true
keeps (only_named (n ∷ names)) name = has (n ∷ names) name
keeps (except_named names) name = not (has names name)

-- The last Only or Except of a chain decides.
abbrev pub last_restriction : Restriction → List Refines → Restriction
last_restriction q [] = q
last_restriction q (only_these names ∷ fs) = last_restriction (only_named names) fs
last_restriction q (except_these names ∷ fs) = last_restriction (except_named names) fs
last_restriction q (shallowly ∷ fs) = last_restriction q fs

abbrev pub calls_shallow : List Refines → Bool
calls_shallow [] = false
calls_shallow (only_these names ∷ fs) = calls_shallow fs
calls_shallow (except_these names ∷ fs) = calls_shallow fs
calls_shallow (shallowly ∷ fs) = true

abbrev pub shallow_after : Bool → List Refines → Bool
shallow_after b [] = b
shallow_after b (only_these names ∷ fs) = shallow_after b fs
shallow_after b (except_these names ∷ fs) = shallow_after b fs
shallow_after b (shallowly ∷ fs) = shallow_after true fs

shallow_after-true : (fs : List Refines) → shallow_after true fs ≡ true
shallow_after-true [] = refl
shallow_after-true (only_these names ∷ fs) = shallow_after-true fs
shallow_after-true (except_these names ∷ fs) = shallow_after-true fs
shallow_after-true (shallowly ∷ fs) = shallow_after-true fs

pub shallow_after_lem : (fs : List Refines) → shallow_after false fs ≡ calls_shallow fs
shallow_after_lem [] = refl
shallow_after_lem (only_these names ∷ fs) = shallow_after_lem fs
shallow_after_lem (except_these names ∷ fs) = shallow_after_lem fs
shallow_after_lem (shallowly ∷ fs) = shallow_after-true fs

module _ {H : Type 0} where
  -- A new registrar before it registers anything.
  abbrev pub new_of : Str → Controller H → List ResourceAction → Str → Str → List Str → Registrar H
  new_of name c table prefix name_prefix middleware = record {
    name = name;
    controller = c;
    prefix = prefix;
    name_prefix = name_prefix;
    middleware = middleware;
    table = table;
    only = [];
    except = [];
    shallow = false;
    routes = [];
  }

  -- The registrar with the fields that stand for a restriction.
  abbrev pub shaped : Registrar H → Restriction → Bool → List ℕ → Registrar H
  shaped r unrestricted b ps = record r { only = []; except = []; shallow = b; routes = ps }
  shaped r (only_named names) b ps = record r {
    only = names;
    except = [];
    shallow = b;
    routes = ps;
  }
  shaped r (except_named names) b ps = record r {
    only = [];
    except = names;
    shallow = b;
    routes = ps;
  }

  pub shaped-shallow :
      (r : Registrar H) (q : Restriction) (b : Bool) (ps : List ℕ) → (shaped r q b ps).shallow ≡ b
  shaped-shallow r unrestricted b ps = refl
  shaped-shallow r (only_named names) b ps = refl
  shaped-shallow r (except_named names) b ps = refl

  pub shaped-name :
      (r : Registrar H) (q : Restriction) (b : Bool) (ps : List ℕ) → (shaped r q b ps).name ≡ r.name
  shaped-name r unrestricted b ps = refl
  shaped-name r (only_named names) b ps = refl
  shaped-name r (except_named names) b ps = refl

  pub shaped-prefix :
      (r : Registrar H) (q : Restriction) (b : Bool) (ps : List ℕ)
      → (shaped r q b ps).prefix ≡ r.prefix
  shaped-prefix r unrestricted b ps = refl
  shaped-prefix r (only_named names) b ps = refl
  shaped-prefix r (except_named names) b ps = refl

  pub shaped-name_prefix :
      (r : Registrar H) (q : Restriction) (b : Bool) (ps : List ℕ)
      → (shaped r q b ps).name_prefix ≡ r.name_prefix
  shaped-name_prefix r unrestricted b ps = refl
  shaped-name_prefix r (only_named names) b ps = refl
  shaped-name_prefix r (except_named names) b ps = refl

  pub shaped-handled :
      (r : Registrar H) (q : Restriction) (b : Bool) (ps : List ℕ)
      → handled (shaped r q b ps).controller (allowed_actions (shaped r q b ps))
        ≡ handled r.controller (keep (λ a. keeps q a.name) r.table)
  unfolding allowed_actions is_allowed has
  shaped-handled r unrestricted b ps = ap (handled r.controller) (
      keep-ext {p = is_allowed [] []} {q = λ a. keeps unrestricted a.name} (λ a. ground arith)
        r.table)
  shaped-handled r (only_named []) b ps = ap (handled r.controller) (
      keep-ext {p = is_allowed [] []} {q = λ a. keeps (only_named []) a.name} (λ a. ground arith)
        r.table)
  shaped-handled r (only_named (n ∷ names)) b ps = ap (handled r.controller) (
      keep-ext {p = is_allowed (n ∷ names) []} {q = λ a. keeps (only_named (n ∷ names)) a.name}
        (λ a. ground arith) r.table)
  shaped-handled r (except_named []) b ps = ap (handled r.controller) (
      keep-ext {p = is_allowed [] []} {q = λ a. keeps (except_named []) a.name} (λ a. refl) r.table)
  shaped-handled r (except_named (n ∷ names)) b ps = ap (handled r.controller) (
      keep-ext {p = is_allowed [] (n ∷ names)} {q = λ a. keeps (except_named (n ∷ names)) a.name}
        (λ a. ground arith) r.table)

  reshaped :
      (first : Registrar H) (q : Restriction) (b : Bool) (r : Registrar H) (ps : List ℕ)
      → r ≡ shaped first q b r.routes
      → record r { routes = ps } ≡ shaped first q b ps
  reshaped first q b r ps e =
      ap {A = Registrar H} {B = Registrar H} (λ s. record s { routes = ps }) e ∙ again q
    where
      again :
          (q : Restriction)
          → record (shaped first q b r.routes) { routes = ps } ≡ shaped first q b ps
      again unrestricted = refl
      again (only_named names) = refl
      again (except_named names) = refl

  only-shaped :
      (first : Registrar H) (q : Restriction) (b : Bool) (r : Registrar H) (names : List Str)
      → r ≡ shaped first q b r.routes
      → record r { only = names; except = [] } ≡ shaped first (only_named names) b r.routes
  only-shaped first q b r names e =
      ap {A = Registrar H} {B = Registrar H} (λ s. record s { only = names; except = [] }) e
      ∙ again q
    where
      again :
          (q : Restriction)
          → record (shaped first q b r.routes) { only = names; except = [] }
            ≡ shaped first (only_named names) b r.routes
      again unrestricted = refl
      again (only_named names) = refl
      again (except_named names) = refl

  except-shaped :
      (first : Registrar H) (q : Restriction) (b : Bool) (r : Registrar H) (names : List Str)
      → r ≡ shaped first q b r.routes
      → record r { except = names; only = [] } ≡ shaped first (except_named names) b r.routes
  except-shaped first q b r names e =
      ap {A = Registrar H} {B = Registrar H} (λ s. record s { except = names; only = [] }) e
      ∙ again q
    where
      again :
          (q : Restriction)
          → record (shaped first q b r.routes) { except = names; only = [] }
            ≡ shaped first (except_named names) b r.routes
      again unrestricted = refl
      again (only_named names) = refl
      again (except_named names) = refl

  shallow-shaped :
      (first : Registrar H) (q : Restriction) (b : Bool) (r : Registrar H)
      → r ≡ shaped first q b r.routes
      → record r { shallow = true } ≡ shaped first q true r.routes
  shallow-shaped first q b r e =
      ap {A = Registrar H} {B = Registrar H} (λ s. record s { shallow = true }) e ∙ again q
    where
      again :
          (q : Restriction)
          → record (shaped first q b r.routes) { shallow = true } ≡ shaped first q true r.routes
      again unrestricted = refl
      again (only_named names) = refl
      again (except_named names) = refl

module _ {H M : Type 0} (regex : Str → Option Matcher) (first : Registrar H) where
  pub register-shaped :
      (q : Restriction) (b : Bool) (k k' : Kernel H M) (r r' : Registrar H)
      → r ≡ shaped first q b r.routes
      → register regex r k ≡ some (k', r')
      → r' ≡ shaped first q b r'.routes
  unfolding register
  register-shaped q b k k' r r' e h =
      let (made, a, g) =
        >>=-eq-some
          (register_all regex r.controller r.prefix r.name_prefix r.middleware (action_uri r) r.name
            (handled r.controller (allowed_actions r)) (remove_routes r.routes k))
          (λ made. some (made.0, record r { routes = made.1 })) h in
      let after : Kernel H M × Registrar H = (made.0, record r { routes = made.1 }) in
      let done : after ≡ (k', r') = cc in
      let is : record r { routes = made.1 } ≡ r' = ap (λ d. d.1) done in
      rw (← is) (reshaped first q b r made.1 e)

  pub refine_all-shaped :
      (fs : List Refines) (k k' : Kernel H M) (r r' : Registrar H) (q : Restriction) (b : Bool)
      → r ≡ shaped first q b r.routes
      → refine_all regex fs r k ≡ some (k', r')
      → r' ≡ shaped first (last_restriction q fs) (shallow_after b fs) r'.routes
  unfolding refine_all only except shallow
  refine_all-shaped [] k k' r r' q b e h =
      let before : Kernel H M × Registrar H = (k, r) in
      let done : before ≡ (k', r') = cc in let is : r ≡ r' = ap (λ d. d.1) done in rw (← is) e
  refine_all-shaped (only_these names ∷ fs) k k' r r' q b e h =
      let (made, a, g) =
        >>=-eq-some (refine regex (only_these names) r k)
          (λ made. refine_all regex fs made.1 made.0) h in
      refine_all-shaped fs made.0 k' made.1 r' (only_named names) b
        (register-shaped (only_named names) b k made.0 (record r { only = names; except = [] })
          made.1 (only-shaped first q b r names e) a)
        g
  refine_all-shaped (except_these names ∷ fs) k k' r r' q b e h =
      let (made, a, g) =
        >>=-eq-some (refine regex (except_these names) r k)
          (λ made. refine_all regex fs made.1 made.0) h in
      refine_all-shaped fs made.0 k' made.1 r' (except_named names) b
        (register-shaped (except_named names) b k made.0 (record r { except = names; only = [] })
          made.1 (except-shaped first q b r names e) a)
        g
  refine_all-shaped (shallowly ∷ fs) k k' r r' q b e h =
      let (made, a, g) =
        >>=-eq-some (refine regex shallowly r k) (λ made. refine_all regex fs made.1 made.0) h in
      refine_all-shaped fs made.0 k' made.1 r' q true
        (register-shaped q true k made.0 (record r { shallow = true }) made.1
          (shallow-shaped first q b r e) a)
        g
