-- ===== src/Resource/Registered.antt =====
-- What register leaves in the route table, for all actions.
use golite.Base.{
  ℕ, suc, Option, some, List, [], ◌∷◌, ◌++◌, append-nil, append_assoc, map, ◌≡◌, refl, sym, ap, ◌∙◌,
  arith, ◌>>=◌, >>=-eq-some, length, length-append, Str, str,
}
use golite.Routing.Uri.{normalize_methods}
use golite.Routing.Pattern.{Matcher}
use golite.Routing.Route.{Route}
use golite.Routing.Table.{Kernel}
use golite.Resource.{ResourceAction}
use golite.Resource.Controllers.{Controller}
use golite.Resource.Register.{register_action, register_all}
use golite.Resource.OneRoute.{Card, card, full_uri, register_action-Adds}

-- The pointers of `xs`, from `n` on.
abbrev pub count_from {ℓ} : {A : Type ℓ} → ℕ → List A → List ℕ
count_from n [] = []
count_from n (x ∷ xs) = n ∷ count_from (suc n) xs

abbrev pub card_of :
    {H : Type 0} → Str → Str → (ResourceAction → Str) → Str → ResourceAction × H → Card H
card_of prefix name_prefix uri_of name e = record {
  methods = normalize_methods e.0.methods;
  uri = full_uri prefix (uri_of e.0);
  name = name_prefix ++ (name ++ (str "." ++ e.0.name));
  handler = e.1;
}

module _ {H M : Type 0} (regex : Str → Option Matcher) where
  -- `k'` is `k` with one route for each card, at the end of the store and of the table.
  pub record Grows (k k' : Kernel H M) (ps : List ℕ) (cards : List (Card H)) : Type 0 where
    pub new : List (Route H M)
    pub store : k'.store ≡ k.store ++ new
    pub routes : k'.routes ≡ k.routes ++ ps
    pub pointers : ps ≡ count_from (length k.store) cards
    pub cards_are : map card new ≡ cards

  pub register_all-Grows :
      (c : Controller H) (prefix name_prefix : Str) (middleware : List Str)
      (uri_of : ResourceAction → Str) (name : Str) (es : List (ResourceAction × H))
      (k k' : Kernel H M) (ps : List ℕ)
      → register_all regex c prefix name_prefix middleware uri_of name es k ≡ some (k', ps)
      → Grows k k' ps (map (card_of prefix name_prefix uri_of name) es)
  unfolding register_all
  register_all-Grows c prefix name_prefix middleware uri_of name [] k k' ps h =
      let before : Kernel H M × List ℕ = (k, []) in
      let done : before ≡ (k', ps) = cc in
      record {
        new = [];
        store = sym (ap (λ d. d.0.store) done) ∙ sym (append-nil k.store);
        routes =
            sym (ap (λ d. d.0.routes) done)
            ∙ sym (append-nil k.routes)
            ∙ ap (λ d. k.routes ++ d.1) done;
        pointers = sym (ap (λ d. d.1) done);
        cards_are = refl;
      }
  register_all-Grows c prefix name_prefix middleware uri_of name ((a, f) ∷ es) k k' ps h =
      let full = name ++ (str "." ++ a.name) in
      let (made, b, g) =
        >>=-eq-some (register_action regex c prefix name_prefix middleware (uri_of a) full (a, f) k)
          (λ made.
            register_all regex c prefix name_prefix middleware uri_of name es made.0 >>= λ others.
            some (others.0, made.1 ∷ others.1))
          h in
      let (others, b2, g2) =
        >>=-eq-some (register_all regex c prefix name_prefix middleware uri_of name es made.0)
          (λ others. some (others.0, made.1 ∷ others.1)) g in
      let (r, pointer, store, routes, same) =
        register_action-Adds regex c prefix name_prefix middleware (uri_of a) full a f k made.0
          made.1 b in
      let rest =
        register_all-Grows c prefix name_prefix middleware uri_of name es made.0 others.0 others.1
          b2 in
      let after : Kernel H M × List ℕ = (others.0, made.1 ∷ others.1) in
      let done : after ≡ (k', ps) = cc in
      let longer : length made.0.store ≡ suc (length k.store) =
        rw (store, length-append k.store (r ∷ [])) (omega arith) in
      record {
        new = r ∷ rest.new;
        store =
            sym (ap (λ d. d.0.store) done)
            ∙ rest.store
            ∙ ap (λ st. st ++ rest.new) store
            ∙ append_assoc k.store (r ∷ []) rest.new;
        routes =
            sym (ap (λ d. d.0.routes) done)
            ∙ rest.routes
            ∙ ap (λ q. q ++ others.1) routes
            ∙ append_assoc k.routes (made.1 ∷ []) others.1
            ∙ ap (λ d. k.routes ++ d.1) done;
        pointers = sym (ap (λ d. d.1) done) ∙ rw (pointer, rest.pointers, longer) refl;
        cards_are = rw (same, rest.cards_are) refl;
      }
