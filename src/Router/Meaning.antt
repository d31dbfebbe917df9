-- ===== src/Router/Meaning.antt =====
-- The router (include/telnetpp/detail/router.hpp) that holds names of handlers, beside the one that
-- holds what they mean.
use telnetpp.Prelude.{◌≡◌, refl, ap, ◌∙◌, List, [], ◌∷◌, Option, none, some, or_else, arith}
use telnetpp.Router.{Key, Router, find, assign, handler, register_route}

abbrev pub means_one {ℓ κ} : {F : Type ℓ} {G : Type κ} → (F → G) → Option F → Option G
means_one means none = none
means_one means (some f) = some (means f)

means_one-or_else {ℓ κ} :
    {F : Type ℓ} {G : Type κ} (means : F → G) (x y : Option F)
    → or_else (means_one means x) (means_one means y) ≡ means_one means (or_else x y)
means_one-or_else means none y = refl
means_one-or_else means (some f) y = refl

-- A router of names, and the router of what they mean.
module _ {ℓ κ ι} {K : Type ℓ} {F : Type κ} {G : Type ι} (means : F → G) where
  abbrev pub means_all : List (K × F) → List (K × G)
  means_all [] = []
  means_all ((j, f) ∷ m) = (j, means f) ∷ means_all m

  abbrev pub meaning : Router K F → Router K G
  meaning r = record {
    registered_functions = means_all r.registered_functions;
    unregistered_route = means_one means r.unregistered_route;
  }

  module _ ⦃k : Key K⦄ where
    find-meaning :
        (key : K) (m : List (K × F)) → find key (means_all m) ≡ means_one means (find key m)
    unfolding find
    find-meaning key [] = refl
    find-meaning key ((j, f) ∷ m) = ground (arith, find-meaning key m)

    assign-meaning :
        (key : K) (f : F) (m : List (K × F))
        → assign key (means f) (means_all m) ≡ means_all (assign key f m)
    unfolding assign
    assign-meaning key f [] = refl
    assign-meaning key f ((j, g) ∷ m) = ground (arith, assign-meaning key f m)

    pub register_route-meaning :
        (key : K) (f : F) (r : Router K F)
        → register_route key (means f) (meaning r) ≡ meaning (register_route key f r)
    unfolding register_route
    register_route-meaning key f r =
        ap
          (λ m. record {
            registered_functions = m;
            unregistered_route = means_one means r.unregistered_route;
          })
          (assign-meaning key f r.registered_functions)

    pub handler-meaning :
        (key : K) (r : Router K F) → handler (meaning r) key ≡ means_one means (handler r key)
    unfolding handler
    handler-meaning key r =
        ap (λ x. or_else x (means_one means r.unregistered_route))
          (find-meaning key r.registered_functions)
        ∙ means_one-or_else means (find key r.registered_functions) r.unregistered_route
