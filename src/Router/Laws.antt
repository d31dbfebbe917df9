-- ===== src/Router/Laws.antt =====
-- The router as a finite map from keys to handlers.
use telnetpp.Prelude.{
  true, false, ◌≡◌, refl, ap, ◌∙◌, List, [], ◌∷◌, Option, none, some, or_else, if◌then◌else◌, arith,
}
use telnetpp.Router.{
  Key, Router, empty, find, assign, erase, register_route, unregister_route, set_unregistered_route,
  handler,
}

-- The calls that change a router.
pub data Change {ℓ κ} (K : Type ℓ) (F : Type κ) : Type (ℓ ⊔ κ) where
  registers : K → F → Change K F
  unregisters : K → Change K F
  sets_unregistered : F → Change K F

module _ {ℓ κ} {K : Type ℓ} {F : Type κ} ⦃k : Key K⦄ where
  -- No key has two entries.
  abbrev Absent : K → List (K × F) → Type ℓ
  Absent key [] = Unit
  Absent key ((j, f) ∷ m) = (k.equal j key ≡ false) × Absent key m

  abbrev pub IsMap : List (K × F) → Type ℓ
  IsMap [] = Unit
  IsMap ((j, f) ∷ m) = Absent j m × IsMap m

  pub find-assign :
      (a b : K) (f : F) (m : List (K × F))
      → find b (assign a f m) ≡ (if k.equal a b then some f else find b m)
  unfolding find assign
  find-assign a b f [] = refl
  find-assign a b f ((j, g) ∷ m) =
      ground (arith, k.equal_iff j a, k.equal_iff j b, k.equal_iff a b, find-assign a b f m)

  find-Absent : (a b : K) (m : List (K × F)) → Absent a m → k.equal a b ≡ true → find b m ≡ none
  unfolding find
  find-Absent a b [] h e = refl
  find-Absent a b ((j, g) ∷ m) h e =
      ground (arith, k.equal_iff j a, k.equal_iff j b, k.equal_iff a b, find-Absent a b m h.1)

  pub find-erase :
      (a b : K) (m : List (K × F))
      → IsMap m
      → find b (erase a m) ≡ (if k.equal a b then none else find b m)
  unfolding find erase
  find-erase a b [] h = ground arith
  find-erase a b ((j, g) ∷ m) h = ground (
    arith,
    k.equal_iff j a,
    k.equal_iff j b,
    k.equal_iff a b,
    find-erase a b m h.1,
    find-Absent j b m h.0,
  )

  assign-Absent :
      (a b : K) (f : F) (m : List (K × F))
      → Absent b m
      → k.equal a b ≡ false
      → Absent b (assign a f m)
  unfolding assign
  assign-Absent a b f [] h e = ground arith
  assign-Absent a b f ((j, g) ∷ m) h e = ground (arith, assign-Absent a b f m h.1)

  erase-Absent : (a b : K) (m : List (K × F)) → Absent b m → Absent b (erase a m)
  unfolding erase
  erase-Absent a b [] h = tt
  erase-Absent a b ((j, g) ∷ m) h = ground (arith, erase-Absent a b m h.1)

  assign-IsMap : (a : K) (f : F) (m : List (K × F)) → IsMap m → IsMap (assign a f m)
  unfolding assign
  assign-IsMap a f [] h = (tt, tt)
  assign-IsMap a f ((j, g) ∷ m) h =
      ground
        (arith, assign-IsMap a f m h.1, assign-Absent a j f m h.0, k.equal_iff a j, k.equal_iff j a)

  erase-IsMap : (a : K) (m : List (K × F)) → IsMap m → IsMap (erase a m)
  unfolding erase
  erase-IsMap a [] h = tt
  erase-IsMap a ((j, g) ∷ m) h = ground (arith, erase-IsMap a m h.1, erase-Absent a j m h.0)

  unfoldable pub change : Change K F → Router K F → Router K F
  unfolding register_route unregister_route set_unregistered_route
  change (registers key f) r = register_route key f r
  change (unregisters key) r = unregister_route key r
  change (sets_unregistered f) r = set_unregistered_route f r

  -- A router after a history of calls, the latest call first.
  unfoldable pub changed : List (Change K F) → Router K F
  unfolding change
  changed [] = empty
  changed (c ∷ older) = change c (changed older)

  -- The latest handler registered for a key and not unregistered since, and the latest default.
  abbrev pub latest : List (Change K F) → K → Option F
  latest [] key = none
  latest (registers j f ∷ older) key = if k.equal j key then some f else latest older key
  latest (unregisters j ∷ older) key = if k.equal j key then none else latest older key
  latest (sets_unregistered f ∷ older) key = latest older key

  abbrev pub latest_default : List (Change K F) → Option F
  latest_default [] = none
  latest_default (registers j f ∷ older) = latest_default older
  latest_default (unregisters j ∷ older) = latest_default older
  latest_default (sets_unregistered f ∷ older) = some f

  changed-IsMap : (cs : List (Change K F)) → IsMap (changed cs).registered_functions
  unfolding changed
  changed-IsMap [] = tt
  changed-IsMap (registers j f ∷ cs) = assign-IsMap j f _ (changed-IsMap cs)
  changed-IsMap (unregisters j ∷ cs) = erase-IsMap j _ (changed-IsMap cs)
  changed-IsMap (sets_unregistered f ∷ cs) = changed-IsMap cs

  find-changed :
      (cs : List (Change K F)) (key : K)
      → find key (changed cs).registered_functions ≡ latest cs key
  unfolding changed
  find-changed [] key = unfold find in refl
  find-changed (registers j f ∷ cs) key =
      find-assign j key f (changed cs).registered_functions
      ∙ ap (λ z. if k.equal j key then some f else z) (find-changed cs key)
  find-changed (unregisters j ∷ cs) key =
      find-erase j key (changed cs).registered_functions (changed-IsMap cs)
      ∙ ap (λ z. if k.equal j key then none else z) (find-changed cs key)
  find-changed (sets_unregistered f ∷ cs) key = find-changed cs key

  unregistered_route-changed :
      (cs : List (Change K F)) → (changed cs).unregistered_route ≡ latest_default cs
  unfolding changed
  unregistered_route-changed [] = refl
  unregistered_route-changed (registers j f ∷ cs) = unregistered_route-changed cs
  unregistered_route-changed (unregisters j ∷ cs) = unregistered_route-changed cs
  unregistered_route-changed (sets_unregistered f ∷ cs) = refl

  -- After any history of calls on a new router, a message goes to the handler registered last for
  -- its key and not unregistered since, and where there is none to the default set last, if any.
  pub handler-changed :
      (cs : List (Change K F)) (key : K)
      → handler (changed cs) key ≡ or_else (latest cs key) (latest_default cs)
  unfolding handler
  handler-changed cs key = rw (find-changed cs key, unregistered_route-changed cs)
