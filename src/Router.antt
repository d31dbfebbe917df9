-- ===== src/Router.antt =====
-- The router (include/telnetpp/detail/router.hpp) and the keys of its three uses
-- (detail/command_router.hpp, negotiation_router.hpp, subnegotiation_router.hpp). The hash map is
-- an association list with one entry for each key; `K` comes with its equality test.
pub mod Laws
pub mod Meaning
use telnetpp.Prelude.{
  ℕ, Bool, true, false, ◌≡◌, ◌↔◌, List, [], ◌∷◌, Option, none, some, or_else, if◌then◌else◌, ◌==◌,
  ==_iff,
}
use telnetpp.Element.{
  Command, Negotiation, Subnegotiation, negotiation_equal, negotiation_equal_iff,
}

-- `operator==` on keys.
pub record Key {ℓ} (K : Type ℓ) : Type ℓ where
  pub equal : K → K → Bool
  pub equal_iff : (a b : K) → (equal a b ≡ true) ↔ (a ≡ b)

instance abbrev pub byte_key : Key ℕ
byte_key = record { equal = ◌==◌; equal_iff = ==_iff }

instance abbrev pub negotiation_key : Key Negotiation
negotiation_key = record { equal = negotiation_equal; equal_iff = negotiation_equal_iff }

-- `F` is the type of the handlers.
pub record Router {ℓ κ} (K : Type ℓ) (F : Type κ) : Type (ℓ ⊔ κ) where
  pub registered_functions : List (K × F)
  pub unregistered_route : Option F

module _ {ℓ κ} {K : Type ℓ} {F : Type κ} where
  abbrev pub empty : Router K F
  empty = record { registered_functions = []; unregistered_route = none }

  unfoldable pub set_unregistered_route : F → Router K F → Router K F
  set_unregistered_route f r = record r { unregistered_route = some f }

module _ {ℓ κ} {K : Type ℓ} {F : Type κ} ⦃k : Key K⦄ where
  unfoldable pub find : K → List (K × F) → Option F
  find key [] = none
  find key ((j, f) ∷ m) = if k.equal j key then some f else find key m

  -- `map[key] = f`.
  unfoldable pub assign : K → F → List (K × F) → List (K × F)
  assign key f [] = (key, f) ∷ []
  assign key f ((j, g) ∷ m) = if k.equal j key then (j, f) ∷ m else (j, g) ∷ assign key f m

  unfoldable pub erase : K → List (K × F) → List (K × F)
  erase key [] = []
  erase key ((j, g) ∷ m) = if k.equal j key then m else (j, g) ∷ erase key m

  unfoldable pub register_route : K → F → Router K F → Router K F
  unfolding assign
  register_route key f r = record r { registered_functions = assign key f r.registered_functions }

  unfoldable pub unregister_route : K → Router K F → Router K F
  unfolding erase
  unregister_route key r = record r { registered_functions = erase key r.registered_functions }

  -- The handler that a message with this key goes to.
  unfoldable pub handler : Router K F → K → Option F
  unfolding find
  handler r key = or_else (find key r.registered_functions) r.unregistered_route

-- The end of `router::operator()` for handlers that change a state `W`: a message with no handler
-- changes nothing.
abbrev pub runs {κ ι} : {M : Type κ} {W : Type ι} → Option (M → W → W) → M → W → W
runs (some f) m = f m
runs none m = λ w. w

module _ {ℓ κ ι} {K : Type ℓ} {M : Type κ} {W : Type ι} ⦃k : Key K⦄ where
  unfoldable pub route : (M → K) → Router K (M → W → W) → M → W → W
  unfolding handler
  route key_from_message r message = runs (handler r (key_from_message message)) message

-- The three policies.
abbrev pub command_key_from_message : Command → ℕ
command_key_from_message cmd = cmd.value

abbrev pub negotiation_key_from_message : Negotiation → Negotiation
negotiation_key_from_message neg = neg

abbrev pub subnegotiation_key_from_message : Subnegotiation → ℕ
subnegotiation_key_from_message sub = sub.option
