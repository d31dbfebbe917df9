-- ===== src/TelnetOption/Negotiation/Configurations.antt =====
-- The configurations of the two sides of one option (include/telnetpp/option.hpp).
use telnetpp.Prelude.{ℕ, ◌+◌, ◌-◌, ◌≤◌, ◌<◌, ◌≡◌, refl, ◌⊎◌, List, [], ◌∷◌, length, arith}
use telnetpp.Core.{will, wont, do_, dont}
use telnetpp.TelnetOption.{
  InternalState, inactive, activating, active, deactivating, activate, deactivate, negotiate,
}
use telnetpp.TelnetOption.Negotiation.{
  Pair, at_server, at_client, server_option, client_option, Delivers, at_server_side,
  at_client_side, Step, server_activates, server_deactivates, client_activates, client_deactivates,
  delivers, Reachable, here, next,
}

-- The configurations that occur: for each pair of states what is on the way to the client and to
-- the server.
abbrev pub Expected : InternalState → InternalState → List ℕ → List ℕ → Type 0
Expected inactive inactive a b = (a ≡ []) × (b ≡ [])
Expected inactive activating a b = (a ≡ []) × (b ≡ do_ ∷ [])
Expected inactive active a b = ⊥
Expected inactive deactivating a b = (a ≡ wont ∷ []) × (b ≡ [])
Expected activating inactive a b = (a ≡ will ∷ []) × (b ≡ [])
Expected activating activating a b = (a ≡ will ∷ []) × (b ≡ do_ ∷ [])
Expected activating active a b = (a ≡ []) × (b ≡ do_ ∷ [])
Expected activating deactivating a b =
    ((a ≡ []) × (b ≡ do_ ∷ dont ∷ [])) ⊎ ((a ≡ wont ∷ will ∷ []) × (b ≡ []))
Expected active inactive a b = ⊥
Expected active activating a b = (a ≡ will ∷ []) × (b ≡ [])
Expected active active a b = (a ≡ []) × (b ≡ [])
Expected active deactivating a b = (a ≡ []) × (b ≡ dont ∷ [])
Expected deactivating inactive a b = (a ≡ []) × (b ≡ dont ∷ [])
Expected deactivating activating a b =
    ((a ≡ []) × (b ≡ dont ∷ do_ ∷ [])) ⊎ ((a ≡ will ∷ wont ∷ []) × (b ≡ []))
Expected deactivating active a b = (a ≡ wont ∷ []) × (b ≡ [])
Expected deactivating deactivating a b = (a ≡ wont ∷ []) × (b ≡ dont ∷ [])

abbrev pub IsExpected : Pair → Type 0
IsExpected x = Expected x.server x.client x.to_client x.to_server

pub Expected-in_flight :
    (s c : InternalState) (a b : List ℕ) → Expected s c a b → length a + length b ≤ 2
Expected-in_flight inactive inactive a b h = ground arith
Expected-in_flight _ _ a b h = ground arith

-- The requests that a side will still write, if only arrivals happen: it answers each that arrives
-- but the one that answers its own.
abbrev answers : InternalState → List ℕ → ℕ
answers inactive a = length a
answers activating a = length a - 1
answers active a = length a
answers deactivating a = length a - 1

-- How many arrivals there can still be.
abbrev pub cost : Pair → ℕ
cost x =
    length x.to_client
    + length x.to_server
    + answers x.client x.to_client
    + answers x.server x.to_server

pub Expected-cost :
    (s c : InternalState) (a b : List ℕ)
    → Expected s c a b
    → cost (record { server = s; client = c; to_client = a; to_server = b }) ≤ 3
Expected-cost inactive inactive a b h = ground arith
Expected-cost _ _ a b h = ground arith

-- Nothing is on its way.
abbrev pub IsQuiet : Pair → Type 0
IsQuiet x = (x.to_client ≡ []) × (x.to_server ≡ [])

-- Neither side is waiting, and both are active or neither is.
abbrev pub Agrees : Pair → Type 0
Agrees x =
    ((x.server ≡ active) × (x.client ≡ active)) ⊎ ((x.server ≡ inactive) × (x.client ≡ inactive))

pub Expected-Agrees :
    (s c : InternalState) (a b : List ℕ)
    → Expected s c a b
    → a ≡ []
    → b ≡ []
    → Agrees (record { server = s; client = c; to_client = a; to_server = b })
Expected-Agrees inactive inactive a b h e f = ground arith
Expected-Agrees _ _ a b h e f = ground arith

module _ (code : ℕ) where
  server-activate :
      (s c : InternalState) (a b : List ℕ)
      → Expected s c a b
      → IsExpected (
          at_server
            (activate (server_option code))
            (record { server = s; client = c; to_client = a; to_server = b }))
  unfolding activate
  server-activate inactive inactive a b h = ground arith
  server-activate _ _ a b h = ground arith

  server-deactivate :
      (s c : InternalState) (a b : List ℕ)
      → Expected s c a b
      → IsExpected (
          at_server
            (deactivate (server_option code))
            (record { server = s; client = c; to_client = a; to_server = b }))
  unfolding deactivate
  server-deactivate inactive inactive a b h = ground arith
  server-deactivate _ _ a b h = ground arith

  client-activate :
      (s c : InternalState) (a b : List ℕ)
      → Expected s c a b
      → IsExpected (
          at_client
            (activate (client_option code))
            (record { server = s; client = c; to_client = a; to_server = b }))
  unfolding activate
  client-activate inactive inactive a b h = ground arith
  client-activate _ _ a b h = ground arith

  client-deactivate :
      (s c : InternalState) (a b : List ℕ)
      → Expected s c a b
      → IsExpected (
          at_client
            (deactivate (client_option code))
            (record { server = s; client = c; to_client = a; to_server = b }))
  unfolding deactivate
  client-deactivate inactive inactive a b h = ground arith
  client-deactivate _ _ a b h = ground arith

  server-negotiate :
      (s c : InternalState) (neg : ℕ) (a b : List ℕ)
      → Expected s c a (neg ∷ b)
      → IsExpected (
          at_server
            (negotiate (server_option code) neg)
            (record { server = s; client = c; to_client = a; to_server = b }))
  unfolding negotiate
  server-negotiate inactive inactive neg a b h = ground arith
  server-negotiate _ _ neg a b h = ground arith

  client-negotiate :
      (s c : InternalState) (neg : ℕ) (a b : List ℕ)
      → Expected s c (neg ∷ a) b
      → IsExpected (
          at_client
            (negotiate (client_option code) neg)
            (record { server = s; client = c; to_client = a; to_server = b }))
  unfolding negotiate
  client-negotiate inactive inactive neg a b h = ground arith
  client-negotiate _ _ neg a b h = ground arith

  server-negotiate-cost :
      (s c : InternalState) (neg : ℕ) (a b : List ℕ)
      → Expected s c a (neg ∷ b)
      → cost (
          at_server
            (negotiate (server_option code) neg)
            (record { server = s; client = c; to_client = a; to_server = b }))
        < cost (record { server = s; client = c; to_client = a; to_server = neg ∷ b })
  unfolding negotiate
  server-negotiate-cost inactive inactive neg a b h = ground arith
  server-negotiate-cost _ _ neg a b h = ground arith

  client-negotiate-cost :
      (s c : InternalState) (neg : ℕ) (a b : List ℕ)
      → Expected s c (neg ∷ a) b
      → cost (
          at_client
            (negotiate (client_option code) neg)
            (record { server = s; client = c; to_client = a; to_server = b }))
        < cost (record { server = s; client = c; to_client = neg ∷ a; to_server = b })
  unfolding negotiate
  client-negotiate-cost inactive inactive neg a b h = ground arith
  client-negotiate-cost _ _ neg a b h = ground arith

  pub Delivers-cost : {x y : Pair} → Delivers code x y → IsExpected x → cost y < cost x
  Delivers-cost (at_server_side x neg rest e) h =
      rw e (server-negotiate-cost x.server x.client neg x.to_client rest (rw e at h))
  Delivers-cost (at_client_side x neg rest e) h =
      rw e (client-negotiate-cost x.server x.client neg rest x.to_server (rw e at h))

  pub Delivers-IsExpected : {x y : Pair} → Delivers code x y → IsExpected x → IsExpected y
  Delivers-IsExpected (at_server_side x neg rest e) h =
      server-negotiate x.server x.client neg x.to_client rest (rw e at h)
  Delivers-IsExpected (at_client_side x neg rest e) h =
      client-negotiate x.server x.client neg rest x.to_server (rw e at h)

  Step-IsExpected : {x y : Pair} → Step code x y → IsExpected x → IsExpected y
  Step-IsExpected (server_activates x) h = server-activate _ _ _ _ h
  Step-IsExpected (server_deactivates x) h = server-deactivate _ _ _ _ h
  Step-IsExpected (client_activates x) h = client-activate _ _ _ _ h
  Step-IsExpected (client_deactivates x) h = client-deactivate _ _ _ _ h
  Step-IsExpected (delivers d) h = Delivers-IsExpected d h

  pub Reachable-IsExpected : {x : Pair} → Reachable code x → IsExpected x
  Reachable-IsExpected here = (refl, refl)
  Reachable-IsExpected (next r s) = Step-IsExpected s (Reachable-IsExpected r)
