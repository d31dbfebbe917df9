-- ===== src/TelnetOption/Slots/Configurations.antt =====
-- The configurations of the two sides of one option (include/telnetpp/option.hpp) whose slots
-- change it.
use telnetpp.Prelude.{ℕ, ◌≡◌, refl, ◌⊎◌, inl, inr, List, [], ◌∷◌, ◌++◌, arith}
use telnetpp.Core.{will, wont, do_, dont}
use telnetpp.TelnetOption.{
  InternalState, inactive, activating, active, deactivating, Polarity, client_polarity,
  server_polarity, activate, deactivate, negotiate,
}
use telnetpp.TelnetOption.Negotiation.{Peer, Pair, at_server, at_client}
use telnetpp.TelnetOption.Slots.{
  Call, activates, deactivates, Reaction, no_call, calls, react, make_call, with_slot, ReactingStep,
  server_calls, client_calls, Arrives, at_server_side, at_client_side, arrives, ReactingReachable,
  here, next,
}

-- What slots can do to a side, whatever they call: begin to leave the state that it is in, once.
abbrev pub peer : InternalState → List ℕ → Peer
peer s o = record { state = s; outbox = o }

abbrev pub Outcome : Polarity → InternalState → List ℕ → Peer → Type 0
Outcome polarity inactive o p =
    (p ≡ peer inactive o) ⊎ (p ≡ peer activating (o ++ polarity.local_positive ∷ []))
Outcome polarity active o p =
    (p ≡ peer active o) ⊎ (p ≡ peer deactivating (o ++ polarity.local_negative ∷ []))
Outcome polarity s o p = p ≡ peer s o

Outcome-after :
    (polarity : Polarity) (f : Peer → Peer) (s : InternalState) (o : List ℕ) (p : Peer)
    → ((t : InternalState) (q : List ℕ) → Outcome polarity t q (f (peer t q)))
    → Outcome polarity s o p
    → Outcome polarity s o (f p)
Outcome-after polarity f inactive o p h (inl e) = rw e (h inactive o)
Outcome-after polarity f inactive o p h (inr e) =
    inr (rw e (h activating (o ++ polarity.local_positive ∷ [])))
Outcome-after polarity f active o p h (inl e) = rw e (h active o)
Outcome-after polarity f active o p h (inr e) =
    inr (rw e (h deactivating (o ++ polarity.local_negative ∷ [])))
Outcome-after polarity f activating o p h e = rw e (h activating o)
Outcome-after polarity f deactivating o p h e = rw e (h deactivating o)

Outcome-refl :
    (polarity : Polarity) (s : InternalState) (o : List ℕ) → Outcome polarity s o (peer s o)
Outcome-refl polarity inactive o = inl refl
Outcome-refl polarity active o = inl refl
Outcome-refl polarity activating o = refl
Outcome-refl polarity deactivating o = refl

module _ (polarity : Polarity) (code : ℕ) where
  make_call-Outcome :
      (c : Call) (slot : Peer → Peer) (s : InternalState) (o : List ℕ)
      → ((t : InternalState) (q : List ℕ) → Outcome polarity t q (slot (peer t q)))
      → Outcome polarity s o (make_call polarity code c (with_slot polarity code slot) (peer s o))
  unfolding activate deactivate
  make_call-Outcome activates slot inactive o h = inr refl
  make_call-Outcome activates slot active o h = h active o
  make_call-Outcome activates slot activating o h = refl
  make_call-Outcome activates slot deactivating o h = refl
  make_call-Outcome deactivates slot inactive o h = h inactive o
  make_call-Outcome deactivates slot active o h = inr refl
  make_call-Outcome deactivates slot activating o h = refl
  make_call-Outcome deactivates slot deactivating o h = refl

  pub react-Outcome :
      (r : Reaction) (s : InternalState) (o : List ℕ)
      → Outcome polarity s o (react polarity code r (peer s o))
  unfolding react
  react-Outcome no_call s o = Outcome-refl polarity s o
  react-Outcome (calls c within later) s o =
      Outcome-after polarity (react polarity code later) s o _ (react-Outcome later)
        (make_call-Outcome c (react polarity code within) s o (react-Outcome within))

-- The configurations that occur: for each pair of states what is on the way to the client and to
-- the server.
abbrev pub Occurs : InternalState → InternalState → List ℕ → List ℕ → Type 0
Occurs inactive inactive a b = (a ≡ []) × (b ≡ [])
Occurs inactive activating a b = ((a ≡ []) × (b ≡ do_ ∷ [])) ⊎ ((a ≡ wont ∷ []) × (b ≡ []))
Occurs inactive active a b = ⊥
Occurs inactive deactivating a b = (a ≡ wont ∷ []) × (b ≡ [])
Occurs activating inactive a b = ((a ≡ []) × (b ≡ dont ∷ [])) ⊎ ((a ≡ will ∷ []) × (b ≡ []))
Occurs activating activating a b =
    ((a ≡ []) × (b ≡ do_ ∷ dont ∷ []))
    ⊎ ((a ≡ []) × (b ≡ dont ∷ do_ ∷ []))
    ⊎ ((a ≡ will ∷ []) × (b ≡ do_ ∷ []))
    ⊎ ((a ≡ will ∷ wont ∷ []) × (b ≡ []))
    ⊎ ((a ≡ wont ∷ will ∷ []) × (b ≡ []))
Occurs activating active a b = ((a ≡ []) × (b ≡ do_ ∷ [])) ⊎ ((a ≡ wont ∷ []) × (b ≡ []))
Occurs activating deactivating a b =
    ((a ≡ []) × (b ≡ do_ ∷ dont ∷ []))
    ⊎ ((a ≡ will ∷ wont ∷ []) × (b ≡ []))
    ⊎ ((a ≡ wont ∷ []) × (b ≡ dont ∷ []))
    ⊎ ((a ≡ wont ∷ will ∷ []) × (b ≡ []))
Occurs active inactive a b = ⊥
Occurs active activating a b = ((a ≡ []) × (b ≡ dont ∷ [])) ⊎ ((a ≡ will ∷ []) × (b ≡ []))
Occurs active active a b = (a ≡ []) × (b ≡ [])
Occurs active deactivating a b = (a ≡ []) × (b ≡ dont ∷ [])
Occurs deactivating inactive a b = (a ≡ []) × (b ≡ dont ∷ [])
Occurs deactivating activating a b =
    ((a ≡ []) × (b ≡ do_ ∷ dont ∷ []))
    ⊎ ((a ≡ []) × (b ≡ dont ∷ do_ ∷ []))
    ⊎ ((a ≡ will ∷ wont ∷ []) × (b ≡ []))
    ⊎ ((a ≡ wont ∷ []) × (b ≡ dont ∷ []))
Occurs deactivating active a b = (a ≡ wont ∷ []) × (b ≡ [])
Occurs deactivating deactivating a b = (a ≡ wont ∷ []) × (b ≡ dont ∷ [])

abbrev pub DoesOccur : Pair → Type 0
DoesOccur x = Occurs x.server x.client x.to_client x.to_server

-- A side whose slots have acted on what it did.
server-Occurs :
    (s c : InternalState) (a b : List ℕ) (p : Peer)
    → Occurs s c a b
    → Outcome server_polarity s [] p
    → Occurs p.state c (a ++ p.outbox) b
server-Occurs inactive inactive a b p h o = ground arith
server-Occurs _ _ a b p h o = ground arith

client-Occurs :
    (s c : InternalState) (a b : List ℕ) (p : Peer)
    → Occurs s c a b
    → Outcome client_polarity c [] p
    → Occurs s p.state a (b ++ p.outbox)
client-Occurs inactive inactive a b p h o = ground arith
client-Occurs _ _ a b p h o = ground arith

module _ (code : ℕ) (f : Peer → Peer) where
  server_negotiate-Occurs :
      (s c : InternalState) (neg : ℕ) (a b : List ℕ)
      → Occurs s c a (neg ∷ b)
      → ((t : InternalState) (q : List ℕ) → Outcome server_polarity t q (f (peer t q)))
      → DoesOccur (
          at_server
            (negotiate (with_slot server_polarity code f) neg)
            (record { server = s; client = c; to_client = a; to_server = b }))
  unfolding negotiate
  server_negotiate-Occurs inactive inactive neg a b h o =
      ground (arith, o active (will ∷ []), o active [], o inactive [])
  server_negotiate-Occurs _ _ neg a b h o =
      ground (arith, o active (will ∷ []), o active [], o inactive [])

  client_negotiate-Occurs :
      (s c : InternalState) (neg : ℕ) (a b : List ℕ)
      → Occurs s c (neg ∷ a) b
      → ((t : InternalState) (q : List ℕ) → Outcome client_polarity t q (f (peer t q)))
      → DoesOccur (
          at_client
            (negotiate (with_slot client_polarity code f) neg)
            (record { server = s; client = c; to_client = a; to_server = b }))
  unfolding negotiate
  client_negotiate-Occurs inactive inactive neg a b h o =
      ground (arith, o active (do_ ∷ []), o active [], o inactive [])
  client_negotiate-Occurs _ _ neg a b h o =
      ground (arith, o active (do_ ∷ []), o active [], o inactive [])

module _ (code : ℕ) where
  pub Arrives-DoesOccur :
      (r : Reaction) {x y : Pair} → Arrives code r x y → DoesOccur x → DoesOccur y
  Arrives-DoesOccur r (at_server_side x neg rest e) h =
      server_negotiate-Occurs code (react server_polarity code r) x.server x.client neg x.to_client
        rest (rw e at h) (react-Outcome server_polarity code r)
  Arrives-DoesOccur r (at_client_side x neg rest e) h =
      client_negotiate-Occurs code (react client_polarity code r) x.server x.client neg rest
        x.to_server (rw e at h) (react-Outcome client_polarity code r)

  ReactingStep-DoesOccur : {x y : Pair} → ReactingStep code x y → DoesOccur x → DoesOccur y
  ReactingStep-DoesOccur (server_calls x c r) h =
      server-Occurs x.server x.client x.to_client x.to_server _ h (
        make_call-Outcome server_polarity code c (react server_polarity code r) x.server []
          (react-Outcome server_polarity code r))
  ReactingStep-DoesOccur (client_calls x c r) h =
      client-Occurs x.server x.client x.to_client x.to_server _ h (
        make_call-Outcome client_polarity code c (react client_polarity code r) x.client []
          (react-Outcome client_polarity code r))
  ReactingStep-DoesOccur (arrives r a) h = Arrives-DoesOccur r a h

  pub ReactingReachable-DoesOccur : {x : Pair} → ReactingReachable code x → DoesOccur x
  ReactingReachable-DoesOccur here = (refl, refl)
  ReactingReachable-DoesOccur (next r s) = ReactingStep-DoesOccur s (ReactingReachable-DoesOccur r)
