-- ===== src/TelnetOption/Slots/Settling.antt =====
-- The negotiation of one option (include/telnetpp/option.hpp) whose slots change the option.
use telnetpp.Prelude.{ℕ, ◌+◌, ◌*◌, ◌≤◌, ◌<◌, ◌≡◌, ◌⊎◌, inl, inr, refl, List, [], ◌∷◌, length, arith}
use telnetpp.Core.{will, do_}
use telnetpp.TelnetOption.{
  InternalState, inactive, active, skip, client_polarity, server_polarity, negotiate,
}
use telnetpp.TelnetOption.Negotiation.{Peer, Pair, at_server, at_client}
use telnetpp.TelnetOption.Negotiation.Configurations.{cost, IsQuiet, Agrees}
use telnetpp.TelnetOption.Slots.{
  Reaction, no_call, calls, react, with_slot, acts, Arrives, at_server_side, at_client_side,
  ReactingReachable, ReactingArrivals, none_yet, one_more,
}
use telnetpp.TelnetOption.Slots.Configurations.{
  Occurs, DoesOccur, Outcome, peer, react-Outcome, Arrives-DoesOccur, ReactingReachable-DoesOccur,
}

Occurs-cost :
    (s c : InternalState) (a b : List ℕ)
    → Occurs s c a b
    → (length a + length b ≤ 2)
      × (cost (record { server = s; client = c; to_client = a; to_server = b }) ≤ 3)
Occurs-cost inactive inactive a b h = ground arith
Occurs-cost _ _ a b h = ground arith

Occurs-Agrees :
    (s c : InternalState) (a b : List ℕ)
    → Occurs s c a b
    → a ≡ []
    → b ≡ []
    → Agrees (record { server = s; client = c; to_client = a; to_server = b })
Occurs-Agrees inactive inactive a b h e f = ground arith
Occurs-Agrees _ _ a b h e f = ground arith

module _ (code : ℕ) where
  -- An arrival at which the slots do nothing.
  server_negotiate-cost :
      (s c : InternalState) (neg : ℕ) (a b : List ℕ)
      → Occurs s c a (neg ∷ b)
      → cost (
          at_server
            (negotiate (with_slot server_polarity code skip) neg)
            (record { server = s; client = c; to_client = a; to_server = b }))
        < cost (record { server = s; client = c; to_client = a; to_server = neg ∷ b })
  unfolding negotiate
  server_negotiate-cost inactive inactive neg a b h = ground arith
  server_negotiate-cost _ _ neg a b h = ground arith

  client_negotiate-cost :
      (s c : InternalState) (neg : ℕ) (a b : List ℕ)
      → Occurs s c (neg ∷ a) b
      → cost (
          at_client
            (negotiate (with_slot client_polarity code skip) neg)
            (record { server = s; client = c; to_client = a; to_server = b }))
        < cost (record { server = s; client = c; to_client = neg ∷ a; to_server = b })
  unfolding negotiate
  client_negotiate-cost inactive inactive neg a b h = ground arith
  client_negotiate-cost _ _ neg a b h = ground arith

  -- An arrival at which they do anything.
  module _ (f : Peer → Peer) where
    server_reaction-cost :
        (s c : InternalState) (neg : ℕ) (a b : List ℕ)
        → Occurs s c a (neg ∷ b)
        → ((t : InternalState) (q : List ℕ) → Outcome server_polarity t q (f (peer t q)))
        → cost (
            at_server
              (negotiate (with_slot server_polarity code f) neg)
              (record { server = s; client = c; to_client = a; to_server = b }))
          ≤ 1 + cost (record { server = s; client = c; to_client = a; to_server = neg ∷ b })
    unfolding negotiate
    server_reaction-cost inactive inactive neg a b h o =
        ground (arith, o active (will ∷ []), o active [], o inactive [])
    server_reaction-cost _ _ neg a b h o =
        ground (arith, o active (will ∷ []), o active [], o inactive [])

    client_reaction-cost :
        (s c : InternalState) (neg : ℕ) (a b : List ℕ)
        → Occurs s c (neg ∷ a) b
        → ((t : InternalState) (q : List ℕ) → Outcome client_polarity t q (f (peer t q)))
        → cost (
            at_client
              (negotiate (with_slot client_polarity code f) neg)
              (record { server = s; client = c; to_client = a; to_server = b }))
          ≤ 1 + cost (record { server = s; client = c; to_client = neg ∷ a; to_server = b })
    unfolding negotiate
    client_reaction-cost inactive inactive neg a b h o =
        ground (arith, o active (do_ ∷ []), o active [], o inactive [])
    client_reaction-cost _ _ neg a b h o =
        ground (arith, o active (do_ ∷ []), o active [], o inactive [])

  Arrives-no_call-cost : {x y : Pair} → Arrives code no_call x y → DoesOccur x → cost y < cost x
  unfolding react
  Arrives-no_call-cost (at_server_side x neg rest e) h =
      rw e (server_negotiate-cost x.server x.client neg x.to_client rest (rw e at h))
  Arrives-no_call-cost (at_client_side x neg rest e) h =
      rw e (client_negotiate-cost x.server x.client neg rest x.to_server (rw e at h))

  Arrives-react-cost :
      (r : Reaction) {x y : Pair} → Arrives code r x y → DoesOccur x → cost y ≤ 1 + cost x
  Arrives-react-cost r (at_server_side x neg rest e) h = rw e (
      server_reaction-cost (react server_polarity code r) x.server x.client neg x.to_client rest
        (rw e at h) (react-Outcome server_polarity code r))
  Arrives-react-cost r (at_client_side x neg rest e) h = rw e (
      client_reaction-cost (react client_polarity code r) x.server x.client neg rest x.to_server
        (rw e at h) (react-Outcome client_polarity code r))

  Arrives-cost :
      (r : Reaction) {x y : Pair}
      → Arrives code r x y
      → DoesOccur x
      → 1 + cost y ≤ 2 * acts r + cost x
  Arrives-cost no_call a h = omega (arith, Arrives-no_call-cost a h)
  Arrives-cost (calls c within later) a h =
      omega (arith, Arrives-react-cost (calls c within later) a h)

  ReactingArrivals-cost :
      {x y : Pair} {n m : ℕ}
      → ReactingArrivals code x n m y
      → DoesOccur x
      → DoesOccur y × (n + cost y ≤ 2 * m + cost x)
  ReactingArrivals-cost none_yet h = (h, omega arith)
  ReactingArrivals-cost (one_more r s a) h =
      let before = ReactingArrivals-cost s h in
      (Arrives-DoesOccur code r a before.0, omega (arith, before.1, Arrives-cost r a before.0))

  -- While anything is on its way, something can arrive.
  Arrives-progress :
      (r : Reaction) (x : Pair) (a b : List ℕ)
      → x.to_client ≡ a
      → x.to_server ≡ b
      → IsQuiet x ⊎ ((y : Pair) × Arrives code r x y)
  Arrives-progress r x [] [] e f = inl (e, f)
  Arrives-progress r x (neg ∷ rest) b e f = inr (_, at_client_side x neg rest e)
  Arrives-progress r x [] (neg ∷ rest) e f = inr (_, at_server_side x neg rest f)

  -- Requests arrive in the order in which they were written. Whatever the applications on both
  -- sides have asked for, and the slots of the option on either side have called in answer
  -- to its changes, once the applications stop asking at most three more requests arrive, and two
  -- more for each arrival at which the slots call the option again; never more than two are on their
  -- way at once; as long as any is, one can arrive, and when none is, both sides are active or
  -- both are inactive.
  pub ReactingArrivals-settle :
      {x y : Pair} {n m : ℕ} (r : Reaction)
      → ReactingReachable code x
      → ReactingArrivals code x n m y
      → (n ≤ 3 + 2 * m)
        × (length y.to_client + length y.to_server ≤ 2)
        × ((IsQuiet y × Agrees y) ⊎ ((z : Pair) × Arrives code r y z))
  ReactingArrivals-settle {x} {y} r reached s =
      let now = ReactingReachable-DoesOccur code reached in
      let later = ReactingArrivals-cost s now in
      (
        omega (arith, later.1, (Occurs-cost x.server x.client x.to_client x.to_server now).1),
        (Occurs-cost y.server y.client y.to_client y.to_server later.0).0,
        settled (Arrives-progress r y y.to_client y.to_server refl refl) later.0,
      )
    where
      settled :
          IsQuiet y ⊎ ((z : Pair) × Arrives code r y z)
          → DoesOccur y
          → (IsQuiet y × Agrees y) ⊎ ((z : Pair) × Arrives code r y z)
      settled (inl q) h = inl (q, Occurs-Agrees y.server y.client y.to_client y.to_server h q.0 q.1)
      settled (inr a) h = inr a
