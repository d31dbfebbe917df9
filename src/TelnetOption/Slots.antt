-- ===== src/TelnetOption/Slots.antt =====
-- The two sides of one option (include/telnetpp/option.hpp) with slots of `on_state_changed` that
-- activate or deactivate the option whose signal they are connected to.
pub mod Configurations
pub mod Settling
use telnetpp.Prelude.{ℕ, suc, ◌+◌, ◌≡◌, List, ◌∷◌}
use telnetpp.TelnetOption.{
  Polarity, client_polarity, server_polarity, TelnetOption, skip, ◌⨾◌, activate, deactivate,
  negotiate,
}
use telnetpp.TelnetOption.Negotiation.{Peer, peer_option, Pair, at_server, at_client, start}

pub data Call : Type 0 where
  activates deactivates : Call

-- The calls that a slot makes one after the other, each with those that the slots make within it.
pub data Reaction : Type 0 where
  no_call : Reaction
  calls : Call → Reaction → Reaction → Reaction

-- 1 where the slots call the option at all.
abbrev pub acts : Reaction → ℕ
acts no_call = 0
acts (calls c within later) = 1

module _ (polarity : Polarity) (code : ℕ) where
  abbrev pub with_slot : (Peer → Peer) → TelnetOption Peer
  with_slot slot = record (peer_option polarity code) { on_state_changed = slot }

  abbrev pub make_call : Call → TelnetOption Peer → Peer → Peer
  make_call activates = activate
  make_call deactivates = deactivate

  unfoldable pub react : Reaction → Peer → Peer
  react no_call = skip
  react (calls c within later) = make_call c (with_slot (react within)) ⨾ react later

  abbrev pub reacting : Reaction → TelnetOption Peer
  reacting r = with_slot (react r)

module _ (code : ℕ) where
  -- The arrival of the oldest request on the way to a side, whose slots then react.
  pub data Arrives (r : Reaction) : Pair → Pair → Type 0 where
    at_server_side :
        (x : Pair) (neg : ℕ) (rest : List ℕ)
        → x.to_server ≡ neg ∷ rest
        → Arrives r x (
            at_server
              (negotiate (reacting server_polarity code r) neg)
              (record x { to_server = rest }))
    at_client_side :
        (x : Pair) (neg : ℕ) (rest : List ℕ)
        → x.to_client ≡ neg ∷ rest
        → Arrives r x (
            at_client
              (negotiate (reacting client_polarity code r) neg)
              (record x { to_client = rest }))

  -- Either side's application may also call the option. The slots may react differently each time.
  pub data ReactingStep : Pair → Pair → Type 0 where
    server_calls :
        (x : Pair) (c : Call) (r : Reaction)
        → ReactingStep x
            (at_server (make_call server_polarity code c (reacting server_polarity code r)) x)
    client_calls :
        (x : Pair) (c : Call) (r : Reaction)
        → ReactingStep x
            (at_client (make_call client_polarity code c (reacting client_polarity code r)) x)
    arrives : {x y : Pair} (r : Reaction) → Arrives r x y → ReactingStep x y

  pub data ReactingReachable : Pair → Type 0 where
    here : ReactingReachable (start code)
    next : {x y : Pair} → ReactingReachable x → ReactingStep x y → ReactingReachable y

  -- Arrivals, one after the other, counted, and how many of them made the slots call the option.
  pub data ReactingArrivals (x : Pair) : ℕ → ℕ → Pair → Type 0 where
    none_yet : ReactingArrivals x 0 0 x
    one_more :
        {n m : ℕ} {y z : Pair} (r : Reaction)
        → ReactingArrivals x n m y
        → Arrives r y z
        → ReactingArrivals x (suc n) (acts r + m) z
