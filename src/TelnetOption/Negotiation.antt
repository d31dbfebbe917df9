-- ===== src/TelnetOption/Negotiation.antt =====
-- The client side and the server side of one option, joined by two ordered streams of
-- negotiations. Slots of `on_state_changed` change nothing here; those that change the
-- option are in TelnetOption/Slots.
pub mod Configurations
pub mod Agreement
use telnetpp.Prelude.{
  ℕ, suc, ◌+◌, ◌-◌, ◌≤◌, ◌<◌, Bool, true, false, ◌≡◌, refl, ◌⊎◌, inl, inr, List, [], ◌∷◌, ◌++◌,
  length, arith,
}
use telnetpp.Core.{will, wont, do_, dont}
use telnetpp.Element.{Element, text, negotiation, subnegotiation, command}
use telnetpp.TelnetOption.{
  InternalState, inactive, activating, active, deactivating, Polarity, client_polarity,
  server_polarity, TelnetOption, skip, is_active, activate, deactivate, negotiate,
}

-- One side: the option's state and the negotiations that it has written and not yet sent.
pub record Peer : Type 0 where
  pub state : InternalState
  pub outbox : List ℕ

abbrev pub outbox_write : Element → Peer → Peer
outbox_write (negotiation n) p = record p { outbox = p.outbox ++ n.request ∷ [] }
outbox_write _ p = p

abbrev pub peer_option : Polarity → ℕ → TelnetOption Peer
peer_option polarity code = record {
  polarity = polarity;
  option_code = code;
  state = λ p. p.state;
  set_state = λ s p. record p { state = s };
  session_write = outbox_write;
  on_state_changed = skip;
  handle_subnegotiation = λ content. skip;
}

-- Both sides, with the requests on their way to each, the oldest first.
pub record Pair : Type 0 where
  pub server : InternalState
  pub client : InternalState
  pub to_client : List ℕ
  pub to_server : List ℕ

-- A call on one side, and what it writes, put on the way to the other.
abbrev pub at_server : (Peer → Peer) → Pair → Pair
at_server call x =
    let p = call (record { state = x.server; outbox = [] }) in
    record x { server = p.state; to_client = x.to_client ++ p.outbox }

abbrev pub at_client : (Peer → Peer) → Pair → Pair
at_client call x =
    let p = call (record { state = x.client; outbox = [] }) in
    record x { client = p.state; to_server = x.to_server ++ p.outbox }

module _ (code : ℕ) where
  abbrev pub server_option : TelnetOption Peer
  server_option = peer_option server_polarity code

  abbrev pub client_option : TelnetOption Peer
  client_option = peer_option client_polarity code

  -- The arrival of the oldest request on the way to a side.
  pub data Delivers : Pair → Pair → Type 0 where
    at_server_side :
        (x : Pair) (neg : ℕ) (rest : List ℕ)
        → x.to_server ≡ neg ∷ rest
        → Delivers x (at_server (negotiate server_option neg) (record x { to_server = rest }))
    at_client_side :
        (x : Pair) (neg : ℕ) (rest : List ℕ)
        → x.to_client ≡ neg ∷ rest
        → Delivers x (at_client (negotiate client_option neg) (record x { to_client = rest }))

  -- Either side's application may also ask for a change at any time.
  pub data Step : Pair → Pair → Type 0 where
    server_activates : (x : Pair) → Step x (at_server (activate server_option) x)
    server_deactivates : (x : Pair) → Step x (at_server (deactivate server_option) x)
    client_activates : (x : Pair) → Step x (at_client (activate client_option) x)
    client_deactivates : (x : Pair) → Step x (at_client (deactivate client_option) x)
    delivers : {x y : Pair} → Delivers x y → Step x y

  abbrev pub start : Pair
  start = record { server = inactive; client = inactive; to_client = []; to_server = [] }

  pub data Reachable : Pair → Type 0 where
    here : Reachable start
    next : {x y : Pair} → Reachable x → Step x y → Reachable y
