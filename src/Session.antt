-- ===== src/Session.antt =====
-- The session (include/telnetpp/session.hpp, src/session.cpp) and the registration of options
-- with its routers (include/telnetpp/detail/registration.hpp, src/detail/registration.cpp).
--
-- As in TelnetOption, `W` is all that calls can change. The channel belongs to the user, and its
-- functions are a parameter. Here the routers stay as they are while a chunk is read; Session/Live
-- has the session whose handlers install others.
pub mod Registration
pub mod Transparency
pub mod Delivery
pub mod Cutting
pub mod Live
use telnetpp.Prelude.{ℕ, Bool, ◌||◌, List, [], ◌∷◌, ◌==◌, if◌then◌else◌, Bytes}
use telnetpp.Core.{will, wont, do_, dont}
use telnetpp.Element.{
  Element, text, negotiation, subnegotiation, command, Command, Negotiation, Subnegotiation,
}
use telnetpp.Parser.{Parser, initial, parse}
use telnetpp.Generator.{generate}
use telnetpp.Router.{
  Router, empty, route, register_route, set_unregistered_route, byte_key, negotiation_key,
  command_key_from_message, negotiation_key_from_message, subnegotiation_key_from_message,
}
use telnetpp.TelnetOption.{
  TelnetOption, Polarity, client_polarity, server_polarity, negotiate, subnegotiate, ◌⨾◌,
}

-- `channel_concept`; what the channel reads arrives as the argument of `receive`.
pub record Channel (W : Type 0) : Type 0 where
  pub write_bytes : Bytes → W → W
  pub is_alive : W → Bool
  pub close : W → W

pub record Session (W : Type 0) : Type 0 where
  pub channel : Channel W
  pub parser : Parser
  pub command_router : Router ℕ (Command → W → W)
  pub negotiation_router : Router Negotiation (Negotiation → W → W)
  pub subnegotiation_router : Router ℕ (Subnegotiation → W → W)

module _ {W : Type 0} where
  -- One call of the continuation after the other.
  unfoldable pub write_all : Channel W → List Bytes → W → W
  write_all channel [] w = w
  write_all channel (bs ∷ spans) w = write_all channel spans (channel.write_bytes bs w)

  -- `session::write`.
  unfoldable pub write : Channel W → Element → W → W
  unfolding write_all
  write channel elem = write_all channel (generate elem)

  -- The default answer to a negotiation.
  unfoldable pub refuse : Channel W → Negotiation → W → W
  unfolding write
  refuse channel n =
      let result = if n.request == will || n.request == wont then dont else wont in
      write channel (negotiation (record { request = result; option_code = n.option_code }))

  unfoldable pub new_session : Channel W → Session W
  unfolding refuse
  new_session channel = record {
    channel = channel;
    parser = initial;
    command_router = empty;
    negotiation_router = set_unregistered_route (refuse channel) empty;
    subnegotiation_router = empty;
  }

  unfoldable pub is_alive : Session W → W → Bool
  is_alive s = s.channel.is_alive

  unfoldable pub close : Session W → W → W
  close s = s.channel.close

  -- What `async_read` does with each element; `callback` is the application's.
  unfoldable pub token_handler : Session W → (Bytes → W → W) → Element → W → W
  token_handler s callback (text bs) = callback bs
  token_handler s callback (command cmd) = route command_key_from_message s.command_router cmd
  token_handler s callback (negotiation neg) =
      route negotiation_key_from_message s.negotiation_router neg
  token_handler s callback (subnegotiation sub) =
      route subnegotiation_key_from_message s.subnegotiation_router sub

  unfoldable pub handle_all : Session W → (Bytes → W → W) → List Element → W → W
  unfolding token_handler
  handle_all s callback [] w = w
  handle_all s callback (e ∷ es) w = handle_all s callback es (token_handler s callback e w)

  -- The function that `async_read` hands to the channel, called with what the channel has read.
  unfoldable pub receive : (Bytes → W → W) → Bytes → Session W × W → Session W × W
  unfolding handle_all
  receive callback content (s, w) =
      let (p, elems) = parse content s.parser in
      (record s { parser = p }, callback [] (handle_all s callback elems w))

  unfoldable pub register_route_from_negotiation_to_option :
      ℕ
      → TelnetOption W
      → Router Negotiation (Negotiation → W → W)
      → Router Negotiation (Negotiation → W → W)
  register_route_from_negotiation_to_option request o =
      register_route (record { request = request; option_code = o.option_code })
        (λ _. negotiate o request)

  unfoldable pub register_route_from_subnegotiation_to_option :
      TelnetOption W → Router ℕ (Subnegotiation → W → W) → Router ℕ (Subnegotiation → W → W)
  register_route_from_subnegotiation_to_option o =
      register_route o.option_code (λ sub. subnegotiate o sub.content)

  -- What `register_client_option` and `register_server_option` share.
  unfoldable pub register_option : Polarity → TelnetOption W → Session W → Session W
  unfolding register_route_from_negotiation_to_option register_route_from_subnegotiation_to_option
  register_option polarity o s = record s {
    negotiation_router =
        (register_route_from_negotiation_to_option polarity.remote_positive o
            ⨾ register_route_from_negotiation_to_option polarity.remote_negative o)
          s.negotiation_router;
    subnegotiation_router = register_route_from_subnegotiation_to_option o s.subnegotiation_router;
  }

  unfoldable pub register_client_option : TelnetOption W → Session W → Session W
  unfolding register_option
  register_client_option = register_option client_polarity

  unfoldable pub register_server_option : TelnetOption W → Session W → Session W
  unfolding register_option
  register_server_option = register_option server_polarity

-- The overloads of `install`.
pub data Install (W : Type 0) : Type 0 where
  command_handler : ℕ → (Command → W → W) → Install W
  client_option : TelnetOption W → Install W
  server_option : TelnetOption W → Install W

module _ {W : Type 0} where
  unfoldable pub install : Install W → Session W → Session W
  unfolding register_client_option register_server_option
  install (command_handler cmd handler) s = record s {
    command_router = register_route cmd handler s.command_router;
  }
  install (client_option o) s = register_client_option o s
  install (server_option o) s = register_server_option o s

  -- A new session on which all these were installed, the latest first.
  unfoldable pub installed : Channel W → List (Install W) → Session W
  unfolding new_session install
  installed channel [] = new_session channel
  installed channel (i ∷ older) = install i (installed channel older)
