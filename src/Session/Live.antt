-- ===== src/Session/Live.antt =====
-- The session (include/telnetpp/session.hpp, src/session.cpp) as it runs: the parser calls the
-- handlers while it reads, each message goes to the handler that the routers have for it then, and
-- a handler can install others.
--
-- A router holds names of handlers, and a program says what the named do to all that can change:
-- the routers, and `A`, the rest.
pub mod Reading
pub mod Lifted
pub mod Named
pub mod Static
pub mod Serving
use telnetpp.Prelude.{ℕ, List, [], ◌∷◌, Bytes, Option, none, some, if◌then◌else◌}
use telnetpp.Element.{
  Element, text, negotiation, subnegotiation, command, Command, Negotiation, Subnegotiation,
}
use telnetpp.Parser.Live.{Live, Ended, returned, live_parse, ◌⨾◌}
use telnetpp.Parser.Live.Batch.{acting}
use telnetpp.Router.{
  Router, empty, handler, register_route, set_unregistered_route, byte_key, negotiation_key,
  command_key_from_message, negotiation_key_from_message, subnegotiation_key_from_message,
}
use telnetpp.TelnetOption.{
  TelnetOption, Polarity, client_polarity, server_polarity, negotiate, subnegotiate,
}
use telnetpp.Session.{Channel, refuse}

-- What a session registers for negotiations: its default answer, or a request to an option.
pub data NegotiationHandler (N : Type 0) : Type 0 where
  refuses : NegotiationHandler N
  negotiates : N → ℕ → NegotiationHandler N

-- The routers of a session, and all else that its handlers can change.
pub record Routed (N A : Type 0) : Type 0 where
  pub command_router : Router ℕ N
  pub negotiation_router : Router Negotiation (NegotiationHandler N)
  pub subnegotiation_router : Router ℕ N
  pub app : A

pub record Program (N A : Type 0) : Type 0 where
  pub channel : Channel (Routed N A)
  pub command_function : N → Command → Routed N A → Routed N A
  pub option_of : N → TelnetOption (Routed N A)

-- The overloads of `install`, of what is named.
pub data NamedInstall (N : Type 0) : Type 0 where
  command_handler : ℕ → N → NamedInstall N
  client_option server_option : N → NamedInstall N

module _ {N A : Type 0} (prog : Program N A) where
  -- `negotiate`, `subnegotiate` and the call of a command's function, where there is a handler.
  abbrev pub run_negotiation : Option (NegotiationHandler N) → Negotiation → Routed N A → Routed N A
  run_negotiation none neg s = s
  run_negotiation (some refuses) neg s = refuse prog.channel neg s
  run_negotiation (some (negotiates n request)) neg s = negotiate (prog.option_of n) request s

  abbrev pub run_subnegotiation : Option N → Subnegotiation → Routed N A → Routed N A
  run_subnegotiation none sub s = s
  run_subnegotiation (some n) sub s = subnegotiate (prog.option_of n) sub.content s

  abbrev pub run_command : Option N → Command → Routed N A → Routed N A
  run_command none cmd s = s
  run_command (some n) cmd s = prog.command_function n cmd s

  unfoldable pub live_token_handler :
      (Bytes → Routed N A → Routed N A) → Element → Routed N A → Routed N A
  live_token_handler callback (text bs) s = callback bs s
  live_token_handler callback (command cmd) s =
      run_command (handler s.command_router (command_key_from_message cmd)) cmd s
  live_token_handler callback (negotiation neg) s =
      run_negotiation (handler s.negotiation_router (negotiation_key_from_message neg)) neg s
  live_token_handler callback (subnegotiation sub) s =
      run_subnegotiation (handler s.subnegotiation_router (subnegotiation_key_from_message sub)) sub
        s

  -- The function that `async_read` hands to the channel.
  unfoldable pub live_receive :
      (Bytes → Routed N A → Routed N A) → Bytes → Live (Routed N A) → Ended (Routed N A)
  unfolding live_token_handler
  live_receive callback content = live_parse (acting (live_token_handler callback)) content ⨾ λ w.
      returned (record w { rest = callback [] w.rest })

  unfoldable pub live_register_option : Polarity → N → Routed N A → Routed N A
  live_register_option polarity n s =
      let code = (prog.option_of n).option_code in
      record s {
        negotiation_router =
            register_route (record { request = polarity.remote_negative; option_code = code })
              (negotiates n polarity.remote_negative)
              (register_route (record { request = polarity.remote_positive; option_code = code })
                (negotiates n polarity.remote_positive) s.negotiation_router);
        subnegotiation_router = register_route code n s.subnegotiation_router;
      }

  unfoldable pub live_install : NamedInstall N → Routed N A → Routed N A
  unfolding live_register_option
  live_install (command_handler cmd n) s = record s {
    command_router = register_route cmd n s.command_router;
  }
  live_install (client_option n) s = live_register_option client_polarity n s
  live_install (server_option n) s = live_register_option server_polarity n s

  -- A new session, and one on which all these were installed, the latest first.
  unfoldable pub new_routed : A → Routed N A
  new_routed a = record {
    command_router = empty;
    negotiation_router = set_unregistered_route refuses empty;
    subnegotiation_router = empty;
    app = a;
  }

  unfoldable pub live_installed : List (NamedInstall N) → A → Routed N A
  unfolding live_install new_routed
  live_installed [] a = new_routed a
  live_installed (i ∷ older) a = live_install i (live_installed older a)
