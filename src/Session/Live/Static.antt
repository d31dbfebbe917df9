-- ===== src/Session/Live/Static.antt =====
-- One element in a session with routers of names (src/session.cpp), where its handlers leave the routers
-- as they are.
use telnetpp.Prelude.{
  ◌≡◌, refl, ap, ◌∙◌, List, Bytes, Option, none, some, ◌||◌, ◌==◌, if◌then◌else◌,
}
use telnetpp.Element.{
  Element, text, negotiation, subnegotiation, command, Command, Negotiation, Subnegotiation,
}
use telnetpp.Parser.{Parser, initial}
use telnetpp.Core.{will, wont, dont}
use telnetpp.Generator.{generate}
use telnetpp.Router.{handler, route, runs, byte_key, negotiation_key}
use telnetpp.TelnetOption.{TelnetOption, negotiate}
use telnetpp.Router.Meaning.{means_one, handler-meaning}
use telnetpp.Session.Live.Named.{
  static_program, named_all, negotiation_function, subnegotiation_function, routers_of,
  routers_of-live_installed, lifted-live_installed,
}
use telnetpp.Session.Live.Lifted.{
  lifted, lifted_channel, write_all-lifted, negotiate_in-lifted, subnegotiate-lifted,
}
use telnetpp.Session
use telnetpp.Session.{
  Channel, Session, Install, write_all, refuse, register_option, register_client_option,
  register_server_option, register_route_from_negotiation_to_option,
  register_route_from_subnegotiation_to_option, token_handler, handle_all, receive, installed,
}
use telnetpp.Session.Registration.{handled, token_handler-installed}
use telnetpp.Session.Live.{
  NegotiationHandler, refuses, negotiates, Routed, NamedInstall, run_negotiation,
  run_subnegotiation, run_command, live_token_handler, live_installed,
}

module _ {N A : Type 0} (channel : Channel A) (function_of : N → Command → A → A)
    (option_of : N → TelnetOption A) where
  refuse-lifted :
      (neg : Negotiation) (s : Routed N A)
      → refuse (lifted_channel channel) neg s ≡ lifted (refuse channel neg) s
  unfolding refuse Session.write
  refuse-lifted neg s =
      let result = if neg.request == will || neg.request == wont then dont else wont in
      write_all-lifted channel
        (generate (negotiation (record { request = result; option_code = neg.option_code }))) s

  run_negotiation-lifted :
      (h : Option (NegotiationHandler N)) (neg : Negotiation) (s : Routed N A)
      → run_negotiation (static_program channel function_of option_of) h neg s
        ≡ lifted (runs (means_one (negotiation_function channel function_of option_of) h) neg) s
  unfolding negotiate
  run_negotiation-lifted none neg s = refl
  run_negotiation-lifted (some refuses) neg s = refuse-lifted neg s
  run_negotiation-lifted (some (negotiates n request)) neg s =
      negotiate_in-lifted (option_of n) ((option_of n).state s.app) request s

  run_subnegotiation-lifted :
      (h : Option N) (sub : Subnegotiation) (s : Routed N A)
      → run_subnegotiation (static_program channel function_of option_of) h sub s
        ≡ lifted (runs (means_one (subnegotiation_function channel function_of option_of) h) sub) s
  run_subnegotiation-lifted none sub s = refl
  run_subnegotiation-lifted (some n) sub s = subnegotiate-lifted (option_of n) sub.content s

  run_command-lifted :
      (h : Option N) (cmd : Command) (s : Routed N A)
      → run_command (static_program channel function_of option_of) h cmd s
        ≡ lifted (runs (means_one function_of h) cmd) s
  run_command-lifted none cmd s = refl
  run_command-lifted (some n) cmd s = refl

  live_token_handler-lifted :
      (callback : Bytes → A → A) (e : Element) (s : Routed N A) (p : Parser)
      → live_token_handler
          (static_program channel function_of option_of)
          (λ bs. lifted (callback bs))
          e
          s
        ≡ lifted (token_handler (routers_of channel function_of option_of s p) callback e) s
  unfolding live_token_handler token_handler route
  live_token_handler-lifted callback (text bs) s p = refl
  live_token_handler-lifted callback (command cmd) s p =
      rw (handler-meaning function_of cmd.value s.command_router)
        (run_command-lifted (handler s.command_router cmd.value) cmd s)
  live_token_handler-lifted callback (negotiation neg) s p =
      rw
        (handler-meaning (negotiation_function channel function_of option_of) neg
          s.negotiation_router)
        (run_negotiation-lifted (handler s.negotiation_router neg) neg s)
  live_token_handler-lifted callback (subnegotiation sub) s p =
      rw
        (handler-meaning (subnegotiation_function channel function_of option_of) sub.option
          s.subnegotiation_router)
        (run_subnegotiation-lifted (handler s.subnegotiation_router sub.option) sub s)

  -- One element, on a session on which these have been installed.
  pub live_token_handler-handled :
      (is : List (NamedInstall N)) (callback : Bytes → A → A) (e : Element) (a : A)
      → live_token_handler
          (static_program channel function_of option_of)
          (λ bs. lifted (callback bs))
          e
          (live_installed (static_program channel function_of option_of) is a)
        ≡ live_installed
            (static_program channel function_of option_of)
            is
            (handled channel (named_all channel function_of option_of is) callback e a)
  live_token_handler-handled is callback e a =
      live_token_handler-lifted callback e
        (live_installed (static_program channel function_of option_of) is a) initial
      ∙ ap
          (λ t.
            lifted (token_handler t callback e)
              (live_installed (static_program channel function_of option_of) is a))
          (routers_of-live_installed channel function_of option_of is a)
      ∙ ap (λ f. lifted f (live_installed (static_program channel function_of option_of) is a))
          (token_handler-installed channel (named_all channel function_of option_of is) callback e)
      ∙ (lifted-live_installed channel function_of option_of)
          (handled channel (named_all channel function_of option_of is) callback e) is a
