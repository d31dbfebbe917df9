-- ===== src/Session/Live/Named.antt =====
-- A session of named handlers that leave the routers alone (src/session.cpp), and the session of what
-- the names mean.
use telnetpp.Prelude.{◌≡◌, refl, sym, ap, ◌∙◌, List, [], ◌∷◌}
use telnetpp.Element.{Command, Negotiation, Subnegotiation}
use telnetpp.Parser.{Parser, initial}
use telnetpp.Router.{Router, set_unregistered_route, register_route, byte_key, negotiation_key}
use telnetpp.TelnetOption.{
  TelnetOption, Polarity, client_polarity, server_polarity, negotiate, subnegotiate,
}
use telnetpp.Router.Meaning.{meaning, register_route-meaning}
use telnetpp.Session.Live.Lifted.{lifted, lifted_channel, lifted_option}
use telnetpp.Session
use telnetpp.Session.{
  Channel, Session, Install, write_all, refuse, register_option, register_client_option,
  register_server_option, register_route_from_negotiation_to_option,
  register_route_from_subnegotiation_to_option, token_handler, handle_all, receive, installed,
}
use telnetpp.Session.Live.{
  NegotiationHandler, refuses, negotiates, Routed, Program, NamedInstall, command_handler,
  client_option, server_option, live_install, live_register_option, live_installed,
}

module _ {N A : Type 0} (channel : Channel A) (function_of : N → Command → A → A)
    (option_of : N → TelnetOption A) where
  abbrev pub static_program : Program N A
  static_program = record {
    channel = lifted_channel channel;
    command_function = λ n cmd. lifted (function_of n cmd);
    option_of = λ n. lifted_option (option_of n);
  }

  abbrev pub named : NamedInstall N → Install A
  named (command_handler cmd n) = Session.command_handler cmd (function_of n)
  named (client_option n) = Session.client_option (option_of n)
  named (server_option n) = Session.server_option (option_of n)

  abbrev pub named_all : List (NamedInstall N) → List (Install A)
  named_all [] = []
  named_all (i ∷ is) = named i ∷ named_all is

  abbrev pub negotiation_function : NegotiationHandler N → Negotiation → A → A
  negotiation_function refuses = refuse channel
  negotiation_function (negotiates n request) = λ _. negotiate (option_of n) request

  abbrev pub subnegotiation_function : N → Subnegotiation → A → A
  subnegotiation_function n sub = subnegotiate (option_of n) sub.content

  -- The routers of a session, and the routers of names that stand for them.
  abbrev pub routers_of : Routed N A → Parser → Session A
  routers_of s p = record {
    channel = channel;
    parser = p;
    command_router = meaning function_of s.command_router;
    negotiation_router = meaning negotiation_function s.negotiation_router;
    subnegotiation_router = meaning subnegotiation_function s.subnegotiation_router;
  }

  negotiations-meaning :
      (polarity : Polarity) (n : N) (r : Router Negotiation (NegotiationHandler N))
      → register_route_from_negotiation_to_option polarity.remote_negative (option_of n) (
          register_route_from_negotiation_to_option polarity.remote_positive
            (option_of n)
            (meaning negotiation_function r))
        ≡ meaning negotiation_function (
            register_route
              (record {
                request = polarity.remote_negative;
                option_code = (option_of n).option_code;
              })
              (negotiates n polarity.remote_negative)
              (register_route
                (record {
                  request = polarity.remote_positive;
                  option_code = (option_of n).option_code;
                })
                (negotiates n polarity.remote_positive)
                r))
  unfolding register_route_from_negotiation_to_option
  negotiations-meaning polarity n r =
      ap (register_route_from_negotiation_to_option polarity.remote_negative (option_of n))
        (register_route-meaning negotiation_function _ (negotiates n polarity.remote_positive) r)
      ∙ register_route-meaning negotiation_function _ (negotiates n polarity.remote_negative) _

  routers_of-live_register_option :
      (polarity : Polarity) (n : N) (s : Routed N A) (p : Parser)
      → routers_of (live_register_option static_program polarity n s) p
        ≡ register_option polarity (option_of n) (routers_of s p)
  unfolding live_register_option register_option register_route_from_negotiation_to_option
      register_route_from_subnegotiation_to_option
  routers_of-live_register_option polarity n s p = sym (
      ap
        (λ x. record (routers_of s p) {
          negotiation_router = x;
          subnegotiation_router =
              register_route_from_subnegotiation_to_option (option_of n)
                (meaning subnegotiation_function s.subnegotiation_router);
        })
        (negotiations-meaning polarity n s.negotiation_router)
      ∙ ap
          (λ y. record (routers_of (live_register_option static_program polarity n s) p) {
            subnegotiation_router = y;
          })
          (register_route-meaning subnegotiation_function (option_of n).option_code n
            s.subnegotiation_router))

  pub routers_of-live_installed :
      (is : List (NamedInstall N)) (a : A)
      → routers_of (live_installed static_program is a) initial ≡ installed channel (named_all is)
  unfolding live_installed installed Session.new_session Session.install set_unregistered_route
      register_client_option register_server_option live_install live_register_option
  routers_of-live_installed [] a = refl
  routers_of-live_installed (command_handler cmd n ∷ is) a =
      rw
        (sym (
          register_route-meaning function_of cmd n
            (live_installed static_program is a).command_router))
        (ap (Session.install (named (command_handler cmd n))) (routers_of-live_installed is a))
  routers_of-live_installed (client_option n ∷ is) a =
      routers_of-live_register_option client_polarity n (live_installed static_program is a) initial
      ∙ ap (register_option client_polarity (option_of n)) (routers_of-live_installed is a)
  routers_of-live_installed (server_option n ∷ is) a =
      routers_of-live_register_option server_polarity n (live_installed static_program is a) initial
      ∙ ap (register_option server_polarity (option_of n)) (routers_of-live_installed is a)

  pub lifted-live_installed :
      (f : A → A) (is : List (NamedInstall N)) (a : A)
      → lifted f (live_installed static_program is a) ≡ live_installed static_program is (f a)
  unfolding live_installed live_install live_register_option
  lifted-live_installed f [] a = refl
  lifted-live_installed f (command_handler cmd n ∷ is) a =
      ap (live_install static_program (command_handler cmd n)) (lifted-live_installed f is a)
  lifted-live_installed f (client_option n ∷ is) a =
      ap (live_install static_program (client_option n)) (lifted-live_installed f is a)
  lifted-live_installed f (server_option n ∷ is) a =
      ap (live_install static_program (server_option n)) (lifted-live_installed f is a)
