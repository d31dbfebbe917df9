-- ===== src/Examples/Lives.antt =====
-- Examples for the parser and the session as they run, and for slots that change their option.
use telnetpp.Prelude.{
  ℕ, ◌+◌, ◌*◌, ◌≤◌, ◌≡◌, refl, ◌⊎◌, true, List, [], ◌∷◌, ◌++◌, Bytes, length, ◌==◌, if◌then◌else◌,
}
use telnetpp.Core.{will, wont, do_, dont, ayt, ao}
use telnetpp.Element.{Element, text, negotiation, command, Command, Negotiation}
use telnetpp.Parser.{initial, parse}
use telnetpp.Parser.Live.{returned}
use telnetpp.Generator.RoundTrip.{wire}
use telnetpp.Stream.{coalesce}
use telnetpp.TelnetOption.{
  TelnetOption, inactive, activating, active, deactivating, client_polarity, server_polarity,
  activate, deactivate, negotiate,
}
use telnetpp.TelnetOption.Negotiation.{Peer, Pair, peer_option}
use telnetpp.TelnetOption.Negotiation.Configurations.{IsQuiet, Agrees}
use telnetpp.TelnetOption.Slots.{
  activates, deactivates, Reaction, no_call, calls, react, reacting, server_calls, Arrives,
  at_client_side, ReactingReachable, here, next, ReactingArrivals, none_yet, one_more,
}
use telnetpp.TelnetOption.Slots.Settling.{ReactingArrivals-settle}
use telnetpp.Router.{byte_key, negotiation_key}
use telnetpp.Session.{Channel}
use telnetpp.Session.Live.{NamedInstall, command_handler, client_option, live_receive}
use telnetpp.Session.Live.Serving.{
  serving_program, serving_callback, session_of, serve, serve_all, live_receive-serve_all,
}

-- Keeps what it is called with.
abbrev note : Element → List Element → List Element
note e es = es ++ e ∷ []

abbrev will_echo : Negotiation
will_echo = record { request = will; option_code = 1 }

-- A session that keeps no output, with one option.
abbrev no_peer : Peer
no_peer = record { state = inactive; outbox = [] }

abbrev peer_channel : Channel Peer
peer_channel = record {
  write_bytes = λ bs p. record p { outbox = p.outbox ++ bs };
  is_alive = λ p. true;
  close = λ p. p;
}

-- A handler notes its command.
abbrev notes_command : ℕ → Command → Peer → Peer
notes_command n cmd p = record p { outbox = p.outbox ++ n ∷ cmd.value ∷ [] }

abbrev named_echo : ℕ → TelnetOption Peer
named_echo n = peer_option client_polarity 1

abbrev noted : Bytes → Peer → Peer
noted bs p = record p { outbox = p.outbox ++ bs }

-- The handler of AYT installs a handler of AO and an option.
abbrev installs_of : ℕ → Command → List (NamedInstall ℕ)
installs_of n cmd = if n == 7 then client_option 0 ∷ command_handler ao 8 ∷ [] else []

abbrev no_installs : Bytes → List (NamedInstall ℕ)
no_installs bs = []

abbrev at_first : List (NamedInstall ℕ)
at_first = command_handler ayt 7 ∷ []

-- AO, AYT, AO, WILL ECHO: nothing handles the first AO.
abbrev orders : List Element
orders =
    command (record { value = ao })
    ∷ command (record { value = ayt })
    ∷ command (record { value = ao })
    ∷ negotiation will_echo
    ∷ []

live_receive-serve_all_example :
    live_receive
      (serving_program peer_channel notes_command named_echo installs_of noted no_installs)
      (serving_callback peer_channel notes_command named_echo installs_of noted no_installs)
      (wire orders)
      (record {
        parser = initial;
        rest =
            session_of peer_channel notes_command named_echo installs_of noted no_installs
              (at_first, no_peer);
      })
    ≡ returned (record {
      parser = (parse (wire orders) initial).0;
      rest = session_of peer_channel notes_command named_echo installs_of noted no_installs (
          serve peer_channel notes_command named_echo installs_of noted no_installs (text []) (
            serve_all peer_channel notes_command named_echo installs_of noted no_installs
              (parse (wire orders) initial).1
              (at_first, no_peer)));
    })
live_receive-serve_all_example =
    live_receive-serve_all peer_channel notes_command named_echo installs_of noted no_installs
      (wire orders) initial at_first no_peer

orders_test :
    serve_all peer_channel notes_command named_echo installs_of noted no_installs
      (coalesce [] orders)
      (at_first, no_peer)
    ≡ (
      client_option 0 ∷ command_handler ao 8 ∷ command_handler ayt 7 ∷ [],
      record { state = active; outbox = 7 ∷ ayt ∷ 8 ∷ ao ∷ do_ ∷ [] },
    )
unfolding negotiate
orders_test = refl

-- The server asks, and when the client has accepted, a slot there withdraws it.
abbrev asked : Pair
asked = record { server = activating; client = inactive; to_client = will ∷ []; to_server = [] }

abbrev accepted : Pair
accepted = record {
  server = activating;
  client = deactivating;
  to_client = [];
  to_server = do_ ∷ dont ∷ [];
}

abbrev withdraws : Reaction
withdraws = calls deactivates no_call no_call

asked-ReactingReachable : ReactingReachable 1 asked
unfolding activate
asked-ReactingReachable = next here (server_calls _ activates no_call)

accepted-ReactingArrivals : ReactingArrivals 1 asked 1 1 accepted
unfolding deactivate negotiate react
accepted-ReactingArrivals = one_more withdraws none_yet (at_client_side asked will [] refl)

ReactingArrivals-settle_example :
    (1 ≤ 3 + 2 * 1)
    × (length accepted.to_client + length accepted.to_server ≤ 2)
    × ((IsQuiet accepted × Agrees accepted) ⊎ ((z : Pair) × Arrives 1 no_call accepted z))
ReactingArrivals-settle_example =
    ReactingArrivals-settle 1 no_call asked-ReactingReachable accepted-ReactingArrivals

-- A slot that activates again what the remote has turned off: its request goes out in front of the
-- refusal.
reactivates_test :
    negotiate
      (reacting server_polarity 1 (calls activates no_call no_call))
      dont
      (record { state = active; outbox = [] })
    ≡ record { state = activating; outbox = will ∷ wont ∷ [] }
unfolding activate negotiate react
reactivates_test = refl

-- So the client first accepts the request and then takes the refusal for its end.
undone_test :
    negotiate (peer_option client_polarity 1) wont (
      negotiate (peer_option client_polarity 1) will (record { state = deactivating; outbox = [] }))
    ≡ record { state = inactive; outbox = dont ∷ [] }
unfolding negotiate
undone_test = refl
