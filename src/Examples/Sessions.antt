-- ===== src/Examples/Sessions.antt =====
-- Examples for the sessions and the negotiation of an option.
use telnetpp.Prelude.{◌≡◌, refl, true, List, [], ◌∷◌, ◌++◌, Bytes, concat, some}
use telnetpp.Core.{will, do_, ayt}
use telnetpp.Element.{Element, text, negotiation, subnegotiation, command, Negotiation}
use telnetpp.Generator.{generate}
use telnetpp.Generator.RoundTrip.{AllSendable, wire}
use telnetpp.TelnetOption.{TelnetOption, inactive, Polarity, client_polarity, server_polarity}
use telnetpp.TelnetOption.Negotiation.{Peer, peer_option}
use telnetpp.Session.{
  Channel, receive, new_session, token_handler, Install, command_handler, client_option,
  server_option, installed, write, write_all, refuse,
}
use telnetpp.Session.Registration.{negotiation_target, handled, token_handler-installed}
use telnetpp.Session.Delivery.{delivered, receive-wire}
use telnetpp.Session.Cutting.{receive_pieces, receive_pieces-concat, receive_pieces-wire}
use telnetpp.Stream.{coalesce}
use telnetpp.Session.Transparency.{
  Journal, journal_channel, log, log-Joins, write_elements, receive_all, texts, refusals,
  receive_all-write_elements,
}

abbrev elements : List Element
elements =
    text (b'h' ∷ 255 ∷ [])
    ∷ negotiation (record { request = will; option_code = 1 })
    ∷ subnegotiation (record { option = 24; content = 0 ∷ 255 ∷ [] })
    ∷ command (record { value = ayt })
    ∷ text (b'i' ∷ [])
    ∷ []

abbrev blank : Journal
blank = record { sent = []; received = [] }

-- The bytes of `elements`, cut inside the doubled 0xFF, the negotiation and the subnegotiation.
abbrev pieces : List Bytes
pieces =
    (b'h' ∷ 255 ∷ [])
    ∷ (255 ∷ 255 ∷ 251 ∷ [])
    ∷ (1 ∷ 255 ∷ 250 ∷ 24 ∷ 0 ∷ 255 ∷ [])
    ∷ (255 ∷ 255 ∷ 240 ∷ 255 ∷ 246 ∷ b'i' ∷ [])
    ∷ []

pieces-elements : concat pieces ≡ (write_elements elements blank).sent
unfolding write_elements write generate
pieces-elements = refl

pieces-wire : concat pieces ≡ wire elements
unfolding generate
pieces-wire = refl

elements_sendable : AllSendable elements
elements_sendable = (tt, (refl, (tt, (refl, (tt, tt)))))

receive_all-write_elements_example :
    (receive_all pieces (new_session journal_channel, blank)).1
    ≡ record { sent = [] ++ refusals elements; received = [] ++ texts elements }
receive_all-write_elements_example =
    receive_all-write_elements elements pieces blank elements_sendable pieces-elements

refusals_test : refusals elements ≡ 255 ∷ 254 ∷ 1 ∷ []
refusals_test = refl

texts_test : texts elements ≡ b'h' ∷ 255 ∷ b'i' ∷ []
texts_test = refl

-- A server and a client option with the same code, and a handler of AYT.
abbrev echo : Polarity → TelnetOption Peer
echo polarity = peer_option polarity 1

abbrev peer_channel : Channel Peer
peer_channel = record {
  write_bytes = λ bs p. record p { outbox = p.outbox ++ bs };
  is_alive = λ p. true;
  close = λ p. p;
}

abbrev installs : List (Install Peer)
installs =
    client_option (echo client_polarity)
    ∷ command_handler ayt (λ cmd p. p)
    ∷ server_option (echo server_polarity)
    ∷ []

abbrev do_echo : Negotiation
do_echo = record { request = do_; option_code = 1 }

token_handler-installed_example :
    token_handler (installed peer_channel installs) (λ bs p. p) (negotiation do_echo)
    ≡ handled peer_channel installs (λ bs p. p) (negotiation do_echo)
token_handler-installed_example =
    token_handler-installed peer_channel installs (λ bs p. p) (negotiation do_echo)

-- The server's option is asked for, and text surrounds the request.
abbrev requests : List Element
requests = text (b'h' ∷ []) ∷ negotiation do_echo ∷ text (255 ∷ []) ∷ []

abbrev no_peer : Peer
no_peer = record { state = inactive; outbox = [] }

receive-wire_example :
    (receive (λ bs p. p) (wire requests) (installed peer_channel installs, no_peer)).1
    ≡ delivered peer_channel installs (λ bs p. p) (coalesce [] requests) no_peer
receive-wire_example =
    receive-wire peer_channel installs (λ bs p. p) requests no_peer (tt, (refl, (tt, tt)))

negotiation_target_test : negotiation_target installs do_echo ≡ some (echo server_polarity)
negotiation_target_test = refl

-- "Yes" in answer to AYT, written to the log of what is sent.
abbrev says_yes : List (Install Journal)
says_yes = command_handler ayt (λ cmd. write journal_channel (text (b'Y' ∷ b'e' ∷ b's' ∷ []))) ∷ []

receive_pieces-concat_example :
    receive_pieces log pieces (installed journal_channel says_yes, blank)
    ≡ receive log (concat pieces) (installed journal_channel says_yes, blank)
unfolding installed
receive_pieces-concat_example =
    receive_pieces-concat log log-Joins (installed journal_channel says_yes) pieces blank tt refl

receive_pieces-wire_example :
    (receive_pieces log pieces (installed journal_channel says_yes, blank)).1
    ≡ delivered journal_channel says_yes log elements blank
receive_pieces-wire_example =
    receive_pieces-wire journal_channel says_yes log elements pieces blank log-Joins
      elements_sendable pieces-wire

delivered_test :
    delivered journal_channel says_yes log elements blank
    ≡ record { sent = 255 ∷ 254 ∷ 1 ∷ b'Y' ∷ b'e' ∷ b's' ∷ []; received = b'h' ∷ 255 ∷ b'i' ∷ [] }
unfolding refuse write write_all generate
delivered_test = refl
