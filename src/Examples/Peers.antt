-- ===== src/Examples/Peers.antt =====
-- Examples for options over a session.
use telnetpp.Prelude.{ℕ, ◌≡◌, refl, arith, none, Bool, true, List, [], ◌∷◌, ◌++◌, Bytes, some}
use telnetpp.Generator.RoundTrip.{wire}
use telnetpp.TelnetOption.{TelnetOption, Polarity, client_polarity, server_polarity, active, skip}
use telnetpp.Session.{Channel, client_option, server_option, installed, receive}
use telnetpp.Options.NewEnviron.{uservar, Request, Response}
use telnetpp.Options.NewEnviron.Storage.{Call, sets, deletes, call, server_after}
use telnetpp.Options.NewEnviron.Query.{answers}
use telnetpp.Options.NewEnviron.Exchange.{
  request_variables, requester, host_channel, Host, host_server, on_app, host_call,
}
use telnetpp.Options.NewEnviron.Exchange.Learned.{
  host, announced, receive-request_variables, receive-host_call,
}
use telnetpp.Options.NewEnviron.Client.{signal_each, client}
use telnetpp.Options.Naws.{NawsServer, WindowSize, set_window_size}
use telnetpp.Options.Naws.Peers
use telnetpp.Options.Naws.Peers.{reports, receive-set_window_size}
use telnetpp.Options.Msdp.{Variable, variable, array_value}
use telnetpp.Options.Msdp.Decoder.{Result, ok}
use telnetpp.Options.Msdp.Peers.{peer, sent_bytes, receive-sent_bytes}

-- An option that is active and a channel, of a session that writes nothing.
abbrev silent_option : {W : Type 0} → Polarity → TelnetOption W
silent_option polarity = record {
  polarity = polarity;
  option_code = 0;
  state = λ w. active;
  set_state = λ s w. w;
  session_write = λ e w. w;
  on_state_changed = skip;
  handle_subnegotiation = λ content. skip;
}

abbrev silent_channel : {W : Type 0} → Channel W
silent_channel = record { write_bytes = λ bs w. w; is_alive = λ w. true; close = λ w. w }

abbrev ignored : {W : Type 0} → Bytes → W → W
ignored bs w = w

-- The slots keep what they are called with.
abbrev keep_response : Response → List Response → List Response
keep_response r rs = rs ++ r ∷ []

abbrev keep_variable : Variable → List Variable → List Variable
keep_variable v vs = vs ++ v ∷ []

abbrev environ_client : TelnetOption (List Response)
environ_client = client keep_response (silent_option client_polarity)

abbrev calls : List (Bool × Call)
calls = (true, sets uservar (b'A' ∷ []) (255 ∷ 0 ∷ [])) ∷ []

abbrev asked : Request
asked = record { type = uservar; name = b'A' ∷ [] }

-- A server whose application keeps the text that it is given.
abbrev heard : Bytes → Bytes → Bytes
heard bs a = a ++ bs

receive-request_variables_example :
    let sent =
      (request_variables requester (asked ∷ []) (record { sent = []; received = [] })).sent in
    let answer =
      (receive (on_app heard) sent (
        installed host_channel (server_option host_server ∷ []),
        host (server_after calls) [],
      )).1.sent in
    (receive ignored answer (installed silent_channel (client_option environ_client ∷ []), [])).1
    ≡ ignored []
        (signal_each keep_response (silent_option client_polarity) (answers calls (asked ∷ [])) [])
receive-request_variables_example =
    receive-request_variables keep_response (silent_option client_polarity)
      (server_option host_server ∷ []) heard [] silent_channel (client_option environ_client ∷ [])
      ignored [] calls asked [] refl refl refl (refl, tt)

abbrev hosted : Host Bytes
hosted = host (server_after calls) []

receive-host_call_example :
    ((host_call (deletes uservar (b'A' ∷ [])) hosted).storage
      ≡ call true (deletes uservar (b'A' ∷ [])) (server_after calls))
    × ((receive ignored
          (host_call (deletes uservar (b'A' ∷ [])) hosted).sent
          (installed silent_channel (client_option environ_client ∷ []), [])).1
        ≡ ignored [] (keep_response (announced (deletes uservar (b'A' ∷ []))) []))
receive-host_call_example =
    receive-host_call {A = Bytes} keep_response (silent_option client_polarity) silent_channel
      (client_option environ_client ∷ []) ignored [] (deletes uservar (b'A' ∷ []))
      (server_after calls) [] refl refl refl

answers_uservar_test :
    answers calls (asked ∷ [])
    ≡ record { type = uservar; name = b'A' ∷ []; value = some (255 ∷ 0 ∷ []) } ∷ []
answers_uservar_test = refl

abbrev msdp_server : TelnetOption (Result (List Variable))
msdp_server = peer keep_variable (silent_option server_polarity) server_polarity

abbrev commands : Variable
commands = variable (b'C' ∷ []) (array_value ((b'x' ∷ []) ∷ [] ∷ []))

receive-sent_bytes_example :
    (receive ignored
      (sent_bytes client_polarity commands)
      (installed silent_channel (server_option msdp_server ∷ []), ok [])).1
    ≡ ignored [] (ok (keep_variable commands []))
receive-sent_bytes_example =
    receive-sent_bytes keep_variable (silent_option server_polarity) client_polarity server_polarity
      silent_channel (server_option msdp_server ∷ []) ignored [] commands
      ((cc, tt), ((refl, tt), (tt, tt))) refl refl

abbrev keep_size : ℕ → ℕ → List WindowSize → List WindowSize
keep_size width height sizes = sizes ++ (width, height) ∷ []

abbrev naws_client : TelnetOption (List WindowSize)
naws_client = Peers.client keep_size (silent_option client_polarity)

abbrev no_size : NawsServer
no_size = record { window_size = none }

receive-set_window_size_example :
    (receive ignored
      (wire (reports (set_window_size true 255 24 no_size).1))
      (installed silent_channel (client_option naws_client ∷ []), [])).1
    ≡ ignored [] (keep_size 255 24 [])
receive-set_window_size_example =
    receive-set_window_size keep_size (silent_option client_polarity) silent_channel
      (client_option naws_client ∷ []) ignored [] 255 24 no_size refl refl (omega arith)
      (omega arith)
