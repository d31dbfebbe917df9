-- ===== src/Options/NewEnviron/Client.antt =====
-- The client (src/options/new_environ/client.cpp) as an option of a session.
use telnetpp.Prelude.{◌≡◌, ap, ◌∙◌, Bool, ℕ, List, [], ◌∷◌, Bytes, some}
use telnetpp.Element.{subnegotiation}
use telnetpp.Generator.RoundTrip.{wire}
use telnetpp.TelnetOption.{TelnetOption, client_polarity, active}
use telnetpp.Session.{Channel, Install, installed, receive}
use telnetpp.Session.Registration.{subnegotiation_target}
use telnetpp.Session.Delivery.{receive-subnegotiation}
use telnetpp.Options.NewEnviron.{Request, Response}
use telnetpp.Options.NewEnviron.Requests.{request_content}
use telnetpp.Options.NewEnviron.Responses.{for_each_response}
use telnetpp.Options.NewEnviron.Server.{handle_subnegotiation}
use telnetpp.Options.NewEnviron.Storage.{Call, server_after}
use telnetpp.Options.NewEnviron.Query.{AllNamed, answers, for_each_response-handle_subnegotiation}

abbrev pub option : ℕ
option = 39

-- `slot` is what is connected to the signal `on_variable_changed`; `base` has the option's state and
-- its session.
module _ {W : Type 0} (slot : Response → W → W) (base : TelnetOption W) where
  -- The signal, once for each response.
  abbrev pub signal_each : List Response → W → W
  signal_each [] w = w
  signal_each (r ∷ rs) w = signal_each rs (slot r w)

  unfoldable pub client_handle_subnegotiation : Bytes → W → W
  client_handle_subnegotiation content = signal_each (for_each_response content)

  abbrev pub client : TelnetOption W
  client = record base {
    polarity = client_polarity;
    option_code = option;
    handle_subnegotiation = client_handle_subnegotiation;
  }

  -- A session on which the client is the latest option with its code, and active, reads the bytes of
  -- a server's answer to a request of variables, none with an empty name: the slot is called with
  -- the value of each variable that the calls on the server have left with one, in the order of
  -- the requests, and then the application with no data.
  pub receive-handle_subnegotiation :
      (channel : Channel W) (is : List (Install W)) (callback : Bytes → W → W) (w : W)
      (cs : List (Bool × Call)) (r : Request) (reqs : List Request)
      → subnegotiation_target is option ≡ some client
      → base.state w ≡ active
      → AllNamed (r ∷ reqs)
      → let answer = handle_subnegotiation (request_content (r ∷ reqs)) (server_after cs) in
        (receive callback
          (wire (subnegotiation (record { option = option; content = answer }) ∷ []))
          (installed channel is, w)).1
        ≡ callback [] (signal_each (answers cs (r ∷ reqs)) w)
  unfolding client_handle_subnegotiation
  receive-handle_subnegotiation channel is callback w cs r reqs t a h =
      let answer = handle_subnegotiation (request_content (r ∷ reqs)) (server_after cs) in
      receive-subnegotiation channel is callback client answer w t a
      ∙ ap (λ rs. callback [] (signal_each rs w))
          (for_each_response-handle_subnegotiation cs r reqs h)
