-- ===== src/Options/NewEnviron/Exchange.antt =====
-- The server (src/options/new_environ/server.cpp) as an option of a session, and an exchange with a
-- client (src/options/new_environ/client.cpp) at the other end of the stream.
pub mod Learned
use telnetpp.Prelude.{
  ◌≡◌, refl, ap, ◌∙◌, true, Bool, ℕ, List, [], ◌∷◌, ◌++◌, Bytes, some, concat, append-nil,
  append_assoc, is_empty, false,
}
use telnetpp.Element.{Element, subnegotiation}
use telnetpp.Generator.{generate}
use telnetpp.Generator.RoundTrip.{wire}
use telnetpp.TelnetOption.{
  TelnetOption, InternalState, active, client_polarity, server_polarity, is_option_active,
  write_subnegotiation, skip,
}
use telnetpp.Session.{Channel, Install, installed, receive, write, write_all}
use telnetpp.Session.Registration.{subnegotiation_target}
use telnetpp.Session.Delivery.{receive-subnegotiation}
use telnetpp.Session.Transparency.{Journal, journal_channel, write_elements, write_elements-sent}
use telnetpp.Options.NewEnviron.{Request, VariableType, var, uservar}
use telnetpp.Options.NewEnviron.Requests.{request_content}
use telnetpp.Options.NewEnviron.Server
use telnetpp.Options.NewEnviron.Server.{Server, handle_subnegotiation}
use telnetpp.Options.NewEnviron.Storage.{Call, sets, deletes}
use telnetpp.Options.NewEnviron.Query.{AllNamed, answers}
use telnetpp.Options.NewEnviron.Client.{option, client, signal_each, receive-handle_subnegotiation}

-- The whole of `request_variables`.
unfoldable pub request_variables : {W : Type 0} → TelnetOption W → List Request → W → W
unfolding write_subnegotiation
request_variables o reqs = write_subnegotiation o (request_content reqs)

-- `base` has the option's state and its session; the server's maps are a part of the state.
module _ {W : Type 0} (storage : W → Server) (set_storage : Server → W → W)
    (base : TelnetOption W) where
  -- The option before its own class is known.
  abbrev unhandled : TelnetOption W
  unhandled = record base {
    polarity = server_polarity;
    option_code = option;
    handle_subnegotiation = λ content. skip;
  }

  unfoldable pub server_handle_subnegotiation : Bytes → W → W
  unfolding write_subnegotiation
  server_handle_subnegotiation content w =
      write_subnegotiation unhandled (handle_subnegotiation content (storage w)) w

  abbrev pub server : TelnetOption W
  server = record unhandled { handle_subnegotiation = server_handle_subnegotiation }

  abbrev write_each : List Bytes → W → W
  write_each [] w = w
  write_each (content ∷ contents) w = write_each contents (write_subnegotiation unhandled content w)

  -- A call that changes the maps and announces the change.
  abbrev change : (Bool → Server → Server × List Bytes) → W → W
  change f w =
      let (s, contents) = f (is_option_active unhandled w) (storage w) in
      write_each contents (set_storage s w)

  unfoldable pub server_set_variable : Bytes → Bytes → W → W
  unfolding Server.set_variable write_subnegotiation
  server_set_variable name value = change (λ active. Server.set_variable active name value)

  unfoldable pub server_delete_variable : Bytes → W → W
  unfolding Server.delete_variable write_subnegotiation
  server_delete_variable name = change (λ active. Server.delete_variable active name)

  unfoldable pub server_set_user_variable : Bytes → Bytes → W → W
  unfolding Server.set_user_variable write_subnegotiation
  server_set_user_variable name value =
      change (λ active. Server.set_user_variable active name value)

  unfoldable pub server_delete_user_variable : Bytes → W → W
  unfolding Server.delete_user_variable write_subnegotiation
  server_delete_user_variable name = change (λ active. Server.delete_user_variable active name)

-- A server with its option's state, what it has sent, and its application.
pub record Host (A : Type 0) : Type 0 where
  pub state : InternalState
  pub storage : Server
  pub sent : Bytes
  pub app : A

-- A client's option over a session whose channel keeps what is sent.
abbrev pub requester : TelnetOption Journal
requester = record {
  polarity = client_polarity;
  option_code = option;
  state = λ w. active;
  set_state = λ s w. w;
  session_write = write journal_channel;
  on_state_changed = skip;
  handle_subnegotiation = λ content. skip;
}

pub request_variables-wire :
    (reqs : List Request)
    → (request_variables requester reqs (record { sent = []; received = [] })).sent
      ≡ wire (subnegotiation (record { option = option; content = request_content reqs }) ∷ [])
unfolding request_variables write_elements
request_variables-wire reqs =
    ap (λ z. z.sent)
      (write_elements-sent
        (subnegotiation (record { option = option; content = request_content reqs }) ∷ [])
        (record { sent = []; received = [] }))

module _ {A : Type 0} where
  abbrev pub host_channel : Channel (Host A)
  host_channel = record {
    write_bytes = λ bs h. record h { sent = h.sent ++ bs };
    is_alive = λ h. true;
    close = λ h. h;
  }

  abbrev host_option : TelnetOption (Host A)
  host_option = record {
    polarity = server_polarity;
    option_code = option;
    state = λ h. h.state;
    set_state = λ s h. record h { state = s };
    session_write = write host_channel;
    on_state_changed = skip;
    handle_subnegotiation = λ content. skip;
  }

  abbrev set_storage : Server → Host A → Host A
  set_storage s h = record h { storage = s }

  abbrev pub host_server : TelnetOption (Host A)
  host_server = server (λ h. h.storage) set_storage host_option

  abbrev pub host_call : Call → Host A → Host A
  host_call (sets var name value) =
      server_set_variable (λ h. h.storage) set_storage host_option name value
  host_call (sets uservar name value) =
      server_set_user_variable (λ h. h.storage) set_storage host_option name value
  host_call (deletes var name) =
      server_delete_variable (λ h. h.storage) set_storage host_option name
  host_call (deletes uservar name) =
      server_delete_user_variable (λ h. h.storage) set_storage host_option name

  abbrev pub on_app : (Bytes → A → A) → Bytes → Host A → Host A
  on_app f bs h = record h { app = f bs h.app }

  write_all-host :
      (spans : List Bytes) (h : Host A)
      → write_all host_channel spans h ≡ record h { sent = h.sent ++ concat spans }
  unfolding write_all
  write_all-host [] h = rw append-nil
  write_all-host (bs ∷ spans) h =
      write_all-host spans (record h { sent = h.sent ++ bs }) ∙ rw append_assoc

  pub write-host :
      (e : Element) (h : Host A)
      → write host_channel e h ≡ record h { sent = h.sent ++ wire (e ∷ []) }
  unfolding write
  write-host e h = rw append-nil (write_all-host (generate e) h)
