-- ===== src/Rot13/Connection.antt =====
-- A connection (examples/rot13server/include/connection.hpp, src/connection.cpp): a session over a
-- socket with four options.
--
-- The socket and the application's functions are parameters; `A` is all that they change. What the
-- pimpl holds is a record, and calls are functions on it. The session's routers are set up once and
-- stay beside it.
pub mod Terminal
use telnetpp.Prelude.{
  ℕ, List, [], ◌∷◌, ◌++◌, Bytes, Bool, true, false, Option, none, some, is_empty, if◌then◌else◌,
}
use telnetpp.Element.{Element}
use telnetpp.TelnetOption.{
  InternalState, inactive, TelnetOption, Polarity, client_polarity, server_polarity, is_active,
  is_option_active, activate, write_subnegotiation, skip, ◌⨾◌,
}
use telnetpp.Session.{
  Channel, Session, Install, client_option, server_option, installed, write, receive,
}
use telnetpp.Options.Basic.{echo_server, suppress_ga_server}
use telnetpp.Options.Naws.Peers
use telnetpp.Options.TerminalType
use telnetpp.Options.TerminalType.{request_terminal_type}

pub record Connection (A : Type 0) : Type 0 where
  pub echo : InternalState
  pub suppress_ga : InternalState
  pub naws : InternalState
  pub terminal : InternalState
  pub window_size_function : Option (ℕ → ℕ → A → A)
  pub terminal_type : Bytes
  pub terminal_type_requests : List (Bytes → A → A)
  pub app : A

module _ {A : Type 0} where
  -- The loop of `announce_terminal_type`.
  abbrev pub call_each : List (Bytes → A → A) → Bytes → A → A
  call_each [] type a = a
  call_each (callback ∷ callbacks) type a = call_each callbacks type (callback type a)

  unfoldable pub announce_terminal_type : Connection A → Connection A
  announce_terminal_type c = record c {
    terminal_type_requests = [];
    app = call_each c.terminal_type_requests c.terminal_type c.app;
  }

  unfoldable pub on_terminal_type_detected : Bytes → Connection A → Connection A
  unfolding announce_terminal_type
  on_terminal_type_detected type c = announce_terminal_type (record c { terminal_type = type })

  abbrev call_if : Option (ℕ → ℕ → A → A) → ℕ → ℕ → A → A
  call_if none width height a = a
  call_if (some f) width height a = f width height a

  unfoldable pub on_window_size_changed : ℕ → ℕ → Connection A → Connection A
  on_window_size_changed width height c = record c {
    app = call_if c.window_size_function width height c.app;
  }

  -- `connection::async_get_terminal_type` and `connection::on_window_size_changed`.
  unfoldable pub async_get_terminal_type : (Bytes → A → A) → Connection A → Connection A
  async_get_terminal_type continuation c = record c {
    terminal_type_requests = c.terminal_type_requests ++ continuation ∷ [];
  }

  unfoldable pub set_window_size_function : (ℕ → ℕ → A → A) → Connection A → Connection A
  set_window_size_function continuation c = record c { window_size_function = some continuation }

  -- A function of the application, on a connection.
  abbrev pub on_app : (A → A) → Connection A → Connection A
  on_app f c = record c { app = f c.app }

module _ {A : Type 0} (socket : Channel A) where
  abbrev pub channel : Channel (Connection A)
  channel = record {
    write_bytes = λ bs. on_app (socket.write_bytes bs);
    is_alive = λ c. socket.is_alive c.app;
    close = on_app socket.close;
  }

  -- An option of the session before its own class is known.
  abbrev member_option :
      Polarity
      → ℕ
      → (Connection A → InternalState)
      → (InternalState → Connection A → Connection A)
      → TelnetOption (Connection A)
  member_option polarity code state set_state = record {
    polarity = polarity;
    option_code = code;
    state = state;
    set_state = set_state;
    session_write = write channel;
    on_state_changed = skip;
    handle_subnegotiation = λ content. skip;
  }

  abbrev pub telnet_echo_server : TelnetOption (Connection A)
  telnet_echo_server =
      echo_server (member_option server_polarity 0 (λ c. c.echo) (λ s c. record c { echo = s }))

  abbrev pub telnet_suppress_ga_server : TelnetOption (Connection A)
  telnet_suppress_ga_server =
      suppress_ga_server
        (member_option server_polarity 0 (λ c. c.suppress_ga) (λ s c. record c { suppress_ga = s }))

  abbrev pub telnet_naws_client : TelnetOption (Connection A)
  telnet_naws_client =
      Peers.client on_window_size_changed
        (member_option client_polarity 0 (λ c. c.naws) (λ s c. record c { naws = s }))

  -- The terminal type client before and after the constructor has connected its slot.
  abbrev unconnected : TelnetOption (Connection A)
  unconnected =
      TerminalType.client on_terminal_type_detected
        (member_option client_polarity 0 (λ c. c.terminal) (λ s c. record c { terminal = s }))

  unfoldable pub terminal_state_changed : Connection A → Connection A
  unfolding write_subnegotiation
  terminal_state_changed c =
      if is_option_active unconnected c
      then write_subnegotiation unconnected request_terminal_type c
      else c

  abbrev pub telnet_terminal_type_client : TelnetOption (Connection A)
  telnet_terminal_type_client = record unconnected { on_state_changed = terminal_state_changed }

  -- What the constructor installs, the latest first, and the session then.
  abbrev pub installs : List (Install (Connection A))
  installs =
      client_option telnet_terminal_type_client
      ∷ client_option telnet_naws_client
      ∷ server_option telnet_suppress_ga_server
      ∷ server_option telnet_echo_server
      ∷ []

  abbrev pub telnet_session : Session (Connection A)
  telnet_session = installed channel installs

  -- The rest of the constructor.
  unfoldable pub activate_options : Connection A → Connection A
  unfolding activate
  activate_options =
      activate telnet_echo_server
      ⨾ activate telnet_suppress_ga_server
      ⨾ activate telnet_naws_client
      ⨾ activate telnet_terminal_type_client

  unfoldable pub new_connection : A → Connection A
  unfolding activate_options
  new_connection a = activate_options (record {
    echo = inactive;
    suppress_ga = inactive;
    naws = inactive;
    terminal = inactive;
    window_size_function = none;
    terminal_type = [];
    terminal_type_requests = [];
    app = a;
  })

  unfoldable pub is_alive : Connection A → Bool
  is_alive c = socket.is_alive c.app

  unfoldable pub close : Connection A → Connection A
  close = on_app socket.close

  unfoldable pub raw_write : Bytes → Connection A → Connection A
  raw_write content = on_app (socket.write_bytes content)

  unfoldable pub write_element : Element → Connection A → Connection A
  write_element = write channel

  -- The function that `async_read` hands to the session.
  abbrev pub read_callback :
      (Bytes → Connection A → Connection A)
      → (Connection A → Connection A)
      → Bytes
      → Connection A
      → Connection A
  read_callback data_continuation read_complete_continuation content =
      if is_empty content then read_complete_continuation else data_continuation content

  -- `async_read`, when the socket has read some bytes.
  unfoldable pub async_read :
      (Bytes → Connection A → Connection A)
      → (Connection A → Connection A)
      → Bytes
      → Session (Connection A) × Connection A
      → Session (Connection A) × Connection A
  async_read data_continuation read_complete_continuation =
      receive (read_callback data_continuation read_complete_continuation)
