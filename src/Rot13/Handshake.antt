-- ===== src/Rot13/Handshake.antt =====
-- A terminal that agrees to what a connection of the server asks for
-- (examples/rot13server/src/rot13_server.cpp, connection.cpp).
use telnetpp.Prelude.{
  ℕ, ◌^◌, ◌<◌, ◌≡◌, refl, ap, ◌∙◌, true, List, [], ◌∷◌, ◌++◌, Bytes, concat, some, arith,
}
use telnetpp.Core.{will, do_}
use telnetpp.Element.{Element, negotiation, subnegotiation}
use telnetpp.Generator.{generate}
use telnetpp.Generator.RoundTrip.{AllSendable, wire}
use telnetpp.TelnetOption.{activating, active, activate, negotiate, subnegotiate}
use telnetpp.Session.{Channel, Session, write_all, write}
use telnetpp.Session.Delivery.{delivered}
use telnetpp.Options.Naws.{high_byte, low_byte, join_bytes}
use telnetpp.Options.Naws
use telnetpp.Options.Naws.Peers
use telnetpp.Rot13.Connection.{
  Connection, telnet_terminal_type_client, telnet_naws_client, channel, installs,
  on_window_size_changed, terminal_state_changed, activate_options, new_connection,
  async_get_terminal_type, set_window_size_function,
}
use telnetpp.Rot13.Connection.Terminal.{write-channel, terminal_send, subnegotiate-terminal}
use telnetpp.Stream.Folding.{folded-append}
use telnetpp.Rot13.Conversation.{AllOther, answers, IsStream, handles, delivered-sends}
use telnetpp.Rot13.Owners.{owns}
use telnetpp.Rot13.Server.{accept}
use telnetpp.Rot13.Serving.{Event, served, lifetime}
use telnetpp.Rot13.Answers.{served-delivered}

-- What the terminal sends.
abbrev pub size_content : ℕ → ℕ → Bytes
size_content width height =
    high_byte width ∷ low_byte width ∷ high_byte height ∷ low_byte height ∷ []

abbrev pub agrees : List Element
agrees =
    negotiation (record { request = do_; option_code = 1 })
    ∷ negotiation (record { request = do_; option_code = 3 })
    ∷ negotiation (record { request = will; option_code = 31 })
    ∷ negotiation (record { request = will; option_code = 24 })
    ∷ []

abbrev pub describes : ℕ → ℕ → Bytes → List Element
describes width height name =
    subnegotiation (record { option = 31; content = size_content width height })
    ∷ subnegotiation (record { option = 24; content = 0 ∷ name })
    ∷ []

join_bytes-bytes : (n : ℕ) → n < 2 ^ 16 → join_bytes (high_byte n) (low_byte n) ≡ n
join_bytes-bytes n h = omega arith

module _ {A : Type 0} (socket : Channel A) where
  -- A connection that has asked for all its options.
  abbrev pub requested : (ℕ → ℕ → A → A) → (Bytes → A → A) → A → Connection A
  requested print_size print_type a = record {
    echo = activating;
    suppress_ga = activating;
    naws = activating;
    terminal = activating;
    window_size_function = some print_size;
    terminal_type = [];
    terminal_type_requests = print_type ∷ [];
    app = a;
  }

  -- The same once they are active, and the terminal's size and its type are known.
  abbrev pub described : (ℕ → ℕ → A → A) → (Bytes → A → A) → ℕ → ℕ → Bytes → A → Connection A
  described print_size print_type width height name a = record {
    echo = active;
    suppress_ga = active;
    naws = active;
    terminal = active;
    window_size_function = some print_size;
    terminal_type = name;
    terminal_type_requests = [];
    app =
        print_type name
          (print_size width height (write_all socket (generate (terminal_send socket)) a));
  }

  accept-requested :
      (print_size : ℕ → ℕ → A → A) (print_type : Bytes → A → A) (a : A)
      → accept socket print_type print_size a
        ≡ requested print_size print_type (accept socket print_type print_size a).app
  unfolding accept new_connection activate_options activate async_get_terminal_type
      set_window_size_function write generate
  accept-requested print_size print_type a = refl

  -- The same once they are active, with `a` for what the application has become.
  abbrev agreed : (ℕ → ℕ → A → A) → (Bytes → A → A) → A → Connection A
  agreed print_size print_type a = record (requested print_size print_type a) {
    echo = active;
    suppress_ga = active;
    naws = active;
    terminal = active;
  }

  delivered-agrees :
      (callback : Bytes → Connection A → Connection A) (print_size : ℕ → ℕ → A → A)
      (print_type : Bytes → A → A) (a : A)
      → delivered
          (channel socket)
          (installs socket)
          callback
          agrees
          (requested print_size print_type a)
        ≡ agreed print_size print_type (write_all socket (generate (terminal_send socket)) a)
  unfolding negotiate terminal_state_changed
  delivered-agrees callback print_size print_type a =
      write-channel socket (terminal_send socket) (agreed print_size print_type a)

  subnegotiate-naws :
      (width height : ℕ) (print_size : ℕ → ℕ → A → A) (print_type : Bytes → A → A) (a : A)
      → width < 2 ^ 16
      → height < 2 ^ 16
      → subnegotiate
          (telnet_naws_client socket)
          (size_content width height)
          (agreed print_size print_type a)
        ≡ agreed print_size print_type (print_size width height a)
  unfolding subnegotiate Peers.client_handle_subnegotiation Naws.handle_subnegotiation
      on_window_size_changed
  subnegotiate-naws width height print_size print_type a lw lh =
      rw (join_bytes-bytes width lw, join_bytes-bytes height lh) refl

  delivered-handshake :
      (callback : Bytes → Connection A → Connection A) (width height : ℕ) (name : Bytes)
      (print_size : ℕ → ℕ → A → A) (print_type : Bytes → A → A) (a : A)
      → width < 2 ^ 16
      → height < 2 ^ 16
      → delivered
          (channel socket)
          (installs socket)
          callback
          (agrees ++ describes width height name)
          (requested print_size print_type a)
        ≡ described print_size print_type width height name a
  delivered-handshake callback width height name print_size print_type a lw lh =
      let sent = write_all socket (generate (terminal_send socket)) a in
      ap (delivered (channel socket) (installs socket) callback (describes width height name))
        (delivered-agrees callback print_size print_type a)
      ∙ ap (subnegotiate (telnet_terminal_type_client socket) (0 ∷ name))
          (subnegotiate-naws width height print_size print_type sent lw lh)
      ∙ subnegotiate-terminal socket name
          (agreed print_size print_type (print_size width height sent)) refl

module _ {A : Type 0} (socket : Channel A) (print_type : Bytes → A → A)
    (print_size : ℕ → ℕ → A → A) where
  -- Sockets are accepted and reads end in any order, and the connections stay alive. One terminal
  -- agrees to the four options that the server has asked it for, sends its size, as two numbers of 16
  -- bits in four bytes, and its type, and then any elements that the protocol can express and that are for none of
  -- these options, all in pieces cut anywhere. Then the connection's options are active; it has written
  -- the request for the type, the size has been printed and then the type, and no function waits for
  -- the type any more; then it has answered the elements, each text with its letters moved by
  -- thirteen places round the alphabet, each NUL as a line feed and each of its bytes 0xFF doubled, and
  -- each negotiation with a refusal, in order; whatever happens to the other connections; provided that
  -- the socket takes in bytes in pieces or as a whole alike.
  pub served-handshake :
      (events : List (Event A)) (n : ℕ) (a : A) (reads : List Bytes) (width height : ℕ)
      (name : Bytes) (more : List Element)
      → IsStream socket
      → ((a : A) → socket.is_alive a ≡ true)
      → lifetime socket print_type print_size n events ≡ some (a, reads)
      → width < 2 ^ 16
      → height < 2 ^ 16
      → AllSendable more
      → AllOther more
      → concat reads ≡ wire ((agrees ++ describes width height name) ++ more)
      → let now =
          described socket print_size print_type width height name
            (accept socket print_type print_size a).app in
        (s : Session (Connection A)) × ((served socket print_type print_size events).objects n
          ≡ some (s, record now { app = socket.write_bytes (answers more) now.app }))
        × (owns n (served socket print_type print_size events).connections ≡ true)
  served-handshake events n a reads width height name more stream alive life lw lh s other e =
      let first = agrees ++ describes width height name in
      let begun = accept socket print_type print_size a in
      let (t, now, owned) =
        served-delivered socket print_type print_size events n a reads (first ++ more) stream alive
          life (refl, (refl, (refl, (refl, (tt, (tt, s)))))) e in
      let handled = delivered (channel socket) (installs socket) (handles socket) in
      (
        t,
        now
            ∙ ap (λ z. some (t, z))
                (ap (handled (first ++ more)) (accept-requested socket print_size print_type a)
                  ∙ folded-append _ first more _
                  ∙ ap (handled more) (
                      delivered-handshake socket (handles socket) width height name print_size
                        print_type begun.app lw lh)
                  ∙ delivered-sends socket stream more _ other),
        owned,
      )
