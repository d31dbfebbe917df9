-- ===== src/Rot13/Connection/Terminal.antt =====
-- The terminal's type, from its negotiation to the application
-- (examples/rot13server/src/connection.cpp).
use telnetpp.Prelude.{◌≡◌, refl, ap, ◌∙◌, List, [], ◌∷◌, Bytes, arith}
use telnetpp.Core.{will}
use telnetpp.Element.{Element, negotiation, subnegotiation}
use telnetpp.Generator.{generate}
use telnetpp.Generator.RoundTrip.{wire}
use telnetpp.TelnetOption.{activating, active, negotiate, subnegotiate}
use telnetpp.Session.{Channel, write_all, write}
use telnetpp.Session.Delivery.{receive-wire}
use telnetpp.Options.TerminalType.{send, client_handle_subnegotiation, handle_subnegotiation}
use telnetpp.Rot13.Connection.{
  Connection, call_each, on_terminal_type_detected, channel, telnet_session, installs, async_read,
  read_callback, terminal_state_changed, telnet_terminal_type_client,
}

module _ {A : Type 0} (socket : Channel A) where
  write_all-channel :
      (spans : List Bytes) (c : Connection A)
      → write_all (channel socket) spans c ≡ record c { app = write_all socket spans c.app }
  unfolding write_all
  write_all-channel [] c = refl
  write_all-channel (bs ∷ spans) c =
      write_all-channel spans (record c { app = socket.write_bytes bs c.app })

  pub write-channel :
      (e : Element) (c : Connection A)
      → write (channel socket) e c ≡ record c { app = write_all socket (generate e) c.app }
  unfolding write
  write-channel e c = write_all-channel (generate e) c

  abbrev pub terminal_will : Element
  terminal_will = negotiation (record { request = will; option_code = 24 })

  abbrev pub terminal_is : Bytes → Element
  terminal_is name = subnegotiation (record { option = 24; content = 0 ∷ name })

  abbrev pub terminal_send : Element
  terminal_send = subnegotiation (record { option = 24; content = send ∷ [] })

  pub negotiate-terminal :
      (c : Connection A)
      → c.terminal ≡ activating
      → negotiate (telnet_terminal_type_client socket) will c
        ≡ record c { terminal = active; app = write_all socket (generate terminal_send) c.app }
  unfolding negotiate terminal_state_changed
  negotiate-terminal c e = rw e (write-channel terminal_send (record c { terminal = active }))

  pub subnegotiate-terminal :
      (name : Bytes) (c : Connection A)
      → c.terminal ≡ active
      → subnegotiate (telnet_terminal_type_client socket) (0 ∷ name) c ≡ record c {
        terminal_type = name;
        terminal_type_requests = [];
        app = call_each c.terminal_type_requests name c.app;
      }
  unfolding subnegotiate client_handle_subnegotiation handle_subnegotiation
      on_terminal_type_detected
  subnegotiate-terminal name c e = ground arith

  -- A terminal that was asked for its type agrees and then, asked by the slot, sends it, in one
  -- read: the request has been written, each function that waits for the type has been called with
  -- it, in order, and none waits any more, and then the read is complete.
  async_read-terminal_is :
      (data_continuation : Bytes → Connection A → Connection A)
      (read_complete_continuation : Connection A → Connection A) (name : Bytes) (c : Connection A)
      → c.terminal ≡ activating
      → (async_read socket data_continuation read_complete_continuation
          (wire (terminal_will ∷ terminal_is name ∷ []))
          (telnet_session socket, c)).1
        ≡ read_complete_continuation (record c {
          terminal = active;
          terminal_type = name;
          terminal_type_requests = [];
          app =
              call_each c.terminal_type_requests name
                (write_all socket (generate terminal_send) c.app);
        })
  unfolding async_read
  async_read-terminal_is data_continuation read_complete_continuation name c e =
      receive-wire (channel socket) (installs socket)
        (read_callback socket data_continuation read_complete_continuation)
        (terminal_will ∷ terminal_is name ∷ []) c (refl, (tt, tt))
      ∙ ap
          (λ d.
            read_complete_continuation
              (subnegotiate (telnet_terminal_type_client socket) (0 ∷ name) d))
          (negotiate-terminal c e)
      ∙ ap read_complete_continuation (
          subnegotiate-terminal name
            (record c { terminal = active; app = write_all socket (generate terminal_send) c.app })
            refl)
