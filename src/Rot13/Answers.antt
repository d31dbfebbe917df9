-- ===== src/Rot13/Answers.antt =====
-- The server's connections together (examples/rot13server/src/rot13_server.cpp), from the bytes that
-- arrive for one of them to those that are written.
use telnetpp.Prelude.{
  ℕ, ◌≡◌, refl, ap, ◌∙◌, Bool, true, false, ◌||◌, List, Bytes, some, is_empty, concat, subst,
}
use telnetpp.Element.{Element}
use telnetpp.Generator.RoundTrip.{AllSendable, wire}
use telnetpp.Session.{Channel, Session}
use telnetpp.Session.Delivery.{delivered}
use telnetpp.Rot13.Connection.{channel, installs, Connection}
use telnetpp.Rot13.Conversation.{
  AllOther, answers, IsStream, schedule_read-delivered, delivered-sends, handles,
}
use telnetpp.Rot13.Owners.{owns}
use telnetpp.Rot13.Server.{accept}
use telnetpp.Rot13.Serving.{Event, served, lifetime, HasLife, alone, served-lifetime}

or_true : (b : Bool) → (b || true) ≡ true
or_true true = refl
or_true false = refl

module _ {A : Type 0} (socket : Channel A) (print_type : Bytes → A → A)
    (print_size : ℕ → ℕ → A → A) where
  -- What has arrived for one connection is the bytes of any elements that the protocol can express.
  pub served-delivered :
      (events : List (Event A)) (n : ℕ) (a : A) (reads : List Bytes) (es : List Element)
      → IsStream socket
      → ((a : A) → socket.is_alive a ≡ true)
      → lifetime socket print_type print_size n events ≡ some (a, reads)
      → AllSendable es
      → concat reads ≡ wire es
      → let c = accept socket print_type print_size a in
        (s : Session (Connection A)) × ((served socket print_type print_size events).objects n
          ≡ some (s, delivered (channel socket) (installs socket) (handles socket) es c))
        × (owns n (served socket print_type print_size events).connections ≡ true)
  served-delivered events n a reads es stream alive life s e =
      let c = accept socket print_type print_size a in
      let now =
        subst (HasLife socket print_type print_size n (served socket print_type print_size events))
          life (served-lifetime socket print_type print_size events n) in
      let told = schedule_read-delivered socket stream es reads c alive s e in
      (
        (alone socket print_type print_size a reads).0.0,
        now.0 ∙ ap (λ z. some ((alone socket print_type print_size a reads).0.0, z)) told.0,
        now.1 ∙ ap (λ z. is_empty reads || z) told.1 ∙ or_true (is_empty reads),
      )

  -- Sockets are accepted and reads end in any order, and the connections stay alive. Where what has
  -- arrived for one of them since it was accepted is, in pieces cut anywhere, the bytes of any elements
  -- that the protocol can express and that are for none of its options, the server still owns it, and
  -- has written to its socket, behind what was written when it was accepted, in the order of the
  -- elements, each text with its letters moved by thirteen places round the alphabet, each NUL as a
  -- line feed and each of its bytes 0xFF doubled, and a refusal of each negotiation, and nothing
  -- else of it has changed, whatever happens to the others; provided that the socket takes in bytes
  -- in pieces or as a whole alike.
  pub served-answers :
      (events : List (Event A)) (n : ℕ) (a : A) (reads : List Bytes) (es : List Element)
      → IsStream socket
      → ((a : A) → socket.is_alive a ≡ true)
      → lifetime socket print_type print_size n events ≡ some (a, reads)
      → AllSendable es
      → AllOther es
      → concat reads ≡ wire es
      → let c = accept socket print_type print_size a in
        (s : Session (Connection A)) × ((served socket print_type print_size events).objects n
          ≡ some (s, record c { app = socket.write_bytes (answers es) c.app }))
        × (owns n (served socket print_type print_size events).connections ≡ true)
  served-answers events n a reads es stream alive life s other e =
      let c = accept socket print_type print_size a in
      let (t, now, owned) = served-delivered events n a reads es stream alive life s e in
      (t, now ∙ ap (λ z. some (t, z)) (delivered-sends socket stream es c other), owned)
