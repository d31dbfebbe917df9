-- ===== src/Session/Cutting.antt =====
-- A session (src/session.cpp) whose bytes arrive in pieces.
use telnetpp.Prelude.{◌≡◌, refl, sym, ap, ◌∙◌, List, [], ◌∷◌, ◌++◌, Bytes, concat, subst}
use telnetpp.Element.{Element, text, negotiation, subnegotiation, command}
use telnetpp.Stream.Folding.{folded, folded-append, folded-joined, folded-same, JoinsTexts}
use telnetpp.Parser.{Parser, parse}
use telnetpp.Parser.Safety.{Inv}
use telnetpp.Parser.Chunks.{parse_all, parse_all-concat}
use telnetpp.Generator.RoundTrip.{AllSendable, wire}
use telnetpp.Session.{Channel, Session, Install, installed, token_handler, handle_all, receive}
use telnetpp.Session.Registration.{handled}
use telnetpp.Session.Delivery.{delivered, receive-wire, installed-parser}

module _ {W : Type 0} (callback : Bytes → W → W) where
  -- A call of the channel's callback for each piece.
  unfoldable pub receive_pieces : List Bytes → Session W × W → Session W × W
  receive_pieces [] x = x
  receive_pieces (bs ∷ pieces) x = receive_pieces pieces (receive callback bs x)

  -- The application takes text in as a whole or in pieces alike.
  abbrev pub Joins : Type 0
  Joins =
      ((w : W) → callback [] w ≡ w)
      × ((a b : Bytes) (w : W) → callback b (callback a w) ≡ callback (a ++ b) w)

  token_handler-JoinsTexts : (s : Session W) → Joins → JoinsTexts (token_handler s callback)
  unfolding token_handler
  token_handler-JoinsTexts s joins = joins

  handle_all-folded :
      (s : Session W) (p : Parser) (es : List Element) (w : W)
      → handle_all (record s { parser = p }) callback es w ≡ folded (token_handler s callback) es w
  unfolding handle_all token_handler
  handle_all-folded s p [] w = refl
  handle_all-folded s p (text bs ∷ es) w = handle_all-folded s p es _
  handle_all-folded s p (negotiation n ∷ es) w = handle_all-folded s p es _
  handle_all-folded s p (subnegotiation n ∷ es) w = handle_all-folded s p es _
  handle_all-folded s p (command c ∷ es) w = handle_all-folded s p es _

  abbrev read : Session W → W → Parser × List Element → Session W × W
  read s w (p, es) = (record s { parser = p }, folded (token_handler s callback) es w)

  module _ (joins : Joins) (s : Session W) where
    receive-read :
        (bs : Bytes) (p : Parser) (w : W)
        → receive callback bs (record s { parser = p }, w) ≡ read s w (parse bs p)
    unfolding receive
    receive-read bs p w =
        ap (λ z. (record s { parser = (parse bs p).0 }, z))
          (joins.0 _ ∙ handle_all-folded s p (parse bs p).1 w)

    receive_pieces-read :
        (pieces : List Bytes) (p : Parser) (w : W)
        → receive_pieces pieces (record s { parser = p }, w) ≡ read s w (parse_all pieces p)
    unfolding receive_pieces parse_all
    receive_pieces-read [] p w = refl
    receive_pieces-read (bs ∷ pieces) p w =
        ap (receive_pieces pieces) (receive-read bs p w)
        ∙ receive_pieces-read pieces (parse bs p).0 _
        ∙ ap (λ z. (record s { parser = (parse_all pieces (parse bs p).0).0 }, z))
            (sym (
              folded-append (token_handler s callback) (parse bs p).1
                (parse_all pieces (parse bs p).0).1 w))

    -- A session with any handlers reads bytes that are cut anywhere: its parser, and all that its
    -- handlers and the application have changed, are then what they are where it reads the bytes at
    -- once, from any state in which a read can have left the parser, if the application takes text
    -- in as a whole or in pieces alike.
    pub receive_pieces-concat :
        (pieces : List Bytes) (w : W)
        → Inv s.parser
        → s.parser.plain_data ≡ []
        → receive_pieces pieces (s, w) ≡ receive callback (concat pieces) (s, w)
    receive_pieces-concat pieces w inv ready =
        let (last, same) = parse_all-concat pieces s.parser inv ready in
        receive_pieces-read pieces s.parser w
        ∙ ap
            (λ p. (
              record s { parser = p },
              folded (token_handler s callback) (parse_all pieces s.parser).1 w,
            ))
            last
        ∙ ap (λ z. (record s { parser = (parse (concat pieces) s.parser).0 }, z))
            (folded-same (token_handler s callback) (token_handler-JoinsTexts s joins)
              (parse_all pieces s.parser).1 (parse (concat pieces) s.parser).1 w same)
        ∙ sym (receive-read (concat pieces) s.parser w)

module _ {W : Type 0} (channel : Channel W) where
  -- A session on which any commands and options have been installed, in any order, reads the bytes of
  -- elements that the protocol can express, cut anywhere. Then all is as if each text, as it was
  -- written, had reached the application, and each other element the latest of what was installed for
  -- it, in order, if the application takes text in as a whole or in pieces alike.
  pub receive_pieces-wire :
      (is : List (Install W)) (callback : Bytes → W → W) (es : List Element) (pieces : List Bytes)
      (w : W)
      → Joins callback
      → AllSendable es
      → concat pieces ≡ wire es
      → (receive_pieces callback pieces (installed channel is, w)).1
        ≡ delivered channel is callback es w
  receive_pieces-wire is callback es pieces w joins s e =
      let new = installed-parser channel is in
      ap (λ (x : Session W × W). x.1)
        (receive_pieces-concat callback joins (installed channel is) pieces w
          (subst Inv (sym new) tt) (ap (λ (p : Parser). p.plain_data) new))
      ∙ ap (λ bs. (receive callback bs (installed channel is, w)).1) e
      ∙ receive-wire channel is callback es w s
      ∙ joins.0 _
      ∙ folded-joined (handled channel is callback) joins es w
