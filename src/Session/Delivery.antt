-- ===== src/Session/Delivery.antt =====
-- What a session makes of the bytes of a sequence of elements, with any handlers installed.
use telnetpp.Prelude.{◌≡◌, refl, ap, ◌∙◌, List, [], ◌∷◌, Bytes, some}
use telnetpp.Element.{Element, Subnegotiation, subnegotiation}
use telnetpp.Stream.{coalesce}
use telnetpp.Stream.Folding.{folded}
use telnetpp.Parser.{initial, parse}
use telnetpp.Generator.RoundTrip.{AllSendable, wire, parse-wire-initial}
use telnetpp.TelnetOption.{TelnetOption, active, subnegotiate}
use telnetpp.Session.{
  Channel, Install, command_handler, client_option, server_option, install, installed, new_session,
  handle_all, receive,
}
use telnetpp.Session.Registration.{subnegotiation_target, handled, token_handler-installed}

module _ {W : Type 0} (channel : Channel W) (is : List (Install W)) (callback : Bytes → W → W) where
  -- Each element in turn: text to the application, the others to the latest of what was installed
  -- for them.
  abbrev pub delivered : List Element → W → W
  delivered = folded (handled channel is callback)

  handle_all-delivered :
      (es : List Element) (w : W) → handle_all (installed channel is) callback es w ≡ delivered es w
  unfolding handle_all
  handle_all-delivered [] w = refl
  handle_all-delivered (e ∷ es) w =
      ap (λ f. handle_all (installed channel is) callback es (f w))
        (token_handler-installed channel is callback e)
      ∙ handle_all-delivered es (handled channel is callback e w)

module _ {W : Type 0} (channel : Channel W) where
  pub installed-parser : (is : List (Install W)) → (installed channel is).parser ≡ initial
  unfolding installed new_session install
  installed-parser [] = refl
  installed-parser (command_handler c f ∷ is) = installed-parser is
  installed-parser (client_option o ∷ is) = installed-parser is
  installed-parser (server_option o ∷ is) = installed-parser is

  -- A session on which any commands and options have been installed, in any order, reads at once
  -- the bytes of elements that the protocol can express. Then the application has been given the
  -- texts, adjacent ones joined and none of them empty, and each other element has gone to the
  -- latest of what was installed for it, all in order, and a call with no data has followed.
  pub receive-wire :
      (is : List (Install W)) (callback : Bytes → W → W) (es : List Element) (w : W)
      → AllSendable es
      → (receive callback (wire es) (installed channel is, w)).1
        ≡ callback [] (delivered channel is callback (coalesce [] es) w)
  unfolding receive
  receive-wire is callback es w s =
      ap (λ p. callback [] (handle_all (installed channel is) callback (parse (wire es) p).1 w))
        (installed-parser is)
      ∙ ap (λ out. callback [] (handle_all (installed channel is) callback out w))
          (parse-wire-initial es s).1
      ∙ ap (callback []) (handle_all-delivered channel is callback (coalesce [] es) w)

  pub subnegotiate-active :
      (o : TelnetOption W) (content : Bytes) (w : W)
      → o.state w ≡ active
      → subnegotiate o content w ≡ o.handle_subnegotiation content w
  unfolding subnegotiate
  subnegotiate-active o content w a = rw (subnegotiate, a)

  -- The bytes of one subnegotiation, for an option that is active.
  pub receive-subnegotiation :
      (is : List (Install W)) (callback : Bytes → W → W) (o : TelnetOption W) (content : Bytes)
      (w : W)
      → subnegotiation_target is o.option_code ≡ some o
      → o.state w ≡ active
      → (receive callback
          (wire (subnegotiation (record { option = o.option_code; content = content }) ∷ []))
          (installed channel is, w)).1
        ≡ callback [] (o.handle_subnegotiation content w)
  receive-subnegotiation is callback o content w t a =
      let sub : Subnegotiation = record { option = o.option_code; content = content } in
      receive-wire is callback (subnegotiation sub ∷ []) w (tt, tt)
      ∙ rw t (ap (callback []) (subnegotiate-active o content w a))
