-- ===== src/Session/Live/Reading.antt =====
-- What a session that runs live (src/session.cpp) makes of the bytes of a sequence of elements.
use telnetpp.Prelude.{◌≡◌, ap, ◌∙◌, List, Bytes, []}
use telnetpp.Element.{Element}
use telnetpp.Stream.{coalesce}
use telnetpp.Parser.{Parser, initial, parse}
use telnetpp.Parser.Live.{returned, and_then}
use telnetpp.Parser.Live.Batch.{act_all, live_parse-parse}
use telnetpp.Generator.RoundTrip.{AllSendable, wire, parse-wire-initial}
use telnetpp.Session.Live.{Routed, Program, live_token_handler, live_receive}

module _ {N A : Type 0} (prog : Program N A) where
  -- The elements that the bytes hold, handled in order, and a call with no data.
  pub live_receive-parse :
      (callback : Bytes → Routed N A → Routed N A) (content : Bytes) (p : Parser) (s : Routed N A)
      → live_receive prog callback content (record { parser = p; rest = s })
        ≡ returned (record {
          parser = (parse content p).0;
          rest = callback [] (act_all (live_token_handler prog callback) (parse content p).1 s);
        })
  unfolding live_receive
  live_receive-parse callback content p s =
      ap (λ x. and_then x (λ w. returned (record w { rest = callback [] w.rest })))
        (live_parse-parse (live_token_handler prog callback) content p s)

  -- A session whose parser is new reads at once the bytes of elements that the protocol can
  -- express. Adjacent texts joined and empty ones left out, each is handled in order, by whatever
  -- the routers hold for it when it is its turn, those that the handlers of the ones in front of it have
  -- installed included; then the application is called with no data.
  live_receive-wire :
      (callback : Bytes → Routed N A → Routed N A) (es : List Element) (s : Routed N A)
      → AllSendable es
      → live_receive prog callback (wire es) (record { parser = initial; rest = s })
        ≡ returned (record {
          parser = (parse (wire es) initial).0;
          rest = callback [] (act_all (live_token_handler prog callback) (coalesce [] es) s);
        })
  live_receive-wire callback es s h =
      live_receive-parse callback (wire es) initial s
      ∙ ap
          (λ out. returned (record {
            parser = (parse (wire es) initial).0;
            rest = callback [] (act_all (live_token_handler prog callback) out s);
          }))
          (parse-wire-initial es h).1
