-- ===== src/Parser/Live/Nested.antt =====
-- The parser (include/telnetpp/parser.hpp) that its own continuation calls again.
use telnetpp.Prelude.{ℕ, ◌≡◌, ap, ◌∙◌, [], ◌∷◌, ◌++◌, Bytes}
use telnetpp.Element.{Element, text}
use telnetpp.Generator.Escape.{escaped}
use telnetpp.Parser.{Parser}
use telnetpp.Parser.Live.{Live, Ended, returned, and_then, live_emit_plain_data, live_parse}
use telnetpp.Parser.Live.Batch.{acting}
use telnetpp.Parser.Live.Faults.{idle, live_parse_bytes-escaped, text-again}

-- A continuation that, when it is done with an element, reads `more`.
abbrev pub reading :
    {R : Type 0} → (Element → R → R) → (Element → R → R) → Bytes → Element → Live R → Ended R
reading f g more e w = live_parse (acting g) more (record w { rest = f e w.rest })

-- A continuation that itself reads text, with one that returns, is given a text that is not
-- empty. Then that text is handed on once more, in front of the text that is read within, and
-- both are dropped from the parser when the calls are over.
live_parse-reading :
    {R : Type 0} (f g : Element → R → R) (by : ℕ) (bs more : Bytes) (p : Parser) (r : R)
    → live_parse
        (reading f g (escaped more))
        (escaped (by ∷ bs))
        (record { parser = idle [] p; rest = r })
      ≡ returned (record {
        parser = idle [] p;
        rest = g (text ((by ∷ bs) ++ more)) (f (text (by ∷ bs)) r);
      })
unfolding live_parse live_emit_plain_data
live_parse-reading f g by bs more p r =
    ap (λ x. and_then x (live_emit_plain_data (reading f g (escaped more))))
      (live_parse_bytes-escaped (reading f g (escaped more)) (by ∷ bs) [] p r)
    ∙ ap
        (λ x.
          and_then x (λ w. returned (record w { parser = record w.parser { plain_data = [] } })))
        (text-again g by bs more p (f (text (by ∷ bs)) r))
