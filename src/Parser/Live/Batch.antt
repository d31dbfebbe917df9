-- ===== src/Parser/Live/Batch.antt =====
-- The parser that runs with its continuation (include/telnetpp/parser.hpp), beside the parser that
-- collects its elements first.
use telnetpp.Prelude.{ℕ, ◌≡◌, refl, sym, ap, ◌∙◌, List, [], ◌∷◌, ◌++◌, Bytes, arith}
use telnetpp.Element.{Element}
use telnetpp.Parser.{
  Parser, ParsingState, state_idle, parse_in, parse_byte, parse_bytes, parse, emit_plain_data,
}
use telnetpp.Parser.Live.{
  Live, Ended, returned, and_then, live_emit_plain_data, live_parse_in, live_parse_byte,
  live_parse_bytes, live_parse,
}

module _ {R : Type 0} (f : Element → R → R) where
  -- A continuation that returns and leaves the parser alone.
  abbrev pub acting : Element → Live R → Ended R
  acting e w = returned (record w { rest = f e w.rest })

  abbrev pub act_all : List Element → R → R
  act_all [] r = r
  act_all (e ∷ es) r = act_all es (f e r)

  act_all-append : (xs ys : List Element) (r : R) → act_all (xs ++ ys) r ≡ act_all ys (act_all xs r)
  act_all-append [] ys r = refl
  act_all-append (e ∷ xs) ys r = act_all-append xs ys (f e r)

  abbrev batch : Parser × List Element → R → Ended R
  batch x r = returned (record { parser = x.0; rest = act_all x.1 r })

  live_emit-batch :
      (p : Parser) (r : R)
      → live_emit_plain_data acting (record { parser = p; rest = r }) ≡ batch (emit_plain_data p) r
  unfolding live_emit_plain_data emit_plain_data
  live_emit-batch p r = ground arith

  live_parse_in-batch :
      (s : ParsingState) (by : ℕ) (p : Parser) (r : R)
      → live_parse_in acting s by (record { parser = p; rest = r }) ≡ batch (parse_in s by p) r
  unfolding live_parse_in parse_in live_emit_plain_data emit_plain_data
  live_parse_in-batch state_idle by p r = ground arith
  live_parse_in-batch _ by p r = ground arith

  live_parse_bytes-batch :
      (bs : Bytes) (p : Parser) (r : R)
      → live_parse_bytes acting bs (record { parser = p; rest = r }) ≡ batch (parse_bytes bs p) r
  unfolding live_parse_bytes live_parse_byte parse_bytes parse_byte
  live_parse_bytes-batch [] p r = refl
  live_parse_bytes-batch (by ∷ bs) p r =
      ap (λ x. and_then x (live_parse_bytes acting bs)) (live_parse_in-batch p.state by p r)
      ∙ live_parse_bytes-batch bs (parse_in p.state by p).0 (act_all (parse_in p.state by p).1 r)
      ∙ ap
          (λ x.
            returned (record { parser = (parse_bytes bs (parse_in p.state by p).0).0; rest = x }))
          (sym (
            act_all-append (parse_in p.state by p).1 (parse_bytes bs (parse_in p.state by p).0).1
              r))

  -- Where each call of the continuation returns and leaves the parser alone, the parser that calls it
  -- as it goes does what collecting all the elements and then calling it for each of them in
  -- order does: the parser is left the same, and so is all else.
  pub live_parse-parse :
      (bs : Bytes) (p : Parser) (r : R)
      → live_parse acting bs (record { parser = p; rest = r })
        ≡ returned (record { parser = (parse bs p).0; rest = act_all (parse bs p).1 r })
  unfolding live_parse parse
  live_parse-parse bs p r =
      ap (λ x. and_then x (live_emit_plain_data acting)) (live_parse_bytes-batch bs p r)
      ∙ live_emit-batch (parse_bytes bs p).0 (act_all (parse_bytes bs p).1 r)
      ∙ ap (λ x. returned (record { parser = (emit_plain_data (parse_bytes bs p).0).0; rest = x }))
          (sym (act_all-append (parse_bytes bs p).1 (emit_plain_data (parse_bytes bs p).0).1 r))
