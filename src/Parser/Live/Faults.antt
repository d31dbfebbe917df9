-- ===== src/Parser/Live/Faults.antt =====
-- The parser (include/telnetpp/parser.hpp) where a continuation throws.
use telnetpp.Prelude.{
  ℕ, ◌≡◌, refl, ap, ◌∙◌, Bool, [], ◌∷◌, ◌++◌, append-nil, append_assoc, Bytes, ◌==◌, if◌then◌else◌,
  Bool-cases, inl, inr, ==_iff,
}
use telnetpp.Core.{iac}
use telnetpp.Element.{Element, text}
use telnetpp.Generator.Escape.{escaped}
use telnetpp.Parser.{Parser, state_idle, state_negotiation}
use telnetpp.Parser.Live.{
  Live, Ended, returned, thrown, and_then, live_emit_plain_data, live_parse_byte, live_parse_bytes,
  live_parse,
}
use telnetpp.Parser.Live.Batch.{acting}

module _ {R : Type 0} (c : Element → Live R → Ended R) where
  -- Bytes of text are kept, and the continuation is not called.
  pub live_parse_bytes-escaped :
      (bs d : Bytes) (p : Parser) (r : R)
      → live_parse_bytes c
          (escaped bs)
          (record { parser = record p { state = state_idle; plain_data = d }; rest = r })
        ≡ returned
            (record { parser = record p { state = state_idle; plain_data = d ++ bs }; rest = r })
  unfolding live_parse_bytes live_parse_byte
  live_parse_bytes-escaped [] d p r = rw (append-nil d) refl
  live_parse_bytes-escaped (by ∷ bs) d p r =
      let later =
        live_parse_bytes-escaped bs (d ++ by ∷ []) p r
        ∙ ap
            (λ x.
              returned
                (record { parser = record p { state = state_idle; plain_data = x }; rest = r }))
            (append_assoc d (by ∷ []) bs) in
      elim (Bool-cases (by == iac)) [
        | inl e ↦ rw e (rw ((==_iff by iac).0 e) (rw ((==_iff by iac).0 e) at later))
        | inr e ↦ rw e (rw e later)
      ]

-- The parser between messages, with the text that it holds.
abbrev pub idle : Bytes → Parser → Parser
idle d p = record p { state = state_idle; plain_data = d }

-- The parser that has read the request of a negotiation and waits for the option.
abbrev pub awaiting : ℕ → Parser → Parser
awaiting request p = record p {
  state = state_negotiation;
  plain_data = [];
  negotiation_type = request;
}

-- The next call, with a continuation that returns.
module _ {R : Type 0} (g : Element → R → R) where
  pub text-again :
      (by : ℕ) (bs more : Bytes) (p : Parser) (r : R)
      → live_parse (acting g) (escaped more) (record { parser = idle (by ∷ bs) p; rest = r })
        ≡ returned (record { parser = idle [] p; rest = g (text ((by ∷ bs) ++ more)) r })
  unfolding live_parse live_emit_plain_data
  text-again by bs more p r =
      ap (λ x. and_then x (live_emit_plain_data (acting g)))
        (live_parse_bytes-escaped (acting g) more (by ∷ bs) p r)

module _ {R : Type 0} (throws : Element → R → Bool) (f : Element → R → R) where
  -- A continuation that leaves the parser alone, and throws or not.
  abbrev pub failing : Element → Live R → Ended R
  failing e w =
      if throws e w.rest
      then thrown (record w { rest = f e w.rest })
      else returned (record w { rest = f e w.rest })

-- The state in which a caller that catches the exception finds the parser.
abbrev pub caught : {R : Type 0} → Ended R → Live R
caught (returned w) = w
caught (thrown w) = w
