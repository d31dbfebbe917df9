-- ===== src/Parser/Live.antt =====
-- The parser (include/telnetpp/parser.hpp) as it runs, together with the continuation that it calls:
-- what the continuation changes, and an exception that it throws, in the order of the source.
pub mod Batch
pub mod Faults
pub mod Nested
use telnetpp.Prelude.{ℕ, ◌||◌, List, [], ◌∷◌, ◌++◌, ◌==◌, if◌then◌else◌, is_empty, Bytes}
use telnetpp.Core.{iac, will, wont, do_, dont, sb, se}
use telnetpp.Element.{Element, text, negotiation, subnegotiation, command}
use telnetpp.Parser.{
  Parser, ParsingState, state_idle, state_iac, state_negotiation, state_subnegotiation,
  state_subnegotiation_content, state_subnegotiation_content_iac,
}

-- The parser and `R`, all else that a call can change.
pub record Live (R : Type 0) : Type 0 where
  pub parser : Parser
  pub rest : R

-- A call returns, or an exception leaves it.
pub data Ended (R : Type 0) : Type 0 where
  returned thrown : Live R → Ended R

-- One statement, then the next: each says what it does to the state.
infixl 5 ◌⨾◌
abbrev pub and_then : {R : Type 0} → Ended R → (Live R → Ended R) → Ended R
and_then (returned w) g = g w
and_then (thrown w) g = thrown w

abbrev pub ◌⨾◌ : {R : Type 0} → (Live R → Ended R) → (Live R → Ended R) → Live R → Ended R
◌⨾◌ f g w = and_then (f w) g

module _ {R : Type 0} where
  -- An assignment to members of the parser.
  abbrev pub assigns : (Parser → Parser) → Live R → Ended R
  assigns f w = returned (record w { parser = f w.parser })

  abbrev enters : ParsingState → Live R → Ended R
  enters s = assigns (λ p. record p { state = s })

  abbrev pushes_plain : ℕ → Live R → Ended R
  pushes_plain by = assigns (λ p. record p { plain_data = p.plain_data ++ by ∷ [] })

  abbrev pushes_content : ℕ → Live R → Ended R
  pushes_content by =
      assigns (λ p. record p { subnegotiation_content = p.subnegotiation_content ++ by ∷ [] })

module _ {R : Type 0} (c : Element → Live R → Ended R) where
  unfoldable pub live_emit_plain_data : Live R → Ended R
  live_emit_plain_data w =
      if is_empty w.parser.plain_data
      then returned w
      else (c (text w.parser.plain_data) ⨾ assigns (λ p. record p { plain_data = [] })) w

  unfoldable pub live_parse_idle : ℕ → Live R → Ended R
  live_parse_idle by = if by == iac then enters state_iac else pushes_plain by

  unfoldable pub live_parse_iac : ℕ → Live R → Ended R
  unfolding live_emit_plain_data
  live_parse_iac by =
      if by == iac
      then pushes_plain by ⨾ enters state_idle
      else if by == will || by == wont || by == do_ || by == dont
      then live_emit_plain_data
        ⨾ assigns (λ p. record p { negotiation_type = by })
        ⨾ enters state_negotiation
      else if by == sb
      then live_emit_plain_data ⨾ enters state_subnegotiation
      else (live_emit_plain_data ⨾ c (command (record { value = by })) ⨾ enters state_idle)

  unfoldable pub live_parse_negotiation : ℕ → Live R → Ended R
  live_parse_negotiation by w =
      (c (negotiation (record { request = w.parser.negotiation_type; option_code = by }))
          ⨾ enters state_idle)
        w

  unfoldable pub live_parse_subnegotiation : ℕ → Live R → Ended R
  live_parse_subnegotiation by =
      assigns (λ p. record p { subnegotiation_option = by })
      ⨾ assigns (λ p. record p { subnegotiation_content = [] })
      ⨾ enters state_subnegotiation_content

  unfoldable pub live_parse_subnegotiation_content : ℕ → Live R → Ended R
  live_parse_subnegotiation_content by =
      if by == iac then enters state_subnegotiation_content_iac else pushes_content by

  unfoldable pub live_parse_subnegotiation_content_iac : ℕ → Live R → Ended R
  live_parse_subnegotiation_content_iac by w =
      if by == se
      then (c (
              subnegotiation (record {
                option = w.parser.subnegotiation_option;
                content = w.parser.subnegotiation_content;
              }))
            ⨾ enters state_idle)
          w
      else (pushes_content by ⨾ enters state_subnegotiation_content) w

  -- The switch on the state.
  unfoldable pub live_parse_in : ParsingState → ℕ → Live R → Ended R
  unfolding live_parse_idle live_parse_iac live_parse_negotiation live_parse_subnegotiation
      live_parse_subnegotiation_content live_parse_subnegotiation_content_iac
  live_parse_in state_idle = live_parse_idle
  live_parse_in state_iac = live_parse_iac
  live_parse_in state_negotiation = live_parse_negotiation
  live_parse_in state_subnegotiation = live_parse_subnegotiation
  live_parse_in state_subnegotiation_content = live_parse_subnegotiation_content
  live_parse_in state_subnegotiation_content_iac = live_parse_subnegotiation_content_iac

  unfoldable pub live_parse_byte : ℕ → Live R → Ended R
  unfolding live_parse_in
  live_parse_byte by w = live_parse_in w.parser.state by w

  unfoldable pub live_parse_bytes : Bytes → Live R → Ended R
  live_parse_bytes [] w = returned w
  live_parse_bytes (by ∷ bs) w = and_then (live_parse_byte by w) (live_parse_bytes bs)

  unfoldable pub live_parse : Bytes → Live R → Ended R
  unfolding live_parse_bytes live_emit_plain_data
  live_parse bs = live_parse_bytes bs ⨾ live_emit_plain_data
