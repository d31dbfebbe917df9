-- ===== src/Parser.antt =====
-- The telnet parser (include/telnetpp/parser.hpp): a state machine over bytes. The elements that
-- a call hands to its continuation are returned, in the order of the calls.
pub mod Safety
pub mod Chunks
pub mod Opening
pub mod Live
use telnetpp.Prelude.{ℕ, ◌||◌, List, [], ◌∷◌, ◌++◌, ◌==◌, if◌then◌else◌, is_empty, Bytes}
use telnetpp.Core.{iac, will, wont, do_, dont, sb, se}
use telnetpp.Element.{Element, text, negotiation, subnegotiation, command}

pub data ParsingState : Type 0 where
  state_idle state_iac state_negotiation state_subnegotiation : ParsingState
  state_subnegotiation_content state_subnegotiation_content_iac : ParsingState

pub record Parser : Type 0 where
  pub state : ParsingState
  pub plain_data : Bytes
  pub subnegotiation_content : Bytes
  pub negotiation_type : ℕ
  pub subnegotiation_option : ℕ

-- A new parser; the last two members start with no value in the source, here 0.
abbrev pub initial : Parser
initial = record {
  state = state_idle;
  plain_data = [];
  subnegotiation_content = [];
  negotiation_type = 0;
  subnegotiation_option = 0;
}

pub emit_plain_data : Parser → Parser × List Element
emit_plain_data p =
    if is_empty p.plain_data
    then (p, [])
    else (record p { plain_data = [] }, text p.plain_data ∷ [])

pub parse_idle : ℕ → Parser → Parser × List Element
parse_idle by p =
    if by == iac
    then (record p { state = state_iac }, [])
    else (record p { plain_data = p.plain_data ++ by ∷ [] }, [])

pub parse_iac : ℕ → Parser → Parser × List Element
parse_iac by p =
    if by == iac
    then (record p { plain_data = p.plain_data ++ by ∷ []; state = state_idle }, [])
    else if by == will || by == wont || by == do_ || by == dont
    then (let (q, out) = emit_plain_data p in
        (record q { negotiation_type = by; state = state_negotiation }, out))
    else if by == sb
    then (let (q, out) = emit_plain_data p in (record q { state = state_subnegotiation }, out))
    else (let (q, out) = emit_plain_data p in
        (record q { state = state_idle }, out ++ command (record { value = by }) ∷ []))

pub parse_negotiation : ℕ → Parser → Parser × List Element
parse_negotiation by p = (
  record p { state = state_idle },
  negotiation (record { request = p.negotiation_type; option_code = by }) ∷ [],
)

pub parse_subnegotiation : ℕ → Parser → Parser × List Element
parse_subnegotiation by p = (
  record p {
    subnegotiation_option = by;
    subnegotiation_content = [];
    state = state_subnegotiation_content;
  },
  [],
)

pub parse_subnegotiation_content : ℕ → Parser → Parser × List Element
parse_subnegotiation_content by p =
    if by == iac
    then (record p { state = state_subnegotiation_content_iac }, [])
    else (record p { subnegotiation_content = p.subnegotiation_content ++ by ∷ [] }, [])

pub parse_subnegotiation_content_iac : ℕ → Parser → Parser × List Element
parse_subnegotiation_content_iac by p =
    if by == se
    then (
      record p { state = state_idle },
      subnegotiation
            (record { option = p.subnegotiation_option; content = p.subnegotiation_content })
          ∷ [],
    )
    else (
      record p {
        subnegotiation_content = p.subnegotiation_content ++ by ∷ [];
        state = state_subnegotiation_content;
      },
      [],
    )

-- The switch on the state.
pub parse_in : ParsingState → ℕ → Parser → Parser × List Element
unfolding parse_idle parse_iac parse_negotiation parse_subnegotiation parse_subnegotiation_content
    parse_subnegotiation_content_iac
parse_in state_idle = parse_idle
parse_in state_iac = parse_iac
parse_in state_negotiation = parse_negotiation
parse_in state_subnegotiation = parse_subnegotiation
parse_in state_subnegotiation_content = parse_subnegotiation_content
parse_in state_subnegotiation_content_iac = parse_subnegotiation_content_iac

unfoldable pub parse_byte : ℕ → Parser → Parser × List Element
unfolding parse_in emit_plain_data
parse_byte by p = parse_in p.state by p

-- The loop over the bytes of a call.
unfoldable pub parse_bytes : Bytes → Parser → Parser × List Element
parse_bytes [] p = (p, [])
parse_bytes (by ∷ bs) p =
    let (q, out) = parse_byte by p in let (r, rest) = parse_bytes bs q in (r, out ++ rest)

-- `parser::operator()`: the loop, then the plain data that is left.
unfoldable pub parse : Bytes → Parser → Parser × List Element
unfolding emit_plain_data
parse bs p =
    let (q, out) = parse_bytes bs p in let (r, rest) = emit_plain_data q in (r, out ++ rest)
