-- ===== src/Parser/Opening.antt =====
-- The parser (include/telnetpp/parser.hpp) on a subnegotiation with no content, whose last byte comes
-- alone.
use telnetpp.Prelude.{◌≡◌, refl, [], ◌∷◌, ℕ, arith}
use telnetpp.Core.{iac, sb, se}
use telnetpp.Element.{subnegotiation}
use telnetpp.Parser.{
  Parser, state_idle, state_subnegotiation_content_iac, parse, parse_byte, parse_bytes,
  emit_plain_data,
}

-- The parser in front of that byte, and behind it.
abbrev pub opened : ℕ → Parser → Parser
opened o p = record p {
  state = state_subnegotiation_content_iac;
  plain_data = [];
  subnegotiation_option = o;
  subnegotiation_content = [];
}

abbrev pub closed : ℕ → Parser → Parser
closed o p = record (opened o p) { state = state_idle }

pub parse-opening :
    (o : ℕ) (p : Parser)
    → p.state ≡ state_idle
    → p.plain_data ≡ []
    → parse (iac ∷ sb ∷ o ∷ iac ∷ []) p ≡ (opened o p, [])
unfolding parse parse_bytes parse_byte emit_plain_data
parse-opening o p idle ready = ground arith

pub parse-closing :
    (o : ℕ) (p : Parser)
    → parse (se ∷ []) (opened o p)
      ≡ (closed o p, subnegotiation (record { option = o; content = [] }) ∷ [])
unfolding parse parse_bytes parse_byte emit_plain_data
parse-closing o p = refl
