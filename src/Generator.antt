-- ===== src/Generator.antt =====
-- The byte form of an element (include/telnetpp/generator.hpp and detail/generate_helper.hpp).
-- Each span that a function hands to its continuation is one entry of the returned list.
pub mod Escape
pub mod RoundTrip
use telnetpp.Prelude.{ℕ, List, [], ◌∷◌, ◌++◌, ◌==◌, if◌then◌else◌, is_empty, Bytes}
use telnetpp.Core.{iac, sb, se}
use telnetpp.Element.{
  Element, text, negotiation, subnegotiation, command, Command, Negotiation, Subnegotiation,
}

-- The loop of `generate_escaped`: `pending` are the bytes from `begin` up to `current`, and the
-- list those from `current` up to `end`.
unfoldable pub escape_loop : Bytes → Bytes → List Bytes
escape_loop pending [] = if is_empty pending then [] else pending ∷ []
escape_loop pending (by ∷ bs) =
    if by == iac
    then (pending ++ by ∷ []) ∷ escape_loop (by ∷ []) bs
    else escape_loop (pending ++ by ∷ []) bs

unfoldable pub generate_escaped : Bytes → List Bytes
unfolding escape_loop
generate_escaped bs = escape_loop [] bs

unfoldable pub generate_command : Command → List Bytes
generate_command cmd = (iac ∷ cmd.value ∷ []) ∷ []

unfoldable pub generate_negotiation : Negotiation → List Bytes
generate_negotiation neg = (iac ∷ neg.request ∷ neg.option_code ∷ []) ∷ []

unfoldable pub generate_subnegotiation : Subnegotiation → List Bytes
unfolding generate_escaped
generate_subnegotiation sub =
    (iac ∷ sb ∷ sub.option ∷ []) ∷ (generate_escaped sub.content ++ (iac ∷ se ∷ []) ∷ [])

unfoldable pub generate : Element → List Bytes
unfolding generate_command generate_negotiation generate_subnegotiation generate_escaped
generate (text bs) = generate_escaped bs
generate (command cmd) = generate_command cmd
generate (negotiation neg) = generate_negotiation neg
generate (subnegotiation sub) = generate_subnegotiation sub
