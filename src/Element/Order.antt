-- ===== src/Element/Order.antt =====
-- The order of commands and negotiations (include/telnetpp/command.hpp, negotiation.hpp).
use telnetpp.Prelude.{◌≡◌, Bool, true, not, ◌&&◌, ◌||◌, ltb, arith}
use telnetpp.Element.{Command, Negotiation, negotiation_equal}

unfoldable command_less : Command → Command → Bool
command_less a b = ltb a.value b.value

unfoldable negotiation_less : Negotiation → Negotiation → Bool
negotiation_less a b =
    ltb a.request b.request || (not (ltb b.request a.request) && ltb a.option_code b.option_code)

command_less_trans :
    (a b c : Command) → command_less a b ≡ true → command_less b c ≡ true → command_less a c ≡ true
unfolding command_less
command_less_trans a b c h k = ground arith

-- One of two different negotiations comes before the other, and never both.
negotiation_less_total :
    (a b : Negotiation) → negotiation_less a b ≡ not (negotiation_equal a b || negotiation_less b a)
unfolding negotiation_less negotiation_equal
negotiation_less_total a b = ground arith

negotiation_less_trans :
    (a b c : Negotiation)
    → negotiation_less a b ≡ true
    → negotiation_less b c ≡ true
    → negotiation_less a c ≡ true
unfolding negotiation_less
negotiation_less_trans a b c h k = ground arith
