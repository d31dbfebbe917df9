-- ===== src/Element.antt =====
-- The protocol's messages (include/telnetpp/command.hpp, negotiation.hpp, subnegotiation.hpp and
-- element.hpp), with their equality.
pub mod Order
pub mod Range
pub mod Hash
use telnetpp.Prelude.{
  ℕ, Bool, true, false, ◌&&◌, Bytes, ◌==◌, bytes_equal, bytes_equal_iff, ◌≡◌, ◌↔◌, arith,
}

pub record Command : Type 0 where
  pub value : ℕ

pub record Negotiation : Type 0 where
  pub request : ℕ
  pub option_code : ℕ

pub record Subnegotiation : Type 0 where
  pub option : ℕ
  pub content : Bytes

-- The alternatives of the variant.
pub data Element : Type 0 where
  text : Bytes → Element
  negotiation : Negotiation → Element
  subnegotiation : Subnegotiation → Element
  command : Command → Element

pub command_equal : Command → Command → Bool
command_equal a b = a.value == b.value

unfoldable pub negotiation_equal : Negotiation → Negotiation → Bool
negotiation_equal a b = a.request == b.request && a.option_code == b.option_code

pub subnegotiation_equal : Subnegotiation → Subnegotiation → Bool
subnegotiation_equal a b = a.option == b.option && bytes_equal a.content b.content

unfoldable pub element_equal : Element → Element → Bool
unfolding command_equal negotiation_equal subnegotiation_equal
element_equal (text a) (text b) = bytes_equal a b
element_equal (negotiation a) (negotiation b) = negotiation_equal a b
element_equal (subnegotiation a) (subnegotiation b) = subnegotiation_equal a b
element_equal (command a) (command b) = command_equal a b
element_equal _ _ = false

pub negotiation_equal_iff : (a b : Negotiation) → (negotiation_equal a b ≡ true) ↔ (a ≡ b)
unfolding negotiation_equal
negotiation_equal_iff a b = ground arith

-- The comparison of elements decides their equality.
element_equal_iff : (a b : Element) → (element_equal a b ≡ true) ↔ (a ≡ b)
unfolding element_equal
element_equal_iff (text a) (text b) = ground (arith, bytes_equal_iff a b)
element_equal_iff (subnegotiation a) (subnegotiation b) =
    ground (arith, bytes_equal_iff a.content b.content)
element_equal_iff _ _ = ground arith
