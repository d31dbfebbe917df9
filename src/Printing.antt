-- ===== src/Printing.antt =====
-- The printing of elements to a stream (src/command.cpp, negotiation.cpp, subnegotiation.cpp and
-- element.cpp). What is printed is returned, as the codes of its characters.
pub mod Meaning
use Prim.Native.Char.{code}
use Prim.Native.String.{String}
use telnetpp.Prelude.{
  ℕ, zero, suc, ◌+◌, ◌/◌, ◌%◌, List, [], ◌∷◌, ◌++◌, Bytes, Option, none, some, ltb, ◌==◌,
  if◌then◌else◌, is_empty,
}
use telnetpp.Core.{nop, dm, brk, ip, ao, ayt, ec, el, ga, will, wont, do_, dont}
use telnetpp.Element.{
  Element, text, negotiation, subnegotiation, command, Command, Negotiation, Subnegotiation,
}

abbrev pub codes : String → Bytes
codes String.[] = []
codes (String.◌∷◌ c s) = code c ∷ codes s

-- `std::format("0x{:02X}", by)`, of a byte.
abbrev pub hex_digit : ℕ → ℕ
hex_digit d = if ltb d 10 then b'0' + d else 55 + d

abbrev pub hex_byte : ℕ → Bytes
hex_byte by = b'0' ∷ b'x' ∷ hex_digit (by / 16 % 16) ∷ hex_digit (by % 16) ∷ []

-- The switch of the first operator.
unfoldable pub command_type_name : ℕ → Bytes
command_type_name by =
    if by == nop
    then codes "NOP"
    else if by == dm
    then codes "DM"
    else if by == brk
    then codes "BRK"
    else if by == ip
    then codes "IP"
    else if by == ao
    then codes "AO"
    else if by == ayt
    then codes "AYT"
    else if by == ec
    then codes "EC"
    else if by == el
    then codes "EL"
    else if by == ga
    then codes "GA"
    else []

unfoldable pub print_command : Command → Bytes
unfolding command_type_name
print_command cmd =
    let cmd_type = command_type_name cmd.value in
    if is_empty cmd_type
    then codes "command[" ++ (hex_byte cmd.value ++ codes "]")
    else codes "command[" ++ (cmd_type ++ codes "]")

-- The switch of the second operator; the assertion in its default is left out.
unfoldable pub negotiation_type_name : ℕ → Bytes
negotiation_type_name by =
    if by == will
    then codes "WILL"
    else if by == wont
    then codes "WONT"
    else if by == do_
    then codes "DO"
    else if by == dont
    then codes "DONT"
    else []

unfoldable pub print_negotiation : Negotiation → Bytes
unfolding negotiation_type_name
print_negotiation neg =
    codes "negotiation["
    ++ (negotiation_type_name neg.request
        ++ (codes ", " ++ (hex_byte neg.option_code ++ codes "]")))

-- The loop over the content, with ", " in front of each byte but the first.
unfoldable pub print_bytes : Bytes → Bytes
print_bytes [] = []
print_bytes (by ∷ []) = hex_byte by
print_bytes (by ∷ next ∷ bs) = hex_byte by ++ (codes ", " ++ print_bytes (next ∷ bs))

unfoldable pub print_subnegotiation : Subnegotiation → Bytes
unfolding print_bytes
print_subnegotiation sub =
    codes "subnegotiation["
    ++ (hex_byte sub.option ++ (codes ", [" ++ (print_bytes sub.content ++ codes "]]")))

abbrev bracketed : Bytes → Bytes
bracketed printed = codes "element[" ++ (printed ++ codes "]")

-- `out << data` for each alternative. No operator takes a span of bytes, and the only conversion of
-- one is to an element, so text is printed by this operator again, as an element. `none` means that
-- the fuel ran out; each round takes one unit.
unfoldable pub print_element : ℕ → Element → Option Bytes
unfolding print_command print_negotiation print_subnegotiation
print_element zero elem = none
print_element (suc fuel) (text bs) = elim (print_element fuel (text bs)) [
  | none ↦ none
  | some printed ↦ some (bracketed printed)
]
print_element (suc fuel) (negotiation neg) = some (bracketed (print_negotiation neg))
print_element (suc fuel) (subnegotiation sub) = some (bracketed (print_subnegotiation sub))
print_element (suc fuel) (command cmd) = some (bracketed (print_command cmd))
