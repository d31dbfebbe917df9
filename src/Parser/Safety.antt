-- ===== src/Parser/Safety.antt =====
-- The states of the parser (include/telnetpp/parser.hpp) and the elements that it hands on.
use telnetpp.Prelude.{◌≡◌, refl, ℕ, List, [], ◌∷◌, ◌++◌, Bytes, true, not, arith, is_empty}
use telnetpp.Core.{is_request}
use telnetpp.Element.{Element, text, negotiation}
use telnetpp.Parser.{
  Parser, ParsingState, state_idle, state_iac, state_negotiation, parse_in, parse_byte, parse_bytes,
  parse, emit_plain_data,
}

-- Plain data is held back only in the two states in which the next byte may still extend it; a
-- negotiation is read only after one of the four requests.
abbrev pub StateInv : ParsingState → Parser → Type 0
StateInv state_idle p = Unit
StateInv state_iac p = Unit
StateInv state_negotiation p = (p.plain_data ≡ []) × (is_request p.negotiation_type ≡ true)
StateInv _ p = p.plain_data ≡ []

abbrev pub Inv : Parser → Type 0
Inv p = StateInv p.state p

-- No text is empty, and every negotiation holds one of the four requests, as its constructor
-- asserts.
abbrev pub IsGood : Element → Type 0
IsGood (text bs) = is_empty bs ≡ not true
IsGood (negotiation n) = is_request n.request ≡ true
IsGood _ = Unit

abbrev pub AllGood : List Element → Type 0
AllGood [] = Unit
AllGood (e ∷ es) = IsGood e × AllGood es

AllGood-append : (xs ys : List Element) → AllGood xs → AllGood ys → AllGood (xs ++ ys)
AllGood-append [] ys h k = k
AllGood-append (x ∷ xs) ys h k = (h.0, AllGood-append xs ys h.1 k)

parse_in-Inv :
    (s : ParsingState) (by : ℕ) (p : Parser)
    → StateInv s p
    → p.state ≡ s
    → Inv (parse_in s by p).0 × AllGood (parse_in s by p).1
unfolding parse_in emit_plain_data
parse_in-Inv state_idle by p h e = ground arith
parse_in-Inv state_iac by p h e = ground arith
parse_in-Inv s by p h e = ground arith

pub parse_byte-Inv :
    (by : ℕ) (p : Parser) → Inv p → Inv (parse_byte by p).0 × AllGood (parse_byte by p).1
unfolding parse_byte
parse_byte-Inv by p h = parse_in-Inv p.state by p h refl

pub parse_bytes-Inv :
    (bs : Bytes) (p : Parser) → Inv p → Inv (parse_bytes bs p).0 × AllGood (parse_bytes bs p).1
unfolding parse_bytes
parse_bytes-Inv [] p h = (h, tt)
parse_bytes-Inv (by ∷ bs) p h =
    let now = parse_byte-Inv by p h in
    let later = parse_bytes-Inv bs (parse_byte by p).0 now.0 in
    (later.0, AllGood-append _ _ now.1 later.1)

-- From a state that the parser can be in, a call ends in such a state with no plain data held
-- back, every text that it hands on is not empty, and every negotiation is well formed.
pub parse-Inv :
    (bs : Bytes) (p : Parser)
    → Inv p
    → Inv (parse bs p).0 × ((parse bs p).0.plain_data ≡ []) × AllGood (parse bs p).1
unfolding parse emit_plain_data
parse-Inv bs p h = ground (
  arith,
  parse_bytes-Inv bs p h,
  AllGood-append (parse_bytes bs p).1 (emit_plain_data (parse_bytes bs p).0).1,
)
