-- ===== src/Printing/Meaning.antt =====
-- What is printed of an element (src/element.cpp), and what it says of the element.
use telnetpp.Prelude.{
  ℕ, zero, suc, ◌<◌, ◌≡◌, refl, sym, ap, ◌∙◌, true, [], ◌∷◌, ◌++◌, Bytes, none, some, arith,
}
use telnetpp.Element.Range.{AllBytes}
use mathlib.Core.List.{append_cancel_left, append_cancel_right}
use telnetpp.Core.{is_request}
use telnetpp.Element.{
  Element, text, negotiation, subnegotiation, command, Command, Negotiation, Subnegotiation,
}
use telnetpp.Printing.{
  codes, print_bytes, print_command, print_negotiation, print_subnegotiation, print_element,
}

-- An element that is not text, and is made of bytes.
abbrev pub IsPrintable : Element → Type 0
IsPrintable (text bs) = ⊥
IsPrintable (negotiation n) = (is_request n.request ≡ true) × (n.option_code < 256)
IsPrintable (subnegotiation s) = (s.option < 256) × AllBytes s.content
IsPrintable (command c) = c.value < 256

print_negotiation-injective :
    (a b : Negotiation)
    → IsPrintable (negotiation a)
    → IsPrintable (negotiation b)
    → print_negotiation a ≡ print_negotiation b
    → a ≡ b
unfolding print_negotiation
print_negotiation-injective a b h k e = ground arith

print_command-injective :
    (a b : Command) → a.value < 256 → b.value < 256 → print_command a ≡ print_command b → a ≡ b
unfolding print_command
print_command-injective a b h k e = ground arith

-- The content with what is printed behind it.
print_bytes-injective :
    (xs ys : Bytes)
    → AllBytes xs
    → AllBytes ys
    → print_bytes xs ++ codes "]]" ≡ print_bytes ys ++ codes "]]"
    → xs ≡ ys
unfolding print_bytes
print_bytes-injective [] [] h k e = refl
print_bytes-injective [] (y ∷ []) h k e = ground arith
print_bytes-injective [] (y ∷ z ∷ ys) h k e = ground arith
print_bytes-injective (x ∷ []) [] h k e = ground arith
print_bytes-injective (x ∷ []) (y ∷ []) h k e = ground arith
print_bytes-injective (x ∷ []) (y ∷ z ∷ ys) h k e = ground arith
print_bytes-injective (x ∷ w ∷ xs) [] h k e = ground arith
print_bytes-injective (x ∷ w ∷ xs) (y ∷ []) h k e = ground arith
print_bytes-injective (x ∷ w ∷ xs) (y ∷ z ∷ ys) h k e =
    ground (arith, print_bytes-injective (w ∷ xs) (z ∷ ys) h.1 k.1)

print_subnegotiation-injective :
    (a b : Subnegotiation)
    → IsPrintable (subnegotiation a)
    → IsPrintable (subnegotiation b)
    → print_subnegotiation a ≡ print_subnegotiation b
    → a ≡ b
unfolding print_subnegotiation
print_subnegotiation-injective a b h k e =
    ground (arith, print_bytes-injective a.content b.content h.1 k.1)

-- What `print_element` puts its brackets round.
abbrev printed_alternative : Element → Bytes
printed_alternative (text bs) = []
printed_alternative (negotiation n) = print_negotiation n
printed_alternative (subnegotiation s) = print_subnegotiation s
printed_alternative (command c) = print_command c

-- What the three begin with differs.
printed_alternative-injective :
    (a b : Element)
    → IsPrintable a
    → IsPrintable b
    → printed_alternative a ≡ printed_alternative b
    → a ≡ b
unfolding print_negotiation print_subnegotiation print_command
printed_alternative-injective (text bs) b h k e = absurd h
printed_alternative-injective (negotiation n) (negotiation m) h k e =
    ap negotiation (print_negotiation-injective n m h k e)
printed_alternative-injective (subnegotiation s) (subnegotiation t) h k e =
    ap subnegotiation (print_subnegotiation-injective s t h k e)
printed_alternative-injective (command c) (command d) h k e =
    ap command (print_command-injective c d h k e)
printed_alternative-injective _ _ h k e = ground arith

print_element-printed :
    (e : Element) (fuel : ℕ)
    → IsPrintable e
    → print_element (suc fuel) e ≡ some (codes "element[" ++ (printed_alternative e ++ codes "]"))
unfolding print_element
print_element-printed (text bs) fuel h = absurd h
print_element-printed (negotiation n) fuel h = refl
print_element-printed (subnegotiation s) fuel h = refl
print_element-printed (command c) fuel h = refl

print_element-text : (fuel : ℕ) (bs : Bytes) → print_element fuel (text bs) ≡ none
unfolding print_element
print_element-text zero bs = refl
print_element-text (suc fuel) bs = rw (print_element-text fuel bs)

-- Two elements that are not text, made of bytes, are printed alike only if they are the same, and
-- one round is enough to print such an element; printing text never ends, whatever the text.
pub print_element_lem :
    (a b : Element) (fuel : ℕ) (bs : Bytes)
    → IsPrintable a
    → IsPrintable b
    → ((printed : Bytes) × (print_element (suc fuel) a ≡ some printed))
      × (print_element (suc fuel) a ≡ print_element (suc fuel) b → a ≡ b)
      × (print_element fuel (text bs) ≡ none)
print_element_lem a b fuel bs h k = (
  (_, print_element-printed a fuel h),
  (λ e.
      let same : codes "element[" ++ (printed_alternative a ++ codes "]")
          ≡ codes "element[" ++ (printed_alternative b ++ codes "]") =
        cc (sym (print_element-printed a fuel h) ∙ e ∙ print_element-printed b fuel k) in
      printed_alternative-injective a b h k (
        append_cancel_right (printed_alternative a) (printed_alternative b) (codes "]")
          (append_cancel_left (codes "element[") _ _ same))),
  print_element-text fuel bs,
)
