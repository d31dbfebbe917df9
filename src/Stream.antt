-- ===== src/Stream.antt =====
-- A sequence of elements as the application sees it: where one text ends and the next begins
-- carries no meaning.
pub mod Folding
use telnetpp.Prelude.{
  ◌≡◌, refl, sym, ap, List, [], ◌∷◌, ◌++◌, Bytes, if◌then◌else◌, is_empty, append-nil,
}
use telnetpp.Element.{Element, text, negotiation, subnegotiation, command}

-- The text that is pending, as an element if there is any.
abbrev pub flush : Bytes → List Element
flush d = if is_empty d then [] else text d ∷ []

-- Adjacent texts are joined and empty ones dropped; `d` is the text pending in front.
abbrev pub coalesce : Bytes → List Element → List Element
coalesce d [] = flush d
coalesce d (text bs ∷ es) = coalesce (d ++ bs) es
coalesce d (negotiation n ∷ es) = flush d ++ negotiation n ∷ coalesce [] es
coalesce d (subnegotiation s ∷ es) = flush d ++ subnegotiation s ∷ coalesce [] es
coalesce d (command c ∷ es) = flush d ++ command c ∷ coalesce [] es

pub coalesce-flush :
    (c d : Bytes) (es : List Element) → coalesce c (flush d ++ es) ≡ coalesce (c ++ d) es
coalesce-flush c [] es = ap (λ x. coalesce x es) (sym (append-nil c))
coalesce-flush c (x ∷ d) es = refl

pub coalesce-flush_end : (c d : Bytes) → coalesce c (flush d) ≡ flush (c ++ d)
coalesce-flush_end c [] = ap flush (sym (append-nil c))
coalesce-flush_end c (x ∷ d) = refl

-- What follows a common beginning may be replaced by what reads the same.
pub coalesce-congr :
    (os xs ys : List Element)
    → ((c : Bytes) → coalesce c xs ≡ coalesce c ys)
    → (c : Bytes) → coalesce c (os ++ xs) ≡ coalesce c (os ++ ys)
coalesce-congr [] xs ys h c = h c
coalesce-congr (text t ∷ os) xs ys h c = coalesce-congr os xs ys h (c ++ t)
coalesce-congr (negotiation n ∷ os) xs ys h c = rw (coalesce-congr os xs ys h [])
coalesce-congr (subnegotiation s ∷ os) xs ys h c = rw (coalesce-congr os xs ys h [])
coalesce-congr (command m ∷ os) xs ys h c = rw (coalesce-congr os xs ys h [])
