-- ===== src/Stream/Folding.antt =====
-- What is done for each element of a sequence, where joining adjacent texts makes no difference.
use telnetpp.Prelude.{◌≡◌, refl, sym, ap, ◌∙◌, List, [], ◌∷◌, ◌++◌, Bytes}
use telnetpp.Element.{Element, text, negotiation, subnegotiation, command}
use telnetpp.Stream.{flush, coalesce}

module _ {W : Type 0} (step : Element → W → W) where
  -- One element after the other.
  abbrev pub folded : List Element → W → W
  folded [] w = w
  folded (e ∷ es) w = folded es (step e w)

  pub folded-append : (xs ys : List Element) (w : W) → folded (xs ++ ys) w ≡ folded ys (folded xs w)
  folded-append [] ys w = refl
  folded-append (x ∷ xs) ys w = folded-append xs ys (step x w)

  -- Text is taken in as a whole or in pieces alike.
  abbrev pub JoinsTexts : Type 0
  JoinsTexts =
      ((w : W) → step (text []) w ≡ w)
      × ((a b : Bytes) (w : W) → step (text b) (step (text a) w) ≡ step (text (a ++ b)) w)

  module _ (joins : JoinsTexts) where
    folded-flush :
        (d : Bytes) (es : List Element) (w : W)
        → folded (flush d ++ es) w ≡ folded es (step (text d) w)
    folded-flush [] es w = ap (folded es) (sym (joins.0 w))
    folded-flush (x ∷ d) es w = refl

    -- The pending text in front of an element that is none.
    folded-after :
        (d : Bytes) (e : Element) (es : List Element) (w : W)
        → ((w : W) → folded (coalesce [] es) w ≡ folded es (step (text []) w))
        → folded (flush d ++ e ∷ coalesce [] es) w ≡ folded (e ∷ es) (step (text d) w)
    folded-after d e es w h =
        folded-flush d (e ∷ coalesce [] es) w ∙ h _ ∙ ap (folded es) (joins.0 _)

    folded-coalesce :
        (es : List Element) (d : Bytes) (w : W)
        → folded (coalesce d es) w ≡ folded es (step (text d) w)
    folded-coalesce [] [] w = sym (joins.0 w)
    folded-coalesce [] (x ∷ d) w = refl
    folded-coalesce (text bs ∷ es) d w =
        folded-coalesce es (d ++ bs) w ∙ ap (folded es) (sym (joins.1 d bs w))
    folded-coalesce (negotiation n ∷ es) d w =
        folded-after d (negotiation n) es w (folded-coalesce es [])
    folded-coalesce (subnegotiation s ∷ es) d w =
        folded-after d (subnegotiation s) es w (folded-coalesce es [])
    folded-coalesce (command c ∷ es) d w = folded-after d (command c) es w (folded-coalesce es [])

    pub folded-joined : (es : List Element) (w : W) → folded (coalesce [] es) w ≡ folded es w
    folded-joined es w = folded-coalesce es [] w ∙ ap (folded es) (joins.0 w)

    -- Sequences that read the same.
    pub folded-same :
        (xs ys : List Element) (w : W) → coalesce [] xs ≡ coalesce [] ys → folded xs w ≡ folded ys w
    folded-same xs ys w e = sym (folded-joined xs w) ∙ ap (λ z. folded z w) e ∙ folded-joined ys w
