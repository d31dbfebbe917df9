-- ===== src/Options/Mccp/Receiver/Telling.antt =====
-- What a session with an MCCP client (src/options/mccp/client.cpp) makes of elements other than those
-- that start or end the compression, as an independent description.
use telnetpp.Prelude.{
  ◌≡◌, sym, ap, ◌∙◌, false, ◌&&◌, ◌||◌, List, [], ◌∷◌, ◌++◌, Bytes, ◌==◌, if◌then◌else◌, append-nil,
  append_assoc, subst,
}
use telnetpp.Core.{iac, will, wont, do_, dont}
use telnetpp.Element.{Element, text, negotiation, subnegotiation, command}
use telnetpp.Stream.{flush, coalesce}
use telnetpp.Stream.Folding.{folded, folded-append, folded-joined, folded-same, JoinsTexts}
use telnetpp.Parser.{Parser, parse}
use telnetpp.Parser.Safety.{Inv, parse-Inv}
use telnetpp.Parser.Chunks.{parse-append, parse-nil_ready}
use telnetpp.TelnetOption.{InternalState, inactive, activating, active, deactivating}
use telnetpp.Options.Mccp.Compression.{option}

-- The option's state, what the session has sent and what its application has received.
pub record Told : Type 0 where
  pub option_state : InternalState
  pub sent : Bytes
  pub received : Bytes

pub record Client : Type 0 where
  pub parser : Parser
  pub told : Told

-- All but the subnegotiations of MCCP, which start the compression, and a WONT, which ends it.
abbrev pub IsFine : Element → Type 0
IsFine (text bs) = Unit
IsFine (negotiation n) = (option == n.option_code && n.request == wont) ≡ false
IsFine (subnegotiation s) = (option == s.option) ≡ false
IsFine (command c) = Unit

abbrev pub AllFine : List Element → Type 0
AllFine [] = Unit
AllFine (e ∷ es) = IsFine e × AllFine es

-- The answer to WILL, which the client may have asked for or may be about to take back.
abbrev pub will_answer : InternalState → Bytes
will_answer inactive = iac ∷ do_ ∷ option ∷ []
will_answer activating = []
will_answer active = iac ∷ do_ ∷ option ∷ []
will_answer deactivating = []

abbrev pub tells : Element → Told → Told
tells (text bs) t = record t { received = t.received ++ bs }
tells (negotiation n) t =
    if option == n.option_code && n.request == will
    then record t { option_state = active; sent = t.sent ++ will_answer t.option_state }
    else record t {
      sent =
          t.sent
          ++ iac
            ∷ (if n.request == will || n.request == wont then dont else wont)
            ∷ n.option_code
            ∷ [];
    }
tells (subnegotiation s) t = t
tells (command c) t = t

abbrev pub told : List Element → Told → Told
told = folded tells

tells-JoinsTexts : JoinsTexts tells
tells-JoinsTexts = (
  λ t. ap (λ x. record t { received = x }) (append-nil t.received),
  λ a b t. ap (λ x. record t { received = x }) (append_assoc t.received a b),
)

AllFine-append : (xs ys : List Element) → AllFine (xs ++ ys) → AllFine xs × AllFine ys
AllFine-append [] ys h = (tt, h)
AllFine-append (x ∷ xs) ys h = let (front, back) = AllFine-append xs ys h.1 in ((h.0, front), back)

pub AllFine-flush : (d : Bytes) (es : List Element) → AllFine es → AllFine (flush d ++ es)
AllFine-flush [] es h = h
AllFine-flush (x ∷ d) es h = (tt, h)

flush-AllFine : (d : Bytes) (es : List Element) → AllFine (flush d ++ es) → AllFine es
flush-AllFine [] es h = h
flush-AllFine (x ∷ d) es h = h.1

pub AllFine-coalesce : (es : List Element) (d : Bytes) → AllFine es → AllFine (coalesce d es)
AllFine-coalesce [] [] h = tt
AllFine-coalesce [] (x ∷ d) h = (tt, tt)
AllFine-coalesce (text bs ∷ es) d h = AllFine-coalesce es (d ++ bs) h.1
AllFine-coalesce (negotiation n ∷ es) d h = AllFine-flush d _ (h.0, AllFine-coalesce es [] h.1)
AllFine-coalesce (subnegotiation s ∷ es) d h = AllFine-flush d _ (h.0, AllFine-coalesce es [] h.1)
AllFine-coalesce (command c ∷ es) d h = AllFine-flush d _ (tt, AllFine-coalesce es [] h.1)

pub coalesce-AllFine : (es : List Element) (d : Bytes) → AllFine (coalesce d es) → AllFine es
coalesce-AllFine [] d h = tt
coalesce-AllFine (text bs ∷ es) d h = (tt, coalesce-AllFine es (d ++ bs) h)
coalesce-AllFine (negotiation n ∷ es) d h =
    let both = flush-AllFine d (negotiation n ∷ coalesce [] es) h in
    (both.0, coalesce-AllFine es [] both.1)
coalesce-AllFine (subnegotiation s ∷ es) d h =
    let both = flush-AllFine d (subnegotiation s ∷ coalesce [] es) h in
    (both.0, coalesce-AllFine es [] both.1)
coalesce-AllFine (command c ∷ es) d h =
    let both = flush-AllFine d (command c ∷ coalesce [] es) h in (tt, coalesce-AllFine es [] both.1)

-- A call of the parser, and all that its elements lead to.
abbrev pub feed : Bytes → Client → Client
feed bs a = record { parser = (parse bs a.parser).0; told = told (parse bs a.parser).1 a.told }

-- The bytes `rest` are still to come, and nothing in them starts or ends the compression; they will
-- leave the parser as `p` and the rest as `t`.
abbrev pub IsAwaiting : Parser → Told → Client → Bytes → Type 0
IsAwaiting p t a rest =
    Inv a.parser
    × (a.parser.plain_data ≡ [])
    × AllFine (parse rest a.parser).1
    × ((parse rest a.parser).0 ≡ p)
    × (told (parse rest a.parser).1 a.told ≡ t)

-- Some of these bytes.
pub IsAwaiting-feed :
    (p : Parser) (t : Told) (a : Client) (bs rest : Bytes)
    → IsAwaiting p t a (bs ++ rest)
    → AllFine (parse bs a.parser).1 × IsAwaiting p t (feed bs a) rest
IsAwaiting-feed p t a bs rest (inv, ready, fine, last, all) =
    let now = parse bs a.parser in
    let later = parse rest now.0 in
    let split = parse-append bs rest a.parser inv in
    let kept = parse-Inv bs a.parser inv in
    let joined = split.1 [] in
    let both : AllFine now.1 × AllFine later.1 = AllFine-append now.1 later.1 (
      coalesce-AllFine (now.1 ++ later.1) []
        (subst AllFine joined (AllFine-coalesce (parse (bs ++ rest) a.parser).1 [] fine))) in
    (
      both.0,
      (
        kept.0,
        kept.1,
        both.1,
        sym split.0 ∙ last,
        sym (folded-append tells now.1 later.1 a.told)
            ∙ sym (
                folded-same tells tells-JoinsTexts (parse (bs ++ rest) a.parser).1
                  (now.1 ++ later.1) a.told joined)
            ∙ all,
      ),
    )

-- None of them.
pub IsAwaiting-nil :
    (p : Parser) (t : Told) (a : Client) → IsAwaiting p t a [] → (a.parser ≡ p) × (a.told ≡ t)
IsAwaiting-nil p t a (inv, ready, fine, last, all) =
    let none_left = parse-nil_ready a.parser ready in
    (sym (ap (λ z. z.0) none_left) ∙ last, sym (ap (λ z. told z.1 a.told) none_left) ∙ all)

-- A call on all of them reads as these elements.
pub IsAwaiting-read :
    (a : Client) (rest : Bytes) (p : Parser) (es : List Element)
    → Inv a.parser
    → a.parser.plain_data ≡ []
    → (parse rest a.parser).0 ≡ p
    → coalesce [] (parse rest a.parser).1 ≡ coalesce [] (coalesce [] es)
    → AllFine es
    → IsAwaiting p (told es a.told) a rest
IsAwaiting-read a rest p es inv ready last read fine =
    let out = (parse rest a.parser).1 in
    (
      inv,
      ready,
      coalesce-AllFine out [] (
          subst AllFine (sym read)
            (AllFine-coalesce (coalesce [] es) [] (AllFine-coalesce es [] fine))),
      last,
      folded-same tells tells-JoinsTexts out (coalesce [] es) a.told read
          ∙ folded-joined tells tells-JoinsTexts es a.told,
    )
