-- ===== src/Generator/RoundTrip.antt =====
-- The parser (include/telnetpp/parser.hpp) on what the generator (generator.hpp) writes.
use telnetpp.Prelude.{
  ◌≡◌, refl, ap, ◌∙◌, ℕ, List, [], ◌∷◌, ◌++◌, Bytes, concat, concat-append, ◌==◌, ==_iff, ◌||◌,
  true, false, Bool-cases, inl, inr, arith, append_assoc, append-nil,
}
use telnetpp.Element.{
  Element, text, negotiation, subnegotiation, command, Command, Negotiation, Subnegotiation,
}
use telnetpp.Core.{iac, sb, se, is_request}
use telnetpp.Stream.{flush, coalesce}
use telnetpp.Parser.{Parser, state_idle, state_subnegotiation_content, parse_byte, parse, initial}
use telnetpp.Parser.Chunks.{with_plain, parse-cons, parse-nil}
use telnetpp.Generator.Escape.{escaped, generate_escaped-escaped}
use telnetpp.Generator.{generate, generate_command, generate_negotiation, generate_subnegotiation}

-- What the protocol can express: a command is none of the bytes that begin another sequence, and
-- a negotiation holds one of the four requests.
abbrev pub IsSendable : Element → Type 0
IsSendable (text bs) = Unit
IsSendable (negotiation n) = is_request n.request ≡ true
IsSendable (subnegotiation s) = Unit
IsSendable (command c) = (c.value == iac || is_request c.value || c.value == sb) ≡ false

abbrev pub AllSendable : List Element → Type 0
AllSendable [] = Unit
AllSendable (e ∷ es) = IsSendable e × AllSendable es

-- The bytes of a sequence of elements, as they go over the wire.
abbrev pub wire : List Element → Bytes
wire [] = []
wire (e ∷ es) = concat (generate e) ++ wire es

-- `x` is `y` with the outputs `o` in front.
abbrev after : List Element → Parser × List Element → Parser × List Element
after o (q, out) = (q, o ++ out)

parse-plain :
    (by : ℕ) (rest : Bytes) (p : Parser)
    → p.state ≡ state_idle
    → (by == iac) ≡ false
    → parse (by ∷ rest) p ≡ parse rest (with_plain (p.plain_data ++ by ∷ []) p)
unfolding parse_byte
parse-plain by rest p e h = rw parse-cons (ground arith)

parse-iac-iac :
    (rest : Bytes) (p : Parser)
    → p.state ≡ state_idle
    → parse (iac ∷ iac ∷ rest) p ≡ parse rest (with_plain (p.plain_data ++ iac ∷ []) p)
unfolding parse_byte
parse-iac-iac rest p e = rw (parse-cons, parse-cons) (ground arith)

parse-escaped :
    (bs rest : Bytes) (p : Parser)
    → p.state ≡ state_idle
    → parse (escaped bs ++ rest) p ≡ parse rest (with_plain (p.plain_data ++ bs) p)
parse-escaped [] rest p e = rw append-nil
parse-escaped (by ∷ bs) rest p e = elim (Bool-cases (by == iac)) [
  | inl h ↦
      rw (h, (==_iff by iac).0 h)
        (parse-iac-iac (escaped bs ++ rest) p e
          ∙ parse-escaped bs rest (with_plain (p.plain_data ++ iac ∷ []) p) e
          ∙ rw append_assoc)
  | inr h ↦ rw h (
      parse-plain by (escaped bs ++ rest) p e h
      ∙ parse-escaped bs rest (with_plain (p.plain_data ++ by ∷ []) p) e
      ∙ rw append_assoc)
]

parse-command :
    (c : Command) (rest : Bytes) (p : Parser)
    → p.state ≡ state_idle
    → IsSendable (command c)
    → parse (iac ∷ c.value ∷ rest) p
      ≡ after (flush p.plain_data ++ command c ∷ []) (parse rest (with_plain [] p))
unfolding parse_byte
parse-command c rest p e h = rw (parse-cons, parse-cons) (ground arith)

abbrev asked : Negotiation → Parser → Parser
asked n p = record p { plain_data = []; negotiation_type = n.request }

parse-negotiation :
    (n : Negotiation) (rest : Bytes) (p : Parser)
    → p.state ≡ state_idle
    → IsSendable (negotiation n)
    → parse (iac ∷ n.request ∷ n.option_code ∷ rest) p
      ≡ after (flush p.plain_data ++ negotiation n ∷ []) (parse rest (asked n p))
unfolding parse_byte
parse-negotiation n rest p e h = rw (parse-cons, parse-cons, parse-cons) (ground arith)

-- The state in which the parser reads the content of a subnegotiation.
abbrev inside : ℕ → Bytes → Parser → Parser
inside o c p = record p {
  state = state_subnegotiation_content;
  plain_data = [];
  subnegotiation_option = o;
  subnegotiation_content = c;
}

parse-sb :
    (o : ℕ) (rest : Bytes) (p : Parser)
    → p.state ≡ state_idle
    → parse (iac ∷ sb ∷ o ∷ rest) p ≡ after (flush p.plain_data) (parse rest (inside o [] p))
unfolding parse_byte
parse-sb o rest p e = rw (parse-cons, parse-cons, parse-cons) (ground arith)

parse-content_plain :
    (by o : ℕ) (c rest : Bytes) (p : Parser)
    → (by == iac) ≡ false
    → parse (by ∷ rest) (inside o c p) ≡ parse rest (inside o (c ++ by ∷ []) p)
unfolding parse_byte
parse-content_plain by o c rest p h = rw parse-cons (ground arith)

parse-content_iac-iac :
    (o : ℕ) (c rest : Bytes) (p : Parser)
    → parse (iac ∷ iac ∷ rest) (inside o c p) ≡ parse rest (inside o (c ++ iac ∷ []) p)
unfolding parse_byte
parse-content_iac-iac o c rest p = rw (parse-cons, parse-cons) (ground arith)

parse-content :
    (bs : Bytes) (o : ℕ) (c rest : Bytes) (p : Parser)
    → parse (escaped bs ++ rest) (inside o c p) ≡ parse rest (inside o (c ++ bs) p)
parse-content [] o c rest p = rw append-nil
parse-content (by ∷ bs) o c rest p = elim (Bool-cases (by == iac)) [
  | inl h ↦
      rw (h, (==_iff by iac).0 h)
        (parse-content_iac-iac o c (escaped bs ++ rest) p
          ∙ parse-content bs o (c ++ iac ∷ []) rest p
          ∙ rw append_assoc)
  | inr h ↦ rw h (
      parse-content_plain by o c (escaped bs ++ rest) p h
      ∙ parse-content bs o (c ++ by ∷ []) rest p
      ∙ rw append_assoc)
]

parse-se :
    (o : ℕ) (c rest : Bytes) (p : Parser)
    → parse (iac ∷ se ∷ rest) (inside o c p)
      ≡ after
          (subnegotiation (record { option = o; content = c }) ∷ [])
          (parse rest (record (inside o c p) { state = state_idle }))
unfolding parse_byte
parse-se o c rest p = rw (parse-cons, parse-cons) (ground arith)

-- The parser after such a sequence.
abbrev done : Subnegotiation → Parser → Parser
done s p = record (inside s.option s.content p) { state = state_idle }

parse-subnegotiation :
    (s : Subnegotiation) (rest : Bytes) (p : Parser)
    → p.state ≡ state_idle
    → parse (iac ∷ sb ∷ s.option ∷ (escaped s.content ++ (iac ∷ se ∷ rest))) p
      ≡ after (flush p.plain_data ++ subnegotiation s ∷ []) (parse rest (done s p))
parse-subnegotiation s rest p e = rw (
  parse-sb s.option (escaped s.content ++ (iac ∷ se ∷ rest)) p e,
  parse-content s.content s.option [] (iac ∷ se ∷ rest) p,
  parse-se s.option s.content rest p,
  append_assoc,
)

concat-generate_subnegotiation :
    (s : Subnegotiation) (rest : Bytes)
    → concat (generate (subnegotiation s)) ++ rest
      ≡ iac ∷ sb ∷ s.option ∷ (escaped s.content ++ (iac ∷ se ∷ rest))
unfolding generate generate_subnegotiation
concat-generate_subnegotiation s rest = simp (concat-append, generate_escaped-escaped, append_assoc)

concat-generate_text : (bs : Bytes) → concat (generate (text bs)) ≡ escaped bs
unfolding generate
concat-generate_text bs = generate_escaped-escaped bs

pub concat-generate_negotiation :
    (n : Negotiation) → concat (generate (negotiation n)) ≡ iac ∷ n.request ∷ n.option_code ∷ []
unfolding generate generate_negotiation
concat-generate_negotiation n = refl

-- Between two sequences, with nothing held back.
abbrev pub Ready : Parser → Type 0
Ready p = (p.state ≡ state_idle) × (p.plain_data ≡ [])

abbrev Reads : List Element → Bytes → Parser × List Element → Type 0
Reads es d (q, out) = Ready q × (out ≡ coalesce d es)

Reads-after :
    (e : Element) (es : List Element) (d : Bytes) (r : Parser × List Element)
    → Reads es [] r
    → Ready (after (flush d ++ e ∷ []) r).0
      × ((after (flush d ++ e ∷ []) r).1 ≡ flush d ++ e ∷ coalesce [] es)
Reads-after e es d (q, out) h =
    (h.0, append_assoc (flush d) (e ∷ []) out ∙ ap (λ z. flush d ++ e ∷ z) h.1)

pub parse-wire :
    (es : List Element) (p : Parser)
    → AllSendable es
    → p.state ≡ state_idle
    → Ready (parse (wire es) p).0 × ((parse (wire es) p).1 ≡ coalesce p.plain_data es)
unfolding generate generate_command generate_negotiation
parse-wire [] p s r = rw (parse-nil p.plain_data p) ((r, refl), refl)
parse-wire (text bs ∷ es) p s r =
    rw (concat-generate_text bs, parse-escaped bs (wire es) p r)
      (parse-wire es (with_plain (p.plain_data ++ bs) p) s.1 r)
parse-wire (negotiation n ∷ es) p s r = rw (parse-negotiation n (wire es) p r s.0) (
    Reads-after (negotiation n) es p.plain_data (parse (wire es) (asked n p))
      (parse-wire es (asked n p) s.1 r))
parse-wire (subnegotiation n ∷ es) p s r =
    rw (concat-generate_subnegotiation n (wire es), parse-subnegotiation n (wire es) p r)
      (Reads-after (subnegotiation n) es p.plain_data (parse (wire es) (done n p))
        (parse-wire es (done n p) s.1 refl))
parse-wire (command n ∷ es) p s r = rw (parse-command n (wire es) p r s.0) (
    Reads-after (command n) es p.plain_data (parse (wire es) (with_plain [] p))
      (parse-wire es (with_plain [] p) s.1 r))

-- Elements that the protocol can express, written one after the other and parsed by a new parser
-- in one call, come back in order, with adjacent texts joined and empty ones dropped, and leave
-- the parser between two sequences with nothing held back.
pub parse-wire-initial :
    (es : List Element)
    → AllSendable es
    → Ready (parse (wire es) initial).0 × ((parse (wire es) initial).1 ≡ coalesce [] es)
parse-wire-initial es s = parse-wire es initial s refl
