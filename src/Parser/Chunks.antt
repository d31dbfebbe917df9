-- ===== src/Parser/Chunks.antt =====
-- The parser (include/telnetpp/parser.hpp) on input that arrives in pieces.
use telnetpp.Prelude.{
  ◌≡◌, refl, sym, ap, ◌∙◌, ℕ, List, [], ◌∷◌, ◌++◌, Bytes, concat, ◌==◌, if◌then◌else◌, Bool, true,
  false, arith, append_assoc, append-nil, subst,
}
use telnetpp.Element.{Element}
use telnetpp.Stream.{flush, coalesce, coalesce-flush, coalesce-flush_end, coalesce-congr}
use telnetpp.Core.{iac, sb, is_request}
use telnetpp.Parser.{
  Parser, ParsingState, state_idle, state_iac, state_negotiation, parse_in, parse_byte, parse_bytes,
  parse, emit_plain_data, parse_iac, parse_idle,
}
use telnetpp.Parser.Safety.{Inv, StateInv, parse_byte-Inv, parse-Inv}

-- The parser with other plain data.
abbrev pub with_plain : Bytes → Parser → Parser
with_plain d p = record p { plain_data = d }

emit_plain_data-flush :
    (d : Bytes) (p : Parser) → emit_plain_data (with_plain d p) ≡ (with_plain [] p, flush d)
unfolding emit_plain_data
emit_plain_data-flush [] p = refl
emit_plain_data-flush (x ∷ d) p = refl

-- One step with `a` held back in front of the plain data, beside the step without `a`: the
-- outputs and what is then held back read the same.
record Aligned (a : Bytes) (x y : Parser × List Element) : Type 0 where
  left : Bytes
  parser_eq : x.0 ≡ with_plain (left ++ y.0.plain_data) y.0
  stream_eq :
      (c : Bytes) (us vs : List Element)
      → ((d : Bytes) → coalesce d us ≡ coalesce (d ++ left) vs)
      → coalesce c (x.1 ++ us) ≡ coalesce (c ++ a) (y.1 ++ vs)

Aligned-held : (a : Bytes) (q : Parser) → Aligned a (with_plain (a ++ q.plain_data) q, []) (q, [])
Aligned-held a q = record { left = a; parser_eq = refl; stream_eq = λ c us vs h. h c }

Aligned-flushed :
    (a b : Bytes) (q : Parser) (t : List Element)
    → Aligned a (q, flush (a ++ b) ++ t) (q, flush b ++ t)
Aligned-flushed a b q t = record {
  left = [];
  parser_eq = refl;
  stream_eq = λ c us vs h.
      ap (coalesce c) (append_assoc (flush (a ++ b)) t us)
      ∙ coalesce-flush c (a ++ b) (t ++ us)
      ∙ ap (λ x. coalesce x (t ++ us)) (sym (append_assoc c a b))
      ∙ coalesce-congr t us vs (λ d. h d ∙ ap (λ x. coalesce x vs) (append-nil d)) _
      ∙ sym (coalesce-flush (c ++ a) b (t ++ vs))
      ∙ ap (coalesce (c ++ a)) (sym (append_assoc (flush b) t vs));
}

Aligned-flush : (a b : Bytes) (q : Parser) → Aligned a (q, flush (a ++ b)) (q, flush b)
Aligned-flush a b q =
    subst (λ z. Aligned a (q, z) (q, flush b)) (append-nil (flush (a ++ b)))
      (subst (λ z. Aligned a (q, flush (a ++ b) ++ []) (q, z)) (append-nil (flush b))
        (Aligned-flushed a b q []))

Aligned-same : (x : Parser × List Element) → Aligned [] x x
Aligned-same x = record {
  left = [];
  parser_eq = refl;
  stream_eq = λ c us vs h.
      coalesce-congr x.1 us vs (λ d. h d ∙ ap (λ z. coalesce z vs) (append-nil d)) c
      ∙ ap (λ z. coalesce z (x.1 ++ vs)) (sym (append-nil c));
}

Aligned-nothing :
    (a b : Bytes) (f : Bytes → Parser × List Element) → a ++ b ≡ [] → Aligned a (f (a ++ b)) (f b)
Aligned-nothing [] b f h = Aligned-same (f b)
Aligned-nothing (x ∷ a) b f h = cc

Aligned-if :
    (t : Bool) {a : Bytes} {x x' y y' : Parser × List Element}
    → Aligned a x y
    → Aligned a x' y'
    → Aligned a (if t then x else x') (if t then y else y')
Aligned-if true h k = h
Aligned-if false h k = k

parse_idle-Aligned :
    (by : ℕ) (a b : Bytes) (p : Parser)
    → Aligned a (parse_idle by (with_plain (a ++ b) p)) (parse_idle by (with_plain b p))
unfolding parse_idle
parse_idle-Aligned by a b p = rw (append_assoc a b (by ∷ [])) (
    Aligned-if (by == iac) (Aligned-held a (record p { plain_data = b; state = state_iac }))
      (Aligned-held a (with_plain (b ++ by ∷ []) p)))

parse_iac-Aligned :
    (by : ℕ) (a b : Bytes) (p : Parser)
    → Aligned a (parse_iac by (with_plain (a ++ b) p)) (parse_iac by (with_plain b p))
unfolding parse_iac
parse_iac-Aligned by a b p =
    rw (append_assoc a b (by ∷ []), emit_plain_data-flush (a ++ b) p, emit_plain_data-flush b p)
      (Aligned-if (by == iac)
        (Aligned-held a (record p { plain_data = b ++ by ∷ []; state = state_idle }))
        (Aligned-if (is_request by) (Aligned-flush a b _)
          (Aligned-if (by == sb) (Aligned-flush a b _) (Aligned-flushed a b _ _))))

-- In the other states nothing is held back.
parse_in-Aligned :
    (s : ParsingState) (by : ℕ) (a b : Bytes) (p : Parser)
    → StateInv s (with_plain (a ++ b) p)
    → Aligned a (parse_in s by (with_plain (a ++ b) p)) (parse_in s by (with_plain b p))
unfolding parse_in
parse_in-Aligned state_idle by a b p h = parse_idle-Aligned by a b p
parse_in-Aligned state_iac by a b p h = parse_iac-Aligned by a b p
parse_in-Aligned state_negotiation by a b p h =
    Aligned-nothing a b (λ d. parse_in state_negotiation by (with_plain d p)) h.0
parse_in-Aligned s by a b p h = Aligned-nothing a b (λ d. parse_in s by (with_plain d p)) h

parse_byte-Aligned :
    (by : ℕ) (a b : Bytes) (p : Parser)
    → Inv (with_plain (a ++ b) p)
    → Aligned a (parse_byte by (with_plain (a ++ b) p)) (parse_byte by (with_plain b p))
unfolding parse_byte
parse_byte-Aligned by a b p h = parse_in-Aligned p.state by a b p h

-- A call is its first byte and then a call on the rest.
pub parse-cons :
    (by : ℕ) (bs : Bytes) (p : Parser)
    → parse (by ∷ bs) p
      ≡ ((parse bs (parse_byte by p).0).0, (parse_byte by p).1 ++ (parse bs (parse_byte by p).0).1)
unfolding parse parse_bytes
parse-cons by bs p = simp append_assoc

pub parse-nil : (d : Bytes) (p : Parser) → parse [] (with_plain d p) ≡ (with_plain [] p, flush d)
unfolding parse parse_bytes
parse-nil d p = rw emit_plain_data-flush

pub parse-nil_ready : (p : Parser) → p.plain_data ≡ [] → parse [] p ≡ (p, [])
unfolding parse parse_bytes emit_plain_data
parse-nil_ready p e = ground arith

-- Plain data that is held back when a call begins reads as if it stood before what it returns.
parse-held :
    (bs : Bytes) (a b : Bytes) (p : Parser)
    → Inv (with_plain (a ++ b) p)
    → ((parse bs (with_plain (a ++ b) p)).0 ≡ (parse bs (with_plain b p)).0)
      × ((c : Bytes)
          → coalesce c (parse bs (with_plain (a ++ b) p)).1
            ≡ coalesce (c ++ a) (parse bs (with_plain b p)).1)
parse-held [] a b p h =
    rw (parse-nil (a ++ b) p, parse-nil b p)
      (
        refl,
        λ c.
            coalesce-flush_end c (a ++ b)
            ∙ ap flush (sym (append_assoc c a b))
            ∙ sym (coalesce-flush_end (c ++ a) b),
      )
parse-held (by ∷ bs) a b p h =
    let now = parse_byte-Aligned by a b p h in
    let next = (parse_byte by (with_plain b p)).0 in
    let inv = (parse_byte-Inv by (with_plain (a ++ b) p) h).0 in
    let later = parse-held bs now.left next.plain_data next (rw now.parser_eq at inv) in
    rw (parse-cons by bs (with_plain (a ++ b) p), parse-cons by bs (with_plain b p), now.parser_eq)
      (later.0, λ c. now.stream_eq c _ _ later.1)

-- The whole against two pieces.
pub parse-append :
    (xs ys : Bytes) (p : Parser)
    → Inv p
    → let (q, out) = parse xs p in
      ((parse (xs ++ ys) p).0 ≡ (parse ys q).0)
      × ((c : Bytes) → coalesce c (parse (xs ++ ys) p).1 ≡ coalesce c (out ++ (parse ys q).1))
parse-append [] ys p h =
    let whole = parse-held ys p.plain_data [] p (rw (append-nil p.plain_data) h) in
    let held = rw (append-nil p.plain_data) at whole in
    rw (parse-nil p.plain_data p) (held.0, λ c. held.1 c ∙ sym (coalesce-flush c p.plain_data _))
parse-append (by ∷ xs) ys p h =
    let later = parse-append xs ys (parse_byte by p).0 (parse_byte-Inv by p h).0 in
    rw (parse-cons by (xs ++ ys) p, parse-cons by xs p)
      (
        later.0,
        λ c.
            coalesce-congr (parse_byte by p).1 _ _ later.1 c
            ∙ ap (coalesce c) (sym (append_assoc (parse_byte by p).1 _ _)),
      )

-- A sequence of calls of the parser, each on one piece of the input.
unfoldable pub parse_all : List Bytes → Parser → Parser × List Element
parse_all [] p = (p, [])
parse_all (bs ∷ pieces) p =
    let (q, out) = parse bs p in let (r, rest) = parse_all pieces q in (r, out ++ rest)

parse_all-append :
    (pieces : List Bytes) (p : Parser)
    → Inv p
    → p.plain_data ≡ []
    → ((parse (concat pieces) p).0 ≡ (parse_all pieces p).0)
      × ((c : Bytes) → coalesce c (parse (concat pieces) p).1 ≡ coalesce c (parse_all pieces p).1)
unfolding parse_all
parse_all-append [] p h e = rw (parse-nil_ready p e) (refl, λ c. refl)
parse_all-append (bs ∷ pieces) p h e =
    let inv = parse-Inv bs p h in
    let later = parse_all-append pieces (parse bs p).0 inv.0 inv.1 in
    let split = parse-append bs (concat pieces) p h in
    (split.0 ∙ later.0, λ c. split.1 c ∙ coalesce-congr (parse bs p).1 _ _ later.1 c)

-- However the input is cut into pieces, one call for each piece leaves the parser in the state in
-- which one call on the whole leaves it, and hands on elements that read the same once adjacent
-- texts are joined, from any state in which a call can have left the parser.
pub parse_all-concat :
    (pieces : List Bytes) (p : Parser)
    → Inv p
    → p.plain_data ≡ []
    → ((parse_all pieces p).0 ≡ (parse (concat pieces) p).0)
      × (coalesce [] (parse_all pieces p).1 ≡ coalesce [] (parse (concat pieces) p).1)
parse_all-concat pieces p h e =
    let same = parse_all-append pieces p h e in (sym same.0, sym (same.1 []))
