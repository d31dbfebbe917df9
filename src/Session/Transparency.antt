-- ===== src/Session/Transparency.antt =====
-- Two sessions (include/telnetpp/session.hpp), one of which writes and the other reads.
use telnetpp.Prelude.{
  ◌≡◌, ap, ◌∙◌, true, ◌||◌, List, [], ◌∷◌, ◌++◌, ◌==◌, if◌then◌else◌, Bytes, concat, append-nil,
  append_assoc,
}
use telnetpp.Core.{iac, will, wont, dont}
use telnetpp.Element.{Element, text, negotiation, subnegotiation, command}
use telnetpp.Generator.{generate}
use telnetpp.Generator.RoundTrip.{AllSendable, wire, concat-generate_negotiation}
use telnetpp.Session.Registration.{handled}
use telnetpp.Session.Delivery.{delivered}
use telnetpp.Session.Cutting.{Joins, receive_pieces, receive_pieces-wire}
use telnetpp.Session.{installed, Channel, Session, write_all, write, refuse, new_session}

-- What a session has sent to its channel and its application has received, each run together.
pub record Journal : Type 0 where
  pub sent : Bytes
  pub received : Bytes

abbrev pub journal_channel : Channel Journal
journal_channel = record {
  write_bytes = λ bs w. record w { sent = w.sent ++ bs };
  is_alive = λ w. true;
  close = λ w. w;
}

abbrev pub log : Bytes → Journal → Journal
log bs w = record w { received = w.received ++ bs }

-- A call of `write` for each element.
unfoldable pub write_elements : List Element → Journal → Journal
write_elements [] w = w
write_elements (e ∷ es) w = write_elements es (write journal_channel e w)

-- A call of the channel's callback for each piece that is read.
abbrev pub receive_all : List Bytes → Session Journal × Journal → Session Journal × Journal
receive_all = receive_pieces log

-- The text among the elements.
abbrev pub texts : List Element → Bytes
texts [] = []
texts (text bs ∷ es) = bs ++ texts es
texts (_ ∷ es) = texts es

-- A refusal of each negotiation: DONT for WILL and WONT, WONT for DO and DONT.
abbrev pub refusals : List Element → Bytes
refusals [] = []
refusals (negotiation n ∷ es) =
    iac
    ∷ (if n.request == will || n.request == wont then dont else wont)
    ∷ n.option_code
    ∷ refusals es
refusals (_ ∷ es) = refusals es

write_all-sent :
    (spans : List Bytes) (w : Journal)
    → write_all journal_channel spans w ≡ record w { sent = w.sent ++ concat spans }
unfolding write_all
write_all-sent [] w = rw append-nil
write_all-sent (bs ∷ spans) w =
    write_all-sent spans (record w { sent = w.sent ++ bs }) ∙ rw append_assoc

pub write_elements-sent :
    (es : List Element) (w : Journal) → write_elements es w ≡ record w { sent = w.sent ++ wire es }
unfolding write_elements write
write_elements-sent [] w = rw append-nil
write_elements-sent (e ∷ es) w =
    rw (write_all-sent (generate e) w)
      (write_elements-sent es (record w { sent = w.sent ++ concat (generate e) }) ∙ rw append_assoc)

abbrev extended : List Element → Journal → Journal
extended es w = record w { sent = w.sent ++ refusals es; received = w.received ++ texts es }

handled-extended :
    (e : Element) (w : Journal) → handled journal_channel [] log e w ≡ extended (e ∷ []) w
unfolding refuse write
handled-extended (text bs) w = rw (append-nil, append-nil)
handled-extended (negotiation n) w =
    rw (write_all-sent (generate _) w, concat-generate_negotiation, append-nil)
handled-extended (subnegotiation s) w = rw (append-nil, append-nil)
handled-extended (command c) w = rw (append-nil, append-nil)

extended-extended :
    (e : Element) (es : List Element) (w : Journal)
    → extended es (extended (e ∷ []) w) ≡ extended (e ∷ es) w
extended-extended (text bs) es w = simp (append_assoc, append-nil)
extended-extended (negotiation n) es w = simp append_assoc
extended-extended (subnegotiation s) es w = simp (append_assoc, append-nil)
extended-extended (command c) es w = simp (append_assoc, append-nil)

delivered-extended :
    (es : List Element) (w : Journal) → delivered journal_channel [] log es w ≡ extended es w
delivered-extended [] w = rw (append-nil, append-nil)
delivered-extended (e ∷ es) w =
    ap (delivered journal_channel [] log es) (handled-extended e w)
    ∙ delivered-extended es (extended (e ∷ []) w)
    ∙ extended-extended e es w

pub log-Joins : Joins log
log-Joins = (
  λ w. ap (λ x. record w { received = x }) (append-nil w.received),
  λ a b w. ap (λ x. record w { received = x }) (append_assoc w.received a b),
)

-- One session writes any elements that the protocol can express; the bytes reach another, new and
-- with nothing installed, in pieces cut anywhere. Then the application there has received exactly
-- the text, in order, and exactly each negotiation has been refused, in order, with DONT for WILL
-- and WONT and with WONT for DO and DONT.
pub receive_all-write_elements :
    (es : List Element) (pieces : List Bytes) (w : Journal)
    → AllSendable es
    → concat pieces ≡ (write_elements es (record { sent = []; received = [] })).sent
    → (receive_all pieces (new_session journal_channel, w)).1
      ≡ record { sent = w.sent ++ refusals es; received = w.received ++ texts es }
unfolding installed
receive_all-write_elements es pieces w s e =
    let sent = e ∙ ap (λ (z : Journal). z.sent) (write_elements-sent es _) in
    receive_pieces-wire journal_channel [] log es pieces w log-Joins s sent
    ∙ delivered-extended es w
