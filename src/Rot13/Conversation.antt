-- ===== src/Rot13/Conversation.antt =====
-- The reads of one connection of the server (examples/rot13server/src/rot13_server.cpp), from the
-- bytes that arrive to the bytes that are written.
use telnetpp.Prelude.{
  ℕ, ◌≡◌, refl, sym, ap, ◌∙◌, Bool, true, false, ◌&&◌, ◌||◌, leb, ◌+◌, ◌-◌, List, [], ◌∷◌, ◌++◌,
  Bytes, concat, ◌==◌, if◌then◌else◌, arith, none,
}
use telnetpp.Core.{iac, will, wont, dont}
use telnetpp.Element.{Element, text, negotiation, subnegotiation, command, Negotiation}
use telnetpp.Generator.{generate}
use telnetpp.Generator.Escape.{escaped, escaped-append, generate_escaped-escaped}
use telnetpp.Generator.RoundTrip.{AllSendable, wire, concat-generate_negotiation}
use telnetpp.Session.{Channel, Session, receive, refuse, write, write_all}
use telnetpp.Session.Registration.{handled, negotiation_target, subnegotiation_target}
use telnetpp.Session.Delivery.{delivered}
use telnetpp.Session.Cutting.{Joins, receive_pieces, receive_pieces-wire}
use telnetpp.Rot13.Encode.{encode_byte, rot13_encode}
use telnetpp.Rot13.Connection.{
  Connection, channel, telnet_session, installs, async_read, read_callback, is_alive, on_app,
  write_element,
}
use telnetpp.Rot13.Connection.Terminal.{write-channel}
use telnetpp.Rot13.Server.{read_handler, schedule_read}

-- The codes of the connection's options.
abbrev is_known : ℕ → Bool
is_known code = 24 == code || 31 == code || 3 == code || 1 == code

-- Elements that are for none of them.
abbrev pub IsOther : Element → Type 0
IsOther (text bs) = Unit
IsOther (negotiation n) = is_known n.option_code ≡ false
IsOther (subnegotiation s) = is_known s.option ≡ false
IsOther (command c) = Unit

abbrev pub AllOther : List Element → Type 0
AllOther [] = Unit
AllOther (e ∷ es) = IsOther e × AllOther es

-- Each letter thirteen places on, round its alphabet, each NUL as a line feed, and all else as it is.
abbrev pub rotated_byte : ℕ → ℕ
rotated_byte by =
    if by == 0
    then 10
    else if leb b'A' by && leb by b'M' || leb b'a' by && leb by b'm'
    then by + 13
    else if leb b'N' by && leb by b'Z' || leb b'n' by && leb by b'z'
    then by - 13
    else by

abbrev pub rotated : Bytes → Bytes
rotated [] = []
rotated (by ∷ bs) = rotated_byte by ∷ rotated bs

encode_byte-rotated : (by : ℕ) → encode_byte by ≡ rotated_byte by
unfolding encode_byte
encode_byte-rotated by = ground arith

rot13_encode-rotated : (bs : Bytes) → rot13_encode bs ≡ rotated bs
unfolding rot13_encode
rot13_encode-rotated [] = refl
rot13_encode-rotated (by ∷ bs) = rw (encode_byte-rotated by, rot13_encode-rotated bs)

-- What is written in answer.
abbrev pub answer : Element → Bytes
answer (text bs) = escaped (rotated bs)
answer (negotiation n) =
    iac ∷ (if n.request == will || n.request == wont then dont else wont) ∷ n.option_code ∷ []
answer (subnegotiation s) = []
answer (command c) = []

abbrev pub answers : List Element → Bytes
answers [] = []
answers (e ∷ es) = answer e ++ answers es

rot13_encode-append : (a b : Bytes) → rot13_encode (a ++ b) ≡ rot13_encode a ++ rot13_encode b
unfolding rot13_encode
rot13_encode-append [] b = refl
rot13_encode-append (by ∷ a) b = ap (λ z. encode_byte by ∷ z) (rot13_encode-append a b)

-- A socket takes in bytes in pieces or as a whole alike.
abbrev pub IsStream : {A : Type 0} → Channel A → Type 0
IsStream {A} socket =
    ((a : A) → socket.write_bytes [] a ≡ a)
    × ((xs ys : Bytes) (a : A)
        → socket.write_bytes ys (socket.write_bytes xs a) ≡ socket.write_bytes (xs ++ ys) a)

-- What the session calls with text.
abbrev pub handles : {A : Type 0} → Channel A → Bytes → Connection A → Connection A
handles socket = read_callback socket (read_handler socket) (λ c. c)

module _ {A : Type 0} (socket : Channel A) (stream : IsStream socket) where
  abbrev pub sends : Bytes → Connection A → Connection A
  sends bs = on_app (socket.write_bytes bs)

  write_all-concat :
      (spans : List Bytes) (a : A) → write_all socket spans a ≡ socket.write_bytes (concat spans) a
  unfolding write_all
  write_all-concat [] a = sym (stream.0 a)
  write_all-concat (bs ∷ spans) a =
      write_all-concat spans (socket.write_bytes bs a) ∙ stream.1 bs (concat spans) a

  write-sends :
      (e : Element) (c : Connection A) → write (channel socket) e c ≡ sends (concat (generate e)) c
  write-sends e c =
      write-channel socket e c
      ∙ ap (λ a. record c { app = a }) (write_all-concat (generate e) c.app)

  sends-nil : (c : Connection A) → c ≡ sends [] c
  sends-nil c = ap (λ a. record c { app = a }) (sym (stream.0 c.app))

  sends-sends : (xs ys : Bytes) (c : Connection A) → sends ys (sends xs c) ≡ sends (xs ++ ys) c
  sends-sends xs ys c = ap (λ a. record c { app = a }) (stream.1 xs ys c.app)

  handles-sends :
      (bs : Bytes) (c : Connection A) → handles socket bs c ≡ sends (escaped (rot13_encode bs)) c
  unfolding read_handler write_element rot13_encode generate
  handles-sends [] c = sends-nil c
  handles-sends (by ∷ bs) c =
      write-sends (text (rot13_encode (by ∷ bs))) c
      ∙ ap (λ z. sends z c) (generate_escaped-escaped (rot13_encode (by ∷ bs)))

  handles-Joins : Joins (handles socket)
  handles-Joins = (
    λ c. refl,
    λ a b c.
        handles-sends b (handles socket a c)
        ∙ ap (sends (escaped (rot13_encode b))) (handles-sends a c)
        ∙ sends-sends (escaped (rot13_encode a)) (escaped (rot13_encode b)) c
        ∙ ap (λ z. sends z c)
            (sym (escaped-append (rot13_encode a) (rot13_encode b))
              ∙ ap escaped (sym (rot13_encode-append a b)))
        ∙ sym (handles-sends (a ++ b) c),
  )

  negotiation_target-none :
      (n : Negotiation)
      → is_known n.option_code ≡ false
      → negotiation_target (installs socket) n ≡ none
  negotiation_target-none n h = ground arith

  subnegotiation_target-none :
      (code : ℕ) → is_known code ≡ false → subnegotiation_target (installs socket) code ≡ none
  subnegotiation_target-none code h = ground arith

  handled-sends :
      (e : Element) (c : Connection A)
      → IsOther e
      → handled (channel socket) (installs socket) (handles socket) e c ≡ sends (answer e) c
  unfolding refuse
  handled-sends (text bs) c h =
      handles-sends bs c ∙ ap (λ z. sends (escaped z) c) (rot13_encode-rotated bs)
  handled-sends (negotiation n) c h =
      rw (negotiation_target-none n h)
        (write-sends (negotiation _) c ∙ ap (λ z. sends z c) (concat-generate_negotiation _))
  handled-sends (subnegotiation s) c h = rw (subnegotiation_target-none s.option h) (sends-nil c)
  handled-sends (command m) c h = sends-nil c

  pub delivered-sends :
      (es : List Element) (c : Connection A)
      → AllOther es
      → delivered (channel socket) (installs socket) (handles socket) es c ≡ sends (answers es) c
  delivered-sends [] c h = sends-nil c
  delivered-sends (e ∷ es) c h =
      ap (delivered (channel socket) (installs socket) (handles socket) es) (handled-sends e c h.0)
      ∙ delivered-sends es (sends (answer e) c) h.1
      ∙ sends-sends (answer e) (answers es) c

  -- While the connection is alive, nothing ends the schedule.
  schedule_read-pieces :
      (reads : List Bytes) (x : Session (Connection A) × Connection A)
      → ((a : A) → socket.is_alive a ≡ true)
      → schedule_read socket reads x ≡ (receive_pieces (handles socket) reads x, true)
  unfolding schedule_read async_read is_alive receive_pieces
  schedule_read-pieces [] x alive = ap (λ z. (x, z)) (alive x.1.app)
  schedule_read-pieces (bs ∷ reads) x alive =
      rw (alive (receive (handles socket) bs x).1.app)
        (schedule_read-pieces reads (receive (handles socket) bs x) alive)

  -- The bytes of any elements that the protocol can express arrive in reads cut anywhere, and the
  -- connection stays alive.
  pub schedule_read-delivered :
      (es : List Element) (reads : List Bytes) (c : Connection A)
      → ((a : A) → socket.is_alive a ≡ true)
      → AllSendable es
      → concat reads ≡ wire es
      → let r = schedule_read socket reads (telnet_session socket, c) in
        (r.0.1 ≡ delivered (channel socket) (installs socket) (handles socket) es c) × (r.1 ≡ true)
  schedule_read-delivered es reads c alive s e =
      let all = schedule_read-pieces reads (telnet_session socket, c) alive in
      (
        ap (λ z. z.0.1) all
            ∙ receive_pieces-wire (channel socket) (installs socket) (handles socket) es reads c
                handles-Joins s e,
        ap (λ z. z.1) all,
      )
