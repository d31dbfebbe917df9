-- ===== src/Examples/Rot13s.antt =====
-- Examples for the printing of messages and for the server of examples/rot13server.
use telnetpp.Prelude.{
  ◌≡◌, refl, true, List, [], ◌∷◌, ◌++◌, Bytes, some, none, concat, arith, ℕ, append-nil,
  append_assoc,
}
use telnetpp.Core.{ayt, will}
use telnetpp.Element.{Element, text, negotiation, subnegotiation}
use telnetpp.Generator.{generate}
use telnetpp.Generator.RoundTrip.{wire}
use telnetpp.TelnetOption.{inactive, activating, active}
use telnetpp.Session.{Channel, Session, write}
use telnetpp.Printing.{codes, print_command, print_subnegotiation, print_element}
use telnetpp.Printing.Meaning.{print_element_lem}
use telnetpp.Options.Msdp.{Variable, variable, string_value, array_value, table_value, nil, cons}
use telnetpp.Options.Msdp.Printing.{print_variable}
use telnetpp.Rot13.Encode.{rot13_encode}
use telnetpp.Rot13.Connection.{Connection}
use telnetpp.Rot13.Server.{accept, connection_death_handler}
use telnetpp.Rot13.Owners.{owns}
use telnetpp.Rot13.Answers.{served-answers}
use telnetpp.Rot13.Handshake.{agrees, describes, described, served-handshake}
use telnetpp.Rot13.Serving.{Event, accepted, arrived, served, lifetime, HasLife, served-lifetime}
use telnetpp.Rot13.Conversation.{answers, IsStream}

print_command-ayt : print_command (record { value = ayt }) ≡ codes "command[AYT]"
unfolding print_command
print_command-ayt = refl

print_subnegotiation-two :
    print_subnegotiation (record { option = 31; content = 0 ∷ 255 ∷ [] })
    ≡ codes "subnegotiation[0x1F, [0x00, 0xFF]]"
unfolding print_subnegotiation
print_subnegotiation-two = refl

abbrev table : Variable
table = variable (codes "table") (
    table_value (
      cons (variable (codes "val0") (string_value (codes "val00")))
        (cons (variable (codes "val1") (array_value (codes "val010" ∷ codes "val011" ∷ []))) nil)))

print_variable-table : print_variable table ≡ codes "table={val0=\"val00\",val1=[val010,val011]}"
unfolding print_variable
print_variable-table = refl

abbrev will_naws : Element
will_naws = negotiation (record { request = will; option_code = 31 })

abbrev naws_content : Element
naws_content = subnegotiation (record { option = 31; content = 1 ∷ 2 ∷ [] })

print_element_lem_example :
    ((printed : Bytes) × (print_element 1 will_naws ≡ some printed))
    × (print_element 1 will_naws ≡ print_element 1 naws_content → will_naws ≡ naws_content)
    × (print_element 0 (text (codes "abc")) ≡ none)
print_element_lem_example =
    print_element_lem will_naws naws_content 0 (codes "abc") (refl, omega arith)
      (omega arith, ((omega arith), ((omega arith), tt)))

-- A socket that keeps what is written to it.
abbrev socket : Channel (List Bytes)
socket = record {
  write_bytes = λ bs sent. sent ++ bs ∷ [];
  is_alive = λ sent. true;
  close = λ sent. sent;
}

-- The terminal's type is written to the log by the application.
abbrev keep : Bytes → List Bytes → List Bytes
keep type sent = sent ++ type ∷ []

abbrev waiting : Connection (List Bytes)
waiting = record {
  echo = active;
  suppress_ga = active;
  naws = inactive;
  terminal = activating;
  window_size_function = none;
  terminal_type = [];
  terminal_type_requests = keep ∷ keep ∷ [];
  app = [];
}

-- A socket that keeps all that is written to it together.
abbrev stream_socket : Channel Bytes
stream_socket = record {
  write_bytes = λ bs sent. sent ++ bs;
  is_alive = λ sent. true;
  close = λ sent. sent;
}

stream_socket-IsStream : IsStream stream_socket
stream_socket-IsStream = (append-nil, λ xs ys sent. append_assoc sent xs ys)

-- "Why", 0xFF, DO of another option, "y"; cut in the doubled 0xFF, the negotiation and the text.
abbrev asked : List Element
asked =
    text (b'W' ∷ b'h' ∷ b'y' ∷ 255 ∷ [])
    ∷ negotiation (record { request = 253; option_code = 39 })
    ∷ text (b'y' ∷ [])
    ∷ []

abbrev asked_reads : List Bytes
asked_reads =
    (b'W' ∷ b'h' ∷ []) ∷ (b'y' ∷ 255 ∷ []) ∷ (255 ∷ 255 ∷ 253 ∷ []) ∷ (39 ∷ b'y' ∷ []) ∷ []

asked_reads-wire : concat asked_reads ≡ wire asked
unfolding generate
asked_reads-wire = refl

abbrev answered : Bytes
answered = b'J' ∷ b'u' ∷ b'l' ∷ 255 ∷ 255 ∷ 255 ∷ 252 ∷ 39 ∷ b'l' ∷ []

answers-asked : answers asked ≡ answered
unfolding rot13_encode
answers-asked = refl

-- Two sockets, the reads of the first between those of the second; the latest event first.
abbrev ignore_size : ℕ → ℕ → Bytes → Bytes
ignore_size width height sent = sent

abbrev ignore_type : Bytes → Bytes → Bytes
ignore_type type sent = sent

abbrev two_sockets : List (Event Bytes)
two_sockets =
    arrived 8 (39 ∷ b'y' ∷ [])
    ∷ arrived 7 (b'm' ∷ [])
    ∷ arrived 8 (255 ∷ 255 ∷ 253 ∷ [])
    ∷ arrived 8 (b'y' ∷ 255 ∷ [])
    ∷ arrived 7 (255 ∷ [])
    ∷ arrived 8 (b'W' ∷ b'h' ∷ [])
    ∷ accepted 8 []
    ∷ accepted 7 []
    ∷ []

served-lifetime_example :
    HasLife stream_socket ignore_type ignore_size 8
      (served stream_socket ignore_type ignore_size two_sockets)
      (lifetime stream_socket ignore_type ignore_size 8 two_sockets)
served-lifetime_example = served-lifetime stream_socket ignore_type ignore_size two_sockets 8

served-answers_example :
    let c = accept stream_socket ignore_type ignore_size [] in
    let server = served stream_socket ignore_type ignore_size two_sockets in
    (s : Session (Connection Bytes)) × (server.objects 8
      ≡ some (s, record c { app = c.app ++ answers asked }))
    × (owns 8 server.connections ≡ true)
served-answers_example =
    served-answers stream_socket ignore_type ignore_size two_sockets 8 [] asked_reads asked
      stream_socket-IsStream (λ sent. refl) refl (tt, (refl, (tt, tt))) (tt, (refl, (tt, tt)))
      asked_reads-wire

-- All four options, 80 columns and 25 lines, "a", and then "Hi"; the latest event first.
abbrev first_read : Bytes
first_read =
    255 ∷ 253 ∷ 1 ∷ 255 ∷ 253 ∷ 3 ∷ 255 ∷ 251 ∷ 31 ∷ 255 ∷ 251 ∷ 24 ∷ 255 ∷ 250 ∷ 31 ∷ 0 ∷ []

abbrev second_read : Bytes
second_read = 80 ∷ 0 ∷ 25 ∷ 255 ∷ 240 ∷ 255 ∷ 250 ∷ 24 ∷ 0 ∷ b'a' ∷ 255 ∷ 240 ∷ b'H' ∷ b'i' ∷ []

abbrev terminals : List (Event Bytes)
terminals =
    arrived 8 second_read
    ∷ arrived 7 (255 ∷ [])
    ∷ arrived 8 first_read
    ∷ accepted 7 []
    ∷ accepted 8 []
    ∷ []

abbrev says_hi : List Element
says_hi = text (b'H' ∷ b'i' ∷ []) ∷ []

terminal_reads :
    concat (first_read ∷ second_read ∷ [])
    ≡ wire ((agrees ++ describes 80 25 (b'a' ∷ [])) ++ says_hi)
unfolding generate
terminal_reads = refl

abbrev now : Connection Bytes
now =
    described stream_socket ignore_size ignore_type 80 25 (b'a' ∷ [])
      (accept stream_socket ignore_type ignore_size []).app

served-handshake_example :
    (s : Session (Connection Bytes)) × ((served stream_socket ignore_type ignore_size
          terminals).objects
        8
      ≡ some (s, record now { app = now.app ++ answers says_hi }))
    × (owns 8 (served stream_socket ignore_type ignore_size terminals).connections ≡ true)
served-handshake_example =
    served-handshake stream_socket ignore_type ignore_size terminals 8 []
      (first_read ∷ second_read ∷ []) 80 25 (b'a' ∷ []) says_hi stream_socket-IsStream
      (λ sent. refl) refl (omega arith) (omega arith) (tt, tt) (tt, tt) terminal_reads

rot13_encode-why : rot13_encode (codes "Why?") ≡ codes "Jul?"
unfolding rot13_encode
rot13_encode-why = refl

-- Four requests are written when a connection is made.
accept-written :
    concat (accept socket keep (λ width height sent. sent) []).app
    ≡ 255 ∷ 251 ∷ 1 ∷ 255 ∷ 251 ∷ 3 ∷ 255 ∷ 253 ∷ 31 ∷ 255 ∷ 253 ∷ 24 ∷ []
unfolding accept write generate
accept-written = refl

connection_death_handler-second :
    connection_death_handler 8 (some 7 ∷ some 8 ∷ none ∷ some 9 ∷ []) ≡ some 7 ∷ some 9 ∷ []
unfolding connection_death_handler
connection_death_handler-second = refl
