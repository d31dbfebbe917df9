-- ===== src/Examples/Core.antt =====
-- Examples for the elements, the parser, the generator and the router.
use telnetpp.Prelude.{ℕ, ◌≡◌, refl, List, [], ◌∷◌, Bytes, concat, some, or_else}
use telnetpp.Core.{will, ayt}
use telnetpp.Element.{Element, Negotiation, text, negotiation, subnegotiation, command}
use telnetpp.Element.Hash.{negotiation_hash}
use telnetpp.Stream.{coalesce}
use telnetpp.Parser.{initial, parse, parse_bytes, parse_byte}
use telnetpp.Parser.Safety.{Inv, AllGood, parse-Inv}
use telnetpp.Parser.Chunks.{parse_all, parse_all-concat}
use telnetpp.Generator.{generate}
use telnetpp.Generator.RoundTrip.{wire, Ready, AllSendable, parse-wire-initial}
use telnetpp.Router.{handler, byte_key}
use telnetpp.Router.Laws.{
  Change, registers, unregisters, sets_unregistered, changed, latest, latest_default,
  handler-changed,
}

abbrev will_echo : Element
will_echo = negotiation (record { request = will; option_code = 1 })

abbrev window : Element
window = subnegotiation (record { option = 31; content = 0 ∷ 255 ∷ 0 ∷ 24 ∷ [] })

abbrev are_you_there : Element
are_you_there = command (record { value = ayt })

abbrev stream : List Element
stream =
    text (b'a' ∷ 255 ∷ []) ∷ text (b'b' ∷ []) ∷ will_echo ∷ window ∷ text [] ∷ are_you_there ∷ []

abbrev stream_bytes : Bytes
stream_bytes =
    b'a' ∷ 255 ∷ 255 ∷ b'b' ∷ 255 ∷ 251 ∷ 1 ∷ 255 ∷ 250 ∷ 31 ∷ 0 ∷ 255 ∷ 255 ∷ 0 ∷ 24 ∷ 255 ∷ 240
    ∷ 255 ∷ 246 ∷ []

wire_test : wire stream ≡ stream_bytes
unfolding generate
wire_test = refl

parse_test :
    (parse stream_bytes initial).1
    ≡ text (b'a' ∷ 255 ∷ b'b' ∷ []) ∷ will_echo ∷ window ∷ are_you_there ∷ []
unfolding parse parse_bytes parse_byte
parse_test = refl

stream_sendable : AllSendable stream
stream_sendable = (tt, (tt, (refl, (tt, (tt, (refl, tt))))))

parse-wire-initial_example :
    Ready (parse (wire stream) initial).0 × ((parse (wire stream) initial).1 ≡ coalesce [] stream)
parse-wire-initial_example = parse-wire-initial stream stream_sendable

abbrev pieces : List Bytes
pieces = (b'a' ∷ 255 ∷ []) ∷ (255 ∷ b'b' ∷ 255 ∷ 251 ∷ []) ∷ [] ∷ (1 ∷ []) ∷ []

parse_all-concat_example :
    ((parse_all pieces initial).0 ≡ (parse (concat pieces) initial).0)
    × (coalesce [] (parse_all pieces initial).1 ≡ coalesce [] (parse (concat pieces) initial).1)
parse_all-concat_example = parse_all-concat pieces initial tt refl

parse-Inv_example :
    Inv (parse stream_bytes initial).0
    × ((parse stream_bytes initial).0.plain_data ≡ [])
    × AllGood (parse stream_bytes initial).1
parse-Inv_example = parse-Inv stream_bytes initial tt

-- The latest first.
abbrev history : List (Change ℕ ℕ)
history = sets_unregistered 9 ∷ registers 1 6 ∷ unregisters 2 ∷ registers 2 7 ∷ registers 1 5 ∷ []

handler-changed_example :
    handler (changed history) 1 ≡ or_else (latest history 1) (latest_default history)
handler-changed_example = handler-changed history 1

latest_test : latest history 1 ≡ some 6
latest_test = refl

abbrev will_terminal_type : Negotiation
will_terminal_type = record { request = will; option_code = 24 }

-- A byte's hash is the byte.
negotiation_hash_test : negotiation_hash (λ x. x) will_terminal_type ≡ 175247687626
unfolding negotiation_hash
negotiation_hash_test = refl
