-- ===== src/Examples/Msdps.antt =====
-- Examples for MSDP.
use telnetpp.Prelude.{◌≡◌, refl, List, [], ◌∷◌, ◌++◌, arith}
use telnetpp.Options.Msdp.{
  var, val, table_close, array_open, array_close, Variable, variable, string_value, array_value,
  table_value, nil, cons,
}
use telnetpp.Options.Msdp.Encoder.{encode, encode_items}
use telnetpp.Options.Msdp.Decoder.{idle, decode, ok, err, no_open_variable, no_item}
use telnetpp.Options.Msdp.Safety.{Explains, decode-Explains}
use telnetpp.Options.Msdp.Faults.{Part, whole, other, front_of, AllParts, decode_faults}
use telnetpp.Options.Msdp.RoundTrip.{IsSendable, decode-encode}
use telnetpp.Options.Msdp.Tables.{
  after_table, array_and_string, decode-after_table, decode-array_and_string,
}

-- A table of a string and a table of one string.
abbrev room : Variable
room = variable (b'r' ∷ []) (
    table_value (
      cons (variable (b'x' ∷ []) (string_value (49 ∷ []))) (
        cons
          (variable (b'y' ∷ [])
            (table_value (cons (variable (b'z' ∷ []) (string_value (50 ∷ []))) nil)))
          nil)))

room-IsSendable : IsSendable room
room-IsSendable = (
  (omega arith, tt),
  (
    refl,
    (λ e. cc e),
    (
      ((omega arith, tt), (refl, tt)),
      (((omega arith, tt), ((λ e. cc e), (((omega arith, tt), (refl, tt)), tt))), tt),
    ),
  ),
)

encode_test :
    encode (variable (b'a' ∷ []) (array_value ((49 ∷ []) ∷ (50 ∷ []) ∷ [])))
    ≡ var ∷ b'a' ∷ val ∷ array_open ∷ val ∷ 49 ∷ val ∷ 50 ∷ array_close ∷ []
unfolding encode encode_items
encode_test = refl

decode-encode_example : decode (encode room) ≡ ok (room ∷ [])
decode-encode_example = decode-encode room room-IsSendable

decode-Explains_example : Explains idle (table_close ∷ []) no_open_variable
decode-Explains_example =
    decode-Explains (table_close ∷ []) no_open_variable (unfold decode in refl)

-- An array of "1" and "2", a table with a string, a string that has ended, and a byte that is ignored.
abbrev ended_parts : List Part
ended_parts =
    whole (variable (b'a' ∷ []) (array_value ((49 ∷ []) ∷ (50 ∷ []) ∷ [])))
    ∷ whole (
        variable (b't' ∷ [])
          (table_value (cons (variable (b'b' ∷ []) (string_value (49 ∷ []))) nil)))
    ∷ other 9
    ∷ whole (variable (b's' ∷ []) (string_value (b'x' ∷ [])))
    ∷ []

ended_parts-AllParts : AllParts ended_parts
ended_parts-AllParts = ground arith

decode_faults_example :
    (decode (front_of ended_parts ++ table_close ∷ array_close ∷ []) ≡ err no_open_variable)
    × (decode (
          front_of ended_parts ++ var ∷ ((b'a' ∷ []) ++ (val ∷ array_open ∷ 49 ∷ array_close ∷ [])))
        ≡ err no_item)
decode_faults_example =
    decode_faults ended_parts (array_close ∷ []) (b'a' ∷ []) 49 ended_parts-AllParts
      (omega arith, tt) (omega arith) (omega arith)

decode-after_table_example :
    decode (after_table (b'a' ∷ []) (b'b' ∷ []) (49 ∷ []) (b'c' ∷ []) (50 ∷ []))
    ≡ ok (
        variable (b'a' ∷ []) (
          table_value (
            cons
              (variable (b'b' ∷ []) (string_value (49 ∷ [])))
              (cons (variable (b'c' ∷ []) (string_value (50 ∷ []))) nil)))
        ∷ [])
decode-after_table_example =
    decode-after_table (b'a' ∷ []) (b'b' ∷ []) (49 ∷ []) (b'c' ∷ []) (50 ∷ []) (omega arith, tt)
      refl (omega arith, tt) (refl, tt) (omega arith, tt) (refl, tt)

decode-array_and_string_example :
    decode
      (encode (array_and_string (b'a' ∷ []) (b'b' ∷ []) ((49 ∷ []) ∷ []) (b'c' ∷ []) (50 ∷ [])))
    ≡ ok (
        variable
          (b'a' ∷ [])
          (table_value (cons (variable (b'b' ∷ []) (array_value ((49 ∷ []) ∷ []))) nil))
        ∷ variable (b'c' ∷ []) (string_value (50 ∷ []))
        ∷ [])
decode-array_and_string_example =
    decode-array_and_string (b'a' ∷ []) (b'b' ∷ []) (b'c' ∷ []) (50 ∷ []) ((49 ∷ []) ∷ [])
      (omega arith, tt) (omega arith, tt) ((refl, tt), tt) (omega arith, tt) (refl, tt)
