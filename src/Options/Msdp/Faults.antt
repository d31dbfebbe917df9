-- ===== src/Options/Msdp/Faults.antt =====
-- Where the decoder (src/options/msdp/detail/decoder.cpp) pops a variable from none, or extends an item
-- of none.
use telnetpp.Prelude.{
  ℕ, ◌≡◌, ◌≢◌, ◌∙◌, refl, ap, false, ◌||◌, List, [], ◌∷◌, ◌++◌, ◌==◌, Bytes, arith, append_assoc,
}
use telnetpp.Options.Msdp.{
  var, val, table_close, array_open, array_close, Variable, variable, Value, string_value,
  array_value, table_value, nil, Lacks,
}
use telnetpp.Options.Msdp.Decoder.{
  idle, value, array, no_open_variable, no_item, Fault, err, parse_in, parse_from, decode,
}
use telnetpp.Options.Msdp.Runs.{
  at, after, parse_from-step, parse_from-silent, parse_from-open, parse_from-string, IsPlain,
}
use telnetpp.Options.Msdp.RoundTrip.{
  encoded_items, encoded_value, IsNestedTable, entries, AllItems, array_items,
}

-- What leaves no variable open: a variable with its end, or a byte that is neither VAR nor TABLE_CLOSE.
pub data Part : Type 0 where
  whole : Variable → Part
  other : ℕ → Part

-- An array has an end of its own.
abbrev end_of : Value → Bytes
end_of (array_value items) = []
end_of _ = table_close ∷ []

abbrev part_bytes : Part → Bytes
part_bytes (whole (variable n v)) = var ∷ (n ++ (val ∷ (encoded_value v ++ end_of v)))
part_bytes (other by) = by ∷ []

abbrev pub front_of : List Part → Bytes
front_of [] = []
front_of (part ∷ parts) = part_bytes part ++ front_of parts

abbrev IsWhole : Value → Type 0
IsWhole (string_value s) = IsPlain s
IsWhole (array_value items) = AllItems items
IsWhole (table_value t) = (t ≢ nil) × IsNestedTable t

abbrev IsPart : Part → Type 0
IsPart (whole (variable n v)) = Lacks val n × IsWhole v
IsPart (other by) = (by == var || by == table_close) ≡ false

abbrev pub AllParts : List Part → Type 0
AllParts [] = Unit
AllParts (part ∷ parts) = IsPart part × AllParts parts

parse_from-whole :
    (v : Value) (n rest : Bytes)
    → IsWhole v
    → parse_from
        (encoded_value v ++ (end_of v ++ rest))
        (at value (variable n (string_value []) ∷ []))
      ≡ after (variable n v ∷ []) (parse_from rest (at idle []))
unfolding encoded_value
parse_from-whole (string_value s) n rest h =
    parse_from-string s (table_close ∷ rest) n [] [] h
    ∙ parse_from-step value idle table_close (variable n (string_value s) ∷ []) []
        (variable n (string_value s) ∷ []) rest (unfold parse_in in refl)
parse_from-whole (array_value items) n rest h =
    rw (append_assoc (encoded_items items) (array_close ∷ []) rest) (
      parse_from-silent value array array_open (variable n (string_value []) ∷ [])
        (variable n (array_value []) ∷ []) (encoded_items items ++ array_close ∷ rest)
        (unfold parse_in in refl)
      ∙ array_items items [] n (array_close ∷ rest) [] h
      ∙ parse_from-step array idle array_close (variable n (array_value items) ∷ []) []
          (variable n (array_value items) ∷ []) rest (unfold parse_in in refl))
parse_from-whole (table_value t) n rest h =
    entries t n (table_close ∷ rest) [] h.0 h.1
    ∙ parse_from-step idle idle table_close (variable n (table_value t) ∷ []) []
        (variable n (table_value t) ∷ []) rest (unfold parse_in in refl)

-- A fault behind a part is one of the whole.
part_fault :
    (part : Part) (rest : Bytes) (f : Fault)
    → IsPart part
    → parse_from rest (at idle []) ≡ err f
    → parse_from (part_bytes part ++ rest) (at idle []) ≡ err f
part_fault (whole (variable n v)) rest f h e =
    ap (λ z. parse_from (var ∷ z) (at idle []))
      (append_assoc n (val ∷ (encoded_value v ++ end_of v)) rest
        ∙ ap (λ z. n ++ (val ∷ z)) (append_assoc (encoded_value v) (end_of v) rest))
    ∙ parse_from-open n (encoded_value v ++ (end_of v ++ rest)) [] h.0 (unfold parse_in in refl)
    ∙ parse_from-whole v n rest h.1
    ∙ ap (after (variable n v ∷ [])) e
part_fault (other by) rest f h e =
    parse_from-silent idle idle by [] [] rest (unfold parse_in in ground arith) ∙ e

front_fault :
    (parts : List Part) (rest : Bytes) (f : Fault)
    → AllParts parts
    → parse_from rest (at idle []) ≡ err f
    → parse_from (front_of parts ++ rest) (at idle []) ≡ err f
front_fault [] rest f h e = e
front_fault (part ∷ parts) rest f h e =
    ap (λ z. parse_from z (at idle [])) (append_assoc (part_bytes part) (front_of parts) rest)
    ∙ part_fault part (front_of parts ++ rest) f h.0 (front_fault parts rest f h.1 e)

-- Behind any variables that have ended and any bytes between them that the decoder ignores, so that no
-- variable is open, a TABLE_CLOSE is a fault, whatever follows; and so is, in the array of a further
-- variable, a byte before the first VAL, unless it ends the array. A variable holds a string, an array
-- or a table that is not empty, of strings and such tables, with none of the bytes in a name, a
-- string or an item that end it.
pub decode_faults :
    (parts : List Part) (bs n : Bytes) (by : ℕ)
    → AllParts parts
    → Lacks val n
    → by ≢ array_close
    → by ≢ val
    → (decode (front_of parts ++ table_close ∷ bs) ≡ err no_open_variable)
      × (decode (front_of parts ++ var ∷ (n ++ (val ∷ array_open ∷ by ∷ bs))) ≡ err no_item)
decode_faults parts bs n by ended l h k = (
  unfold decode in
      (front_fault parts (table_close ∷ bs) no_open_variable ended (unfold parse_from in refl)),
  unfold decode in
      (front_fault parts (var ∷ (n ++ (val ∷ array_open ∷ by ∷ bs))) no_item ended (
        parse_from-open n (array_open ∷ by ∷ bs) [] l (unfold parse_in in refl)
        ∙ unfold parse_from in ground arith)),
)
