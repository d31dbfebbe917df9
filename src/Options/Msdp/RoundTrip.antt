-- ===== src/Options/Msdp/RoundTrip.antt =====
-- The decoder (src/options/msdp/detail/decoder.cpp) on what the encoder (encoder.cpp) writes.
use telnetpp.Prelude.{
  ◌≡◌, ◌≢◌, refl, ◌∙◌, ap, false, List, [], ◌∷◌, ◌++◌, is_empty, Bytes, append-nil, append_assoc,
}
use telnetpp.Options.Msdp.{
  var, val, table_open, table_close, array_open, array_close, Variable, variable, Value,
  string_value, array_value, table_value, Table, nil, cons, push_back, Lacks, append_table,
  append_table-push_back, append_table-nil,
}
use telnetpp.Options.Msdp.Encoder.{
  encode_items, encode_variable, encode_value, encode_table, encode,
}
use telnetpp.Options.Msdp.Decoder.{State, idle, value, array, ok, parse_in, parse_from, decode}
use telnetpp.Options.Msdp.Runs.{
  at, parse_from-silent, parse_from-open, parse_from-string, parse_from-item, IsPlain, IsItem,
}

-- The encoding with no accumulator.
abbrev pub encoded_items : List Bytes → Bytes
encoded_items [] = []
encoded_items (item ∷ items) = val ∷ (item ++ encoded_items items)

unfoldable mutual
  pub encoded : Variable → Bytes
  encoded (variable n v) = var ∷ (n ++ (val ∷ encoded_value v))

  pub encoded_value : Value → Bytes
  encoded_value (string_value s) = s
  encoded_value (array_value items) = array_open ∷ (encoded_items items ++ array_close ∷ [])
  encoded_value (table_value t) = encoded_table t

  pub encoded_table : Table → Bytes
  encoded_table nil = []
  encoded_table (cons v t) = table_open ∷ (encoded v ++ (table_close ∷ encoded_table t))

encode_items-encoded :
    (items : List Bytes) (storage : Bytes)
    → encode_items items storage ≡ storage ++ encoded_items items
unfolding encode_items
encode_items-encoded [] storage = rw append-nil
encode_items-encoded (item ∷ items) storage =
    encode_items-encoded items ((storage ++ val ∷ []) ++ item) ∙ simp append_assoc

mutual
  unfolding encode_variable encoded

  pub encode_variable-encoded :
      (v : Variable) (storage : Bytes) → encode_variable v storage ≡ storage ++ encoded v
  encode_variable-encoded (variable n v) storage =
      encode_value-encoded v (((storage ++ var ∷ []) ++ n) ++ val ∷ []) ∙ simp append_assoc

  encode_value-encoded :
      (v : Value) (storage : Bytes) → encode_value v storage ≡ storage ++ encoded_value v
  encode_value-encoded (string_value s) storage = refl
  encode_value-encoded (array_value items) storage =
      rw (encode_items-encoded items (storage ++ array_open ∷ [])) (simp append_assoc)
  encode_value-encoded (table_value t) storage = encode_table-encoded t storage

  encode_table-encoded :
      (t : Table) (storage : Bytes) → encode_table t storage ≡ storage ++ encoded_table t
  encode_table-encoded nil storage = rw append-nil
  encode_table-encoded (cons v t) storage =
      encode_table-encoded t (encode_variable v (storage ++ table_open ∷ []) ++ table_close ∷ [])
      ∙ rw (encode_variable-encoded v (storage ++ table_open ∷ [])) (simp append_assoc)

-- What may stand in a table: strings, and tables that are not empty. Names are free of VAL, strings
-- of the four bytes that end them.
abbrev mutual
  pub IsNested : Variable → Type 0
  IsNested (variable n v) = Lacks val n × IsNestedValue v

  pub IsNestedValue : Value → Type 0
  IsNestedValue (string_value s) = IsPlain s
  IsNestedValue (array_value items) = ⊥
  IsNestedValue (table_value t) = (t ≢ nil) × IsNestedTable t

  pub IsNestedTable : Table → Type 0
  IsNestedTable nil = Unit
  IsNestedTable (cons v t) = IsNested v × IsNestedTable t

-- The stack with the variable around the innermost one.
abbrev pub within : Bytes → Table → List Variable → List Variable
within n t outer = variable n (table_value t) ∷ outer

pub close_string :
    (m s n rest : Bytes) (t : Table) (outer : List Variable)
    → parse_from (table_close ∷ rest) (at value (variable m (string_value s) ∷ within n t outer))
      ≡ parse_from rest (at idle (within n (push_back (variable m (string_value s)) t) outer))
close_string m s n rest t outer =
    parse_from-silent value idle table_close (variable m (string_value s) ∷ within n t outer)
      (within n (push_back (variable m (string_value s)) t) outer) rest (unfold parse_in in refl)

close_table :
    (m n rest : Bytes) (u t : Table) (outer : List Variable)
    → parse_from (table_close ∷ rest) (at idle (within m u (within n t outer)))
      ≡ parse_from rest (at idle (within n (push_back (variable m (table_value u)) t) outer))
close_table m n rest u t outer =
    parse_from-silent idle idle table_close (within m u (within n t outer))
      (within n (push_back (variable m (table_value u)) t) outer) rest (unfold parse_in in refl)

pub skip_open :
    (n rest : Bytes) (t : Table) (outer : List Variable)
    → parse_from (table_open ∷ rest) (at idle (within n t outer))
      ≡ parse_from rest (at idle (within n t outer))
skip_open n rest t outer =
    parse_from-silent idle idle table_open (within n t outer) (within n t outer) rest
      (unfold parse_in in refl)

pub open_table :
    (n rest : Bytes) (outer : List Variable)
    → parse_from (table_open ∷ rest) (at value (variable n (string_value []) ∷ outer))
      ≡ parse_from rest (at idle (within n nil outer))
open_table n rest outer =
    parse_from-silent value idle table_open (variable n (string_value []) ∷ outer)
      (within n nil outer) rest (unfold parse_in in refl)

pub open_within :
    (m n rest : Bytes) (t : Table) (outer : List Variable)
    → Lacks val m
    → parse_from (var ∷ (m ++ (val ∷ rest))) (at idle (within n t outer))
      ≡ parse_from rest (at value (variable m (string_value []) ∷ within n t outer))
open_within m n rest t outer l =
    parse_from-open m rest (within n t outer) l (unfold parse_in in refl)

mutual
  unfolding encoded

  -- An entry of an open table, up to its TABLE_CLOSE.
  entry :
      (v : Variable) (n rest : Bytes) (t : Table) (outer : List Variable)
      → IsNested v
      → parse_from (encoded v ++ (table_close ∷ rest)) (at idle (within n t outer))
        ≡ parse_from rest (at idle (within n (push_back v t) outer))
  entry (variable m v) n rest t outer h =
      rw (append_assoc m (val ∷ encoded_value v) (table_close ∷ rest)) (
        open_within m n (encoded_value v ++ (table_close ∷ rest)) t outer h.0
        ∙ entry_value v m n rest t outer h.1)

  entry_value :
      (v : Value) (m n rest : Bytes) (t : Table) (outer : List Variable)
      → IsNestedValue v
      → parse_from
          (encoded_value v ++ (table_close ∷ rest))
          (at value (variable m (string_value []) ∷ within n t outer))
        ≡ parse_from rest (at idle (within n (push_back (variable m v) t) outer))
  entry_value (string_value s) m n rest t outer h =
      parse_from-string s (table_close ∷ rest) m [] (within n t outer) h
      ∙ close_string m s n rest t outer
  entry_value (array_value items) m n rest t outer h = absurd h
  entry_value (table_value u) m n rest t outer h =
      entries u m (table_close ∷ rest) (within n t outer) h.0 h.1 ∙ close_table m n rest u t outer

  -- The entries of a table that is not empty, from behind its name.
  pub entries :
      (u : Table) (m rest : Bytes) (outer : List Variable)
      → u ≢ nil
      → IsNestedTable u
      → parse_from (encoded_table u ++ rest) (at value (variable m (string_value []) ∷ outer))
        ≡ parse_from rest (at idle (within m u outer))
  entries nil m rest outer ne h = absurd (ne refl)
  entries (cons v u) m rest outer ne h =
      rw (append_assoc (encoded v) (table_close ∷ encoded_table u) rest) (
        open_table m (encoded v ++ (table_close ∷ (encoded_table u ++ rest))) outer
        ∙ entry v m (encoded_table u ++ rest) nil outer h.0
        ∙ more_entries u m rest (cons v nil) outer h.1)

  more_entries :
      (u : Table) (m rest : Bytes) (t : Table) (outer : List Variable)
      → IsNestedTable u
      → parse_from (encoded_table u ++ rest) (at idle (within m t outer))
        ≡ parse_from rest (at idle (within m (append_table t u) outer))
  more_entries nil m rest t outer h = rw (append_table-nil t)
  more_entries (cons v u) m rest t outer h =
      rw (append_assoc (encoded v) (table_close ∷ encoded_table u) rest) (
        skip_open m (encoded v ++ (table_close ∷ (encoded_table u ++ rest))) t outer
        ∙ entry v m (encoded_table u ++ rest) t outer h.0
        ∙ more_entries u m rest (push_back v t) outer h.1
        ∙ rw (append_table-push_back t u v))

-- Arrays.
abbrev pub AllItems : List Bytes → Type 0
AllItems [] = Unit
AllItems (item ∷ items) = IsItem item × AllItems items

pub array_items :
    (items done : List Bytes) (n rest : Bytes) (outer : List Variable)
    → AllItems items
    → parse_from (encoded_items items ++ rest) (at array (variable n (array_value done) ∷ outer))
      ≡ parse_from rest (at array (variable n (array_value (done ++ items)) ∷ outer))
array_items [] done n rest outer h = rw append-nil
array_items (item ∷ items) done n rest outer h = rw (append_assoc item (encoded_items items) rest) (
    parse_from-silent array array val (variable n (array_value done) ∷ outer)
      (variable n (array_value (done ++ [] ∷ [])) ∷ outer) (item ++ (encoded_items items ++ rest))
      (unfold parse_in in refl)
    ∙ parse_from-item item (encoded_items items ++ rest) n [] done outer h.0
    ∙ array_items items (done ++ item ∷ []) n rest outer h.1
    ∙ rw append_assoc)

-- What can be sent: a name free of VAL with a string, an array or a table that is not empty. The
-- name of a string or table is not empty either.
abbrev pub IsSendableValue : Bytes → Value → Type 0
IsSendableValue n (string_value s) = (is_empty n ≡ false) × IsPlain s
IsSendableValue n (array_value items) = AllItems items
IsSendableValue n (table_value t) = (is_empty n ≡ false) × (t ≢ nil) × IsNestedTable t

abbrev pub IsSendable : Variable → Type 0
IsSendable (variable n v) = Lacks val n × IsSendableValue n v

parse_from-end :
    (s : State) (n : Bytes) (v : Value)
    → is_empty n ≡ false
    → parse_from [] (at s (variable n v ∷ [])) ≡ ok (variable n v ∷ [])
unfolding parse_from
parse_from-end s n v h = rw h

array_end :
    (n : Bytes) (items : List Bytes)
    → parse_from (array_close ∷ []) (at array (variable n (array_value items) ∷ []))
      ≡ ok (variable n (array_value items) ∷ [])
unfolding parse_from
array_end n items = refl

decode_value :
    (v : Value) (n : Bytes)
    → IsSendableValue n v
    → parse_from (encoded_value v) (at value (variable n (string_value []) ∷ []))
      ≡ ok (variable n v ∷ [])
unfolding encoded
decode_value (string_value s) n h =
    rw (append-nil s) at (parse_from-string s [] n [] [] h.1)
    ∙ parse_from-end value n (string_value s) h.0
decode_value (array_value items) n h =
    parse_from-silent value array array_open (variable n (string_value []) ∷ [])
      (variable n (array_value []) ∷ []) (encoded_items items ++ array_close ∷ [])
      (unfold parse_in in refl)
    ∙ array_items items [] n (array_close ∷ []) [] h
    ∙ array_end n items
decode_value (table_value t) n h =
    rw (append-nil (encoded_table t)) at (entries t n [] [] h.1 h.2)
    ∙ parse_from-end idle n (table_value t) h.0

-- What the encoder writes of a variable that can be sent, the decoder reads back as that variable
-- alone.
pub decode-encode : (v : Variable) → IsSendable v → decode (encode v) ≡ ok (v ∷ [])
unfolding decode encode encoded
decode-encode (variable n v) h =
    ap decode (encode_variable-encoded (variable n v) [])
    ∙ parse_from-open n (encoded_value v) [] h.0 (unfold parse_in in refl)
    ∙ decode_value v n h.1
