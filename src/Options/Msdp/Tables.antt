-- ===== src/Options/Msdp/Tables.antt =====
-- Tables in src/options/msdp/detail/encoder.cpp and decoder.cpp: where each puts and takes the end
-- of a table.
use telnetpp.Prelude.{
  ◌≡◌, refl, ap, ◌∙◌, List, [], ◌∷◌, ◌++◌, Bytes, is_empty, false, append_assoc, append-nil,
}
use telnetpp.Options.Msdp.{
  var, val, table_open, table_close, array_open, array_close, Variable, variable, string_value,
  array_value, table_value, Table, nil, cons, push_back, Lacks,
}
use telnetpp.Options.Msdp.Encoder.{encode}
use telnetpp.Options.Msdp.Decoder.{idle, value, array, ok, parse_in, parse_from, decode}
use telnetpp.Options.Msdp.Runs.{
  at, after, parse_from-step, parse_from-silent, parse_from-open, parse_from-string, IsPlain,
}
use telnetpp.Options.Msdp.RoundTrip.{
  encoded, encoded_items, encode_variable-encoded, array_items, AllItems, open_within, open_table,
  within, close_string,
}

-- `a` is a table of the string `b`; behind the table's end follows the string `c`.
pub after_table : Bytes → Bytes → Bytes → Bytes → Bytes → Bytes
after_table a b x c y =
    var
    ∷ (a ++ (val ∷ table_open ∷ var ∷ (b ++ (val ∷ (x ++ (table_close ∷ var ∷ (c ++ (val ∷ y))))))))

-- A string that follows a table of one string in the same content is read as one more entry of the
-- table, if the table's name is not empty, no name has a VAL, and neither string has a VAR, a
-- TABLE_OPEN, a TABLE_CLOSE or an ARRAY_OPEN.
pub decode-after_table :
    (a b x c y : Bytes)
    → Lacks val a
    → is_empty a ≡ false
    → Lacks val b
    → IsPlain x
    → Lacks val c
    → IsPlain y
    → decode (after_table a b x c y)
      ≡ ok (
          variable a (
            table_value
              (cons (variable b (string_value x)) (cons (variable c (string_value y)) nil)))
          ∷ [])
unfolding decode after_table
decode-after_table a b x c y ha ne hb hx hc hy =
    let entry_c = var ∷ (c ++ (val ∷ y)) in
    let entry_b = var ∷ (b ++ (val ∷ (x ++ (table_close ∷ entry_c)))) in
    let table_b = cons (variable b (string_value x)) nil in
    parse_from-open a (table_open ∷ entry_b) [] ha (unfold parse_in in refl)
    ∙ open_table a entry_b []
    ∙ open_within b a (x ++ (table_close ∷ entry_c)) nil [] hb
    ∙ parse_from-string x (table_close ∷ entry_c) b [] (within a nil []) hx
    ∙ close_string b x a entry_c nil []
    ∙ open_within c a y table_b [] hc
    ∙ rw (append-nil y) at (parse_from-string y [] c [] (within a table_b []) hy)
    ∙ open_end c a y table_b ne
  where
    open_end :
        (m n s : Bytes) (t : Table)
        → is_empty n ≡ false
        → parse_from [] (at value (variable m (string_value s) ∷ within n t []))
          ≡ ok (variable n (table_value (push_back (variable m (string_value s)) t)) ∷ [])
    open_end m n s t h = unfold parse_from in rw h

-- A table with an array and a string behind it.
abbrev pub array_and_string : Bytes → Bytes → List Bytes → Bytes → Bytes → Variable
array_and_string a b items c y =
    variable a
      (table_value (cons (variable b (array_value items)) (cons (variable c (string_value y)) nil)))

encoded-shape :
    (a b c y : Bytes) (items : List Bytes)
    → encoded (array_and_string a b items c y)
      ≡ var
        ∷ (a
            ++ (val
                ∷ table_open
                ∷ var
                ∷ (b
                    ++ (val
                        ∷ array_open
                        ∷ (encoded_items items
                            ++ (array_close
                                ∷ table_close
                                ∷ table_open
                                ∷ var
                                ∷ (c ++ (val ∷ (y ++ (table_close ∷ []))))))))))
unfolding encoded
encoded-shape a b c y items = simp append_assoc

-- A table of an array and then a string is encoded so that it is read as two variables: the table
-- with the array alone, and the string. No name has a VAL here, no item of the array a VAL or an
-- ARRAY_CLOSE, and the string no VAR, TABLE_OPEN, TABLE_CLOSE or ARRAY_OPEN.
pub decode-array_and_string :
    (a b c y : Bytes) (items : List Bytes)
    → Lacks val a
    → Lacks val b
    → AllItems items
    → Lacks val c
    → IsPlain y
    → decode (encode (array_and_string a b items c y))
      ≡ ok (
          variable a (table_value (cons (variable b (array_value items)) nil))
          ∷ variable c (string_value y)
          ∷ [])
unfolding decode encode encoded
decode-array_and_string a b c y items ha hb hi hc hy =
    let entry_c = var ∷ (c ++ (val ∷ (y ++ (table_close ∷ [])))) in
    let items_b = encoded_items items ++ (array_close ∷ table_close ∷ table_open ∷ entry_c) in
    let entry_b = var ∷ (b ++ (val ∷ array_open ∷ items_b)) in
    let table_b = cons (variable b (array_value items)) nil in
    ap decode (encode_variable-encoded (array_and_string a b items c y) [])
    ∙ ap decode (encoded-shape a b c y items)
    ∙ parse_from-open a (table_open ∷ entry_b) [] ha (unfold parse_in in refl)
    ∙ open_table a entry_b []
    ∙ open_within b a (array_open ∷ items_b) nil [] hb
    ∙ parse_from-silent value array array_open (variable b (string_value []) ∷ within a nil [])
        (variable b (array_value []) ∷ within a nil []) items_b (unfold parse_in in refl)
    ∙ array_items items [] b (array_close ∷ table_close ∷ table_open ∷ entry_c) (within a nil []) hi
    ∙ parse_from-silent array idle array_close (variable b (array_value items) ∷ within a nil [])
        (within a table_b []) (table_close ∷ table_open ∷ entry_c) (unfold parse_in in refl)
    ∙ parse_from-step idle idle table_close (within a table_b []) []
        (variable a (table_value table_b) ∷ []) (table_open ∷ entry_c) (unfold parse_in in refl)
    ∙ ap (after (variable a (table_value table_b) ∷ [])) (
        parse_from-silent idle idle table_open [] [] entry_c (unfold parse_in in refl)
        ∙ parse_from-open c (y ++ (table_close ∷ [])) [] hc (unfold parse_in in refl)
        ∙ parse_from-string y (table_close ∷ []) c [] [] hy
        ∙ (unfold parse_from in refl))
