-- ===== src/Options/Msdp/Encoder.antt =====
-- src/options/msdp/detail/encoder.cpp.
use telnetpp.Prelude.{List, [], ◌∷◌, ◌++◌, Bytes}
use telnetpp.Options.Msdp.{
  var, val, table_open, table_close, array_open, array_close, Variable, variable, Value,
  string_value, array_value, table_value, Table, nil, cons,
}

-- The loop over an array.
unfoldable pub encode_items : List Bytes → Bytes → Bytes
encode_items [] storage = storage
encode_items (item ∷ items) storage = encode_items items ((storage ++ val ∷ []) ++ item)

unfoldable mutual
  pub encode_variable : Variable → Bytes → Bytes
  encode_variable (variable name value) storage =
      encode_value value (((storage ++ var ∷ []) ++ name) ++ val ∷ [])

  pub encode_value : Value → Bytes → Bytes
  encode_value (string_value s) storage = storage ++ s
  encode_value (array_value items) storage =
      encode_items items (storage ++ array_open ∷ []) ++ array_close ∷ []
  encode_value (table_value t) storage = encode_table t storage

  -- The loop over a table.
  pub encode_table : Table → Bytes → Bytes
  encode_table nil storage = storage
  encode_table (cons v t) storage =
      encode_table t (encode_variable v (storage ++ table_open ∷ []) ++ table_close ∷ [])

-- `encode`.
unfoldable pub encode : Variable → Bytes
unfolding encode_variable
encode v = encode_variable v []
