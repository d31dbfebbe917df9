-- ===== src/Options/Msdp/Printing.antt =====
-- The printing of variables (src/options/msdp/variable.cpp).
use telnetpp.Prelude.{List, [], ◌∷◌, ◌++◌, ◌==◌, if◌then◌else◌, Bytes}
use telnetpp.Printing.{codes}
use telnetpp.Options.Msdp.{
  Variable, variable, Value, string_value, array_value, table_value, Table, nil, cons,
}

-- `to_string`: a text is taken up to its first NUL, since it passes through `c_str`.
unfoldable pub to_string : Bytes → Bytes
to_string [] = []
to_string (by ∷ bs) = if by == 0 then [] else by ∷ to_string bs

-- `boost::algorithm::join`, with ",".
unfoldable pub join : List Bytes → Bytes
join [] = []
join (s ∷ []) = s
join (s ∷ t ∷ ss) = s ++ (codes "," ++ join (t ∷ ss))

unfoldable pub strings : List Bytes → List Bytes
unfolding to_string
strings [] = []
strings (item ∷ items) = to_string item ∷ strings items

unfoldable mutual
  unfolding to_string strings join

  pub print_variable : Variable → Bytes
  print_variable (variable name value) = to_string name ++ (codes "=" ++ print_value value)

  pub print_value : Value → Bytes
  print_value (string_value s) = codes "\"" ++ (to_string s ++ codes "\"")
  print_value (array_value items) = codes "[" ++ (join (strings items) ++ codes "]")
  print_value (table_value t) = codes "{" ++ (join (print_table t) ++ codes "}")

  -- Each entry of a table.
  pub print_table : Table → List Bytes
  print_table nil = []
  print_table (cons v t) = print_variable v ∷ print_table t
