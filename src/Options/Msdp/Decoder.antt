-- ===== src/Options/Msdp/Decoder.antt =====
-- src/options/msdp/detail/decoder.cpp.
--
-- `current_var_` points from the root variable `var_` down to the innermost open one, each the
-- last entry of the table before it. Here the open variables themselves are a list, the innermost
-- first, and an open variable is put into its table when it is closed or the input ends: until
-- then nothing else reads it. When none is open, `var_` is empty.
use telnetpp.Prelude.{ℕ, List, [], ◌∷◌, ◌++◌, ◌==◌, if◌then◌else◌, is_empty, Bytes}
use telnetpp.Options.Msdp.{
  var, val, table_open, table_close, array_open, array_close, Variable, variable, Value,
  string_value, array_value, table_value, nil, push_back,
}

pub data State : Type 0 where
  idle name value array : State

pub record Parser : Type 0 where
  pub state : State
  pub open_variables : List Variable

-- `bad_variant_access` is the exception of `std::get`. The others are calls with no defined
-- behaviour: `pop_back` or `back` on no open variable, `back` on an empty array.
pub data Fault : Type 0 where
  bad_variant_access no_open_variable no_item : Fault

pub data Result {ℓ} (A : Type ℓ) : Type ℓ where
  ok : A → Result A
  err : Fault → Result A

infixl 5 ◌>>=◌
abbrev pub ◌>>=◌ {ℓ κ} : {A : Type ℓ} {B : Type κ} → Result A → (A → Result B) → Result B
ok a >>= f = f a
err e >>= f = err e

abbrev pub new_variable : Variable
new_variable = variable [] (string_value [])

unfoldable pub open_variable : List Variable → Result (List Variable)
open_variable [] = ok (new_variable ∷ [])
open_variable (variable n (table_value t) ∷ outer) =
    ok (new_variable ∷ variable n (table_value t) ∷ outer)
open_variable (variable n (string_value s) ∷ outer) = err bad_variant_access
open_variable (variable n (array_value items) ∷ outer) = err bad_variant_access

-- A closed variable goes into the table of the one around it; one with no table is left as it is.
abbrev pub put_into : Variable → Variable → Variable
put_into v (variable n (table_value t)) = variable n (table_value (push_back v t))
put_into v outer = outer

-- With the variables that stay open, what the continuation is given.
unfoldable pub close_variable : List Variable → Result (List Variable × List Variable)
close_variable [] = err no_open_variable
close_variable (v ∷ []) = ok ([], v ∷ [])
close_variable (v ∷ outer ∷ rest) = ok (put_into v outer ∷ rest, [])

abbrev at : State → List Variable × List Variable → Parser × List Variable
at s (stack, out) = (record { state = s; open_variables = stack }, out)

-- An assignment to the innermost variable.
unfoldable pub update_top :
    (Variable → Result Variable) → State → List Variable → Result (Parser × List Variable)
update_top f s [] = err no_open_variable
update_top f s (v ∷ outer) = do w ← f v; ok (at s (w ∷ outer, []))

abbrev pub set_value : Value → Variable → Result Variable
set_value v (variable n _) = ok (variable n v)

abbrev pub push_name : ℕ → Variable → Result Variable
push_name by (variable n v) = ok (variable (n ++ by ∷ []) v)

abbrev pub push_string : ℕ → Variable → Result Variable
push_string by (variable n (string_value s)) = ok (variable n (string_value (s ++ by ∷ [])))
push_string by (variable n _) = err bad_variant_access

abbrev pub push_item : Variable → Result Variable
push_item (variable n (array_value items)) = ok (variable n (array_value (items ++ [] ∷ [])))
push_item (variable n _) = err bad_variant_access

-- `value_as_array().back() += data`.
abbrev pub extend_last : ℕ → List Bytes → Result (List Bytes)
extend_last by [] = err no_item
extend_last by (item ∷ []) = ok ((item ++ by ∷ []) ∷ [])
extend_last by (item ∷ next ∷ items) = do rest ← extend_last by (next ∷ items); ok (item ∷ rest)

abbrev pub push_to_item : ℕ → Variable → Result Variable
push_to_item by (variable n (array_value items)) = do
  extended ← extend_last by items
  ok (variable n (array_value extended))
push_to_item by (variable n _) = err bad_variant_access

abbrev closing : List Variable → Result (Parser × List Variable)
closing stack = do closed ← close_variable stack; ok (at idle closed)

unfoldable pub parse_idle : ℕ → List Variable → Result (Parser × List Variable)
unfolding open_variable close_variable
parse_idle by stack =
    if by == var
    then (do opened ← open_variable stack; ok (at name (opened, [])))
    else if by == table_close
    then closing stack
    else ok (at idle (stack, []))

unfoldable pub parse_name : ℕ → List Variable → Result (Parser × List Variable)
unfolding update_top
parse_name by stack =
    if by == val
    then update_top (set_value (string_value [])) value stack
    else update_top (push_name by) name stack

-- `close_variable` and then `open_variable`.
unfoldable pub reopen : List Variable → Result (Parser × List Variable)
unfolding open_variable close_variable
reopen stack = do
  closed ← close_variable stack
  opened ← open_variable closed.0
  ok (at name (opened, closed.1))

unfoldable pub parse_value : ℕ → List Variable → Result (Parser × List Variable)
unfolding update_top close_variable reopen
parse_value by stack =
    if by == array_open
    then update_top (set_value (array_value [])) array stack
    else if by == table_open
    then update_top (set_value (table_value nil)) idle stack
    else if by == table_close
    then closing stack
    else if by == var
    then reopen stack
    else update_top (push_string by) value stack

unfoldable pub parse_array : ℕ → List Variable → Result (Parser × List Variable)
unfolding update_top close_variable
parse_array by stack =
    if by == array_close
    then closing stack
    else if by == val
    then update_top push_item array stack
    else update_top (push_to_item by) array stack

-- The switch on the state.
unfoldable pub parse_in : State → ℕ → List Variable → Result (Parser × List Variable)
unfolding parse_idle parse_name parse_value parse_array
parse_in idle = parse_idle
parse_in name = parse_name
parse_in value = parse_value
parse_in array = parse_array

-- The root, with each open variable put into the table around it.
unfoldable pub root : Variable → List Variable → Variable
root v [] = v
root v (outer ∷ rest) = root (put_into v outer) rest

abbrev name_of : Variable → Bytes
name_of (variable n v) = n

unfoldable pub finish : List Variable → List Variable
unfolding root
finish [] = []
finish (v ∷ outer) = let var_ = root v outer in if is_empty (name_of var_) then [] else var_ ∷ []

-- The loop of `decode` from a state, and the end. A fault is reported without the variables that
-- the continuation was given before it.
unfoldable pub parse_from : Bytes → Parser → Result (List Variable)
unfolding parse_in finish
parse_from [] p = ok (finish p.open_variables)
parse_from (by ∷ bs) p = parse_in p.state by p.open_variables >>= λ (q, out).
    parse_from bs q >>= λ rest. ok (out ++ rest)

unfoldable pub decode : Bytes → Result (List Variable)
unfolding parse_from
decode bs = parse_from bs (record { state = idle; open_variables = [] })
