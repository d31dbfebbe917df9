-- ===== src/Options/Msdp/Runs.antt =====
-- The decoder (src/options/msdp/detail/decoder.cpp) over the parts of a variable.
use telnetpp.Prelude.{
  ℕ, ◌≡◌, refl, ◌∙◌, false, ◌||◌, List, [], ◌∷◌, ◌++◌, ◌==◌, Bytes, arith, append-nil, append_assoc,
}
use telnetpp.Options.Msdp.{
  var, val, table_open, table_close, array_open, array_close, Variable, variable, Value,
  string_value, array_value, Lacks,
}
use telnetpp.Options.Msdp.Decoder.{
  State, idle, name, value, array, Parser, Result, ok, err, ◌>>=◌, new_variable, parse_in,
  parse_from, extend_last,
}

abbrev pub at : State → List Variable → Parser
at s stack = record { state = s; open_variables = stack }

-- With what the continuation was given before.
abbrev pub after : List Variable → Result (List Variable) → Result (List Variable)
after out r = r >>= λ rest. ok (out ++ rest)

pub after-nil : (r : Result (List Variable)) → after [] r ≡ r
after-nil (ok out) = refl
after-nil (err f) = refl

pub parse_from-step :
    (s t : State) (by : ℕ) (stack stack' out : List Variable) (rest : Bytes)
    → parse_in s by stack ≡ ok (at t stack', out)
    → parse_from (by ∷ rest) (at s stack) ≡ after out (parse_from rest (at t stack'))
unfolding parse_from
parse_from-step s t by stack stack' out rest e = rw e

pub parse_from-silent :
    (s t : State) (by : ℕ) (stack stack' : List Variable) (rest : Bytes)
    → parse_in s by stack ≡ ok (at t stack', [])
    → parse_from (by ∷ rest) (at s stack) ≡ parse_from rest (at t stack')
unfolding parse_from
parse_from-silent s t by stack stack' rest e = rw e (after-nil (parse_from rest (at t stack')))

pub parse_from-name :
    (n rest m : Bytes) (v : Value) (outer : List Variable)
    → Lacks val n
    → parse_from (n ++ rest) (at name (variable m v ∷ outer))
      ≡ parse_from rest (at name (variable (m ++ n) v ∷ outer))
parse_from-name [] rest m v outer l = rw append-nil
parse_from-name (by ∷ n) rest m v outer l =
    parse_from-silent name name by (variable m v ∷ outer) (variable (m ++ by ∷ []) v ∷ outer)
      (n ++ rest) (unfold parse_in in ground arith)
    ∙ parse_from-name n rest (m ++ by ∷ []) v outer l.1
    ∙ rw append_assoc

-- A string may hold any bytes but the four that end it.
abbrev pub IsPlain : Bytes → Type 0
IsPlain [] = Unit
IsPlain (by ∷ s) =
    ((by == var || by == table_open || by == table_close || by == array_open) ≡ false) × IsPlain s

pub parse_from-string :
    (s rest n u : Bytes) (outer : List Variable)
    → IsPlain s
    → parse_from (s ++ rest) (at value (variable n (string_value u) ∷ outer))
      ≡ parse_from rest (at value (variable n (string_value (u ++ s)) ∷ outer))
parse_from-string [] rest n u outer p = rw append-nil
parse_from-string (by ∷ s) rest n u outer p =
    parse_from-silent value value by (variable n (string_value u) ∷ outer)
      (variable n (string_value (u ++ by ∷ [])) ∷ outer) (s ++ rest)
      (unfold parse_in in ground arith)
    ∙ parse_from-string s rest n (u ++ by ∷ []) outer p.1
    ∙ rw append_assoc

-- An item of an array may hold any bytes but the two that end it.
abbrev pub IsItem : Bytes → Type 0
IsItem [] = Unit
IsItem (by ∷ s) = ((by == val || by == array_close) ≡ false) × IsItem s

extend_last-append :
    (by : ℕ) (items : List Bytes) (u : Bytes)
    → extend_last by (items ++ u ∷ []) ≡ ok (items ++ (u ++ by ∷ []) ∷ [])
extend_last-append by [] u = refl
extend_last-append by (item ∷ []) u = refl
extend_last-append by (item ∷ next ∷ items) u = rw (extend_last-append by (next ∷ items) u)

pub parse_from-item :
    (s rest n u : Bytes) (items : List Bytes) (outer : List Variable)
    → IsItem s
    → parse_from (s ++ rest) (at array (variable n (array_value (items ++ u ∷ [])) ∷ outer))
      ≡ parse_from rest (at array (variable n (array_value (items ++ (u ++ s) ∷ [])) ∷ outer))
parse_from-item [] rest n u items outer p = rw append-nil
parse_from-item (by ∷ s) rest n u items outer p =
    parse_from-silent array array by (variable n (array_value (items ++ u ∷ [])) ∷ outer)
      (variable n (array_value (items ++ (u ++ by ∷ []) ∷ [])) ∷ outer) (s ++ rest)
      (unfold parse_in in ground (arith, extend_last-append by items u))
    ∙ parse_from-item s rest n (u ++ by ∷ []) items outer p.1
    ∙ rw append_assoc

-- VAR, a name and VAL where a variable may begin.
pub parse_from-open :
    (n rest : Bytes) (stack : List Variable)
    → Lacks val n
    → parse_in idle var stack ≡ ok (at name (new_variable ∷ stack), [])
    → parse_from (var ∷ (n ++ (val ∷ rest))) (at idle stack)
      ≡ parse_from rest (at value (variable n (string_value []) ∷ stack))
parse_from-open n rest stack l e =
    parse_from-silent idle name var stack _ (n ++ (val ∷ rest)) e
    ∙ parse_from-name n (val ∷ rest) [] (string_value []) stack l
    ∙ parse_from-silent name value val (variable n (string_value []) ∷ stack)
        (variable n (string_value []) ∷ stack) rest (unfold parse_in in refl)
