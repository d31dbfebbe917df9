-- ===== src/Options/Msdp/Safety.antt =====
-- The faults of the decoder (src/options/msdp/detail/decoder.cpp).
use telnetpp.Prelude.{ℕ, ◌≡◌, ◌⊎◌, refl, List, [], ◌∷◌, ◌++◌, Bytes, arith, inl, inr}
use telnetpp.Options.Msdp.{
  table_close, array_open, Variable, variable, string_value, array_value, table_value, Lacks,
}
use telnetpp.Options.Msdp.Decoder.{
  State, idle, name, value, array, Parser, Fault, bad_variant_access, no_open_variable, no_item,
  Result, ok, err, ◌>>=◌, parse_in, parse_idle, parse_name, parse_value, parse_array, parse_from,
  decode, extend_last,
}

-- The variables around the innermost one hold tables.
abbrev AllTables : List Variable → Type 0
AllTables [] = Unit
AllTables (variable n (table_value t) ∷ outer) = AllTables outer
AllTables (variable n _ ∷ outer) = ⊥

abbrev Inv : State → List Variable → Type 0
Inv idle stack = AllTables stack
Inv name [] = ⊥
Inv name (v ∷ outer) = AllTables outer
Inv value (variable n (string_value s) ∷ outer) = AllTables outer
Inv value _ = ⊥
Inv array (variable n (array_value items) ∷ outer) = AllTables outer
Inv array _ = ⊥

-- What one byte leads to: a state with the invariant, or one of the two faults, each by the byte
-- and in the state that alone can bring it about.
abbrev Safe : State → ℕ → Result (Parser × List Variable) → Type 0
Safe s by (ok (p, out)) =
    Inv p.state p.open_variables × (p.state ≡ array → (s ≡ array) ⊎ (by ≡ array_open))
Safe s by (err bad_variant_access) = ⊥
Safe s by (err no_open_variable) = by ≡ table_close
Safe s by (err no_item) = s ≡ array

parse_idle-Safe :
    (by : ℕ) (stack : List Variable) → AllTables stack → Safe idle by (parse_idle by stack)
unfolding parse_idle
parse_idle-Safe by [] h = ground arith
parse_idle-Safe by (variable n (table_value t) ∷ []) h = ground arith
parse_idle-Safe by (variable n (table_value t) ∷ variable m (table_value u) ∷ outer) h =
    ground arith
parse_idle-Safe by (variable n (table_value t) ∷ variable m (string_value u) ∷ outer) h = absurd h
parse_idle-Safe by (variable n (table_value t) ∷ variable m (array_value u) ∷ outer) h = absurd h
parse_idle-Safe by (variable n (string_value s) ∷ outer) h = absurd h
parse_idle-Safe by (variable n (array_value s) ∷ outer) h = absurd h

parse_name-Safe :
    (by : ℕ) (stack : List Variable) → Inv name stack → Safe name by (parse_name by stack)
unfolding parse_name
parse_name-Safe by [] h = absurd h
parse_name-Safe by (variable n v ∷ outer) h = ground arith

parse_value-Safe :
    (by : ℕ) (stack : List Variable) → Inv value stack → Safe value by (parse_value by stack)
unfolding parse_value
parse_value-Safe by (variable n (string_value s) ∷ []) h = ground arith
parse_value-Safe by (variable n (string_value s) ∷ variable m (table_value u) ∷ outer) h =
    ground arith
parse_value-Safe by (variable n (string_value s) ∷ variable m (string_value u) ∷ outer) h = absurd h
parse_value-Safe by (variable n (string_value s) ∷ variable m (array_value u) ∷ outer) h = absurd h
parse_value-Safe by [] h = absurd h
parse_value-Safe by (variable n (table_value t) ∷ outer) h = absurd h
parse_value-Safe by (variable n (array_value t) ∷ outer) h = absurd h

extend_last_cases :
    (by : ℕ) (items : List Bytes)
    → (extend_last by items ≡ err no_item) ⊎ ((r : List Bytes) × (extend_last by items ≡ ok r))
extend_last_cases by [] = inl refl
extend_last_cases by (item ∷ []) = inr (_, refl)
extend_last_cases by (item ∷ next ∷ items) = ground (arith, extend_last_cases by (next ∷ items))

parse_array-Safe :
    (by : ℕ) (stack : List Variable) → Inv array stack → Safe array by (parse_array by stack)
unfolding parse_array
parse_array-Safe by (variable n (array_value s) ∷ []) h = ground (arith, extend_last_cases by s)
parse_array-Safe by (variable n (array_value s) ∷ variable m (table_value u) ∷ outer) h =
    ground (arith, extend_last_cases by s)
parse_array-Safe by (variable n (array_value s) ∷ variable m (string_value u) ∷ outer) h = absurd h
parse_array-Safe by (variable n (array_value s) ∷ variable m (array_value u) ∷ outer) h = absurd h
parse_array-Safe by [] h = absurd h
parse_array-Safe by (variable n (table_value t) ∷ outer) h = absurd h
parse_array-Safe by (variable n (string_value t) ∷ outer) h = absurd h

parse_in-Safe :
    (s : State) (by : ℕ) (stack : List Variable) → Inv s stack → Safe s by (parse_in s by stack)
unfolding parse_in
parse_in-Safe idle = parse_idle-Safe
parse_in-Safe name = parse_name-Safe
parse_in-Safe value = parse_value-Safe
parse_in-Safe array = parse_array-Safe

-- What a fault says of the input from state `s` on.
abbrev pub Explains : State → Bytes → Fault → Type 0
Explains s bs bad_variant_access = ⊥
Explains s bs no_open_variable = ¬ Lacks table_close bs
Explains s bs no_item = (s ≡ array) ⊎ (¬ Lacks array_open bs)

abbrev continue : Bytes → Result (Parser × List Variable) → Result (List Variable)
continue bs r = r >>= λ (q, out). parse_from bs q >>= λ rest. ok (out ++ rest)

rest-err :
    (r : Result (List Variable)) (out : List Variable) {f : Fault}
    → (r >>= λ rest. ok (out ++ rest)) ≡ err f
    → r ≡ err f
rest-err (ok rest) out e = cc
rest-err (err g) out e = e

Explains-cons :
    (s t : State) (by : ℕ) (bs : Bytes) (f : Fault)
    → (t ≡ array → (s ≡ array) ⊎ (by ≡ array_open))
    → Explains t bs f
    → Explains s (by ∷ bs) f
Explains-cons s t by bs bad_variant_access h x = x
Explains-cons s t by bs no_open_variable h x = λ l. x l.1
Explains-cons s t by bs no_item h (inr x) = inr (λ l. x l.1)
Explains-cons s t by bs no_item h (inl x) = elim (h x) [
  | inl now ↦ inl now
  | inr opens ↦ inr (λ l. l.0 opens)
]

continue-Explains :
    (s : State) (by : ℕ) (bs : Bytes) (r : Result (Parser × List Variable)) (f : Fault)
    → Safe s by r
    → ((q : Parser)
        → Inv q.state q.open_variables
        → parse_from bs q ≡ err f
        → Explains q.state bs f)
    → continue bs r ≡ err f
    → Explains s (by ∷ bs) f
continue-Explains s by bs (ok (q, out)) f h ih e =
    Explains-cons s q.state by bs f h.1 (ih q h.0 (rest-err (parse_from bs q) out e))
continue-Explains s by bs (err bad_variant_access) f h ih e = absurd h
continue-Explains s by bs (err no_open_variable) bad_variant_access h ih e = cc
continue-Explains s by bs (err no_open_variable) no_open_variable h ih e = λ l. l.0 h
continue-Explains s by bs (err no_open_variable) no_item h ih e = cc
continue-Explains s by bs (err no_item) bad_variant_access h ih e = cc
continue-Explains s by bs (err no_item) no_open_variable h ih e = cc
continue-Explains s by bs (err no_item) no_item h ih e = inl h

parse_from-Explains :
    (bs : Bytes) (p : Parser) (f : Fault)
    → Inv p.state p.open_variables
    → parse_from bs p ≡ err f
    → Explains p.state bs f
unfolding parse_from
parse_from-Explains [] p f h e = cc
parse_from-Explains (by ∷ bs) p f h e =
    continue-Explains p.state by bs (parse_in p.state by p.open_variables) f
      (parse_in-Safe p.state by p.open_variables h) (λ q. parse_from-Explains bs q f) e

-- If the decoder runs into a fault on some content, it is not that a value is read as what it is
-- not; it is that a variable is closed where none is open, and then the content has a TABLE_CLOSE,
-- or that an empty array's last item is used, and then it has an ARRAY_OPEN.
pub decode-Explains : (bs : Bytes) (f : Fault) → decode bs ≡ err f → Explains idle bs f
unfolding decode
decode-Explains bs f = parse_from-Explains bs (record { state = idle; open_variables = [] }) f tt
