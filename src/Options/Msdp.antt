-- ===== src/Options/Msdp.antt =====
-- MSDP (include/telnetpp/options/msdp, src/options/msdp): the protocol's values, and variables,
-- which may hold tables of variables.
pub mod Encoder
pub mod Decoder
pub mod Safety
pub mod Runs
pub mod RoundTrip
pub mod Faults
pub mod Tables
pub mod Peers
pub mod Printing
use telnetpp.Prelude.{ℕ, ◌≡◌, ◌≢◌, refl, ap, List, [], ◌∷◌, Bytes}

abbrev pub var : ℕ
var = 1

abbrev pub val : ℕ
val = 2

abbrev pub table_open : ℕ
table_open = 3

abbrev pub table_close : ℕ
table_close = 4

abbrev pub array_open : ℕ
array_open = 5

abbrev pub array_close : ℕ
array_close = 6

mutual
  pub data Variable : Type 0 where
    variable : Bytes → Value → Variable

  -- The three alternatives of `value_type`.
  pub data Value : Type 0 where
    string_value : Bytes → Value
    array_value : List Bytes → Value
    table_value : Table → Value

  -- `std::vector<variable>`.
  pub data Table : Type 0 where
    nil : Table
    cons : Variable → Table → Table

abbrev pub append_table : Table → Table → Table
append_table nil u = u
append_table (cons v t) u = cons v (append_table t u)

-- `emplace_back`.
abbrev pub push_back : Variable → Table → Table
push_back v t = append_table t (cons v nil)

pub append_table-push_back :
    (t u : Table) (v : Variable) → append_table (push_back v t) u ≡ append_table t (cons v u)
append_table-push_back nil u v = refl
append_table-push_back (cons w t) u v = ap (cons w) (append_table-push_back t u v)

pub append_table-nil : (t : Table) → append_table t nil ≡ t
append_table-nil nil = refl
append_table-nil (cons v t) = ap (cons v) (append_table-nil t)

-- The byte is not among these.
abbrev pub Lacks : ℕ → Bytes → Type 0
Lacks by [] = Unit
Lacks by (x ∷ bs) = (x ≢ by) × Lacks by bs
