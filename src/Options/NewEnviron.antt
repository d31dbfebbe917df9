-- ===== src/Options/NewEnviron.antt =====
-- NEW-ENVIRON (include/telnetpp/options/new_environ, src/options/new_environ): the protocol's
-- values, and the writing of names and values into a subnegotiation.
pub mod Requests
pub mod Responses
pub mod Server
pub mod RequestTrip
pub mod ResponseTrip
pub mod Storage
pub mod Query
pub mod Client
pub mod Exchange
use telnetpp.Prelude.{
  ℕ, Bool, ◌||◌, true, false, ◌≡◌, refl, ◌∙◌, List, [], ◌∷◌, ◌++◌, ◌==◌, if◌then◌else◌, Bytes,
  Option, none, some, arith, append-nil, append_assoc, Bool-cases, inl, inr,
}

abbrev pub is : ℕ
is = 0

abbrev pub send : ℕ
send = 1

abbrev pub info : ℕ
info = 2

abbrev pub var_byte : ℕ
var_byte = 0

abbrev pub value_byte : ℕ
value_byte = 1

abbrev pub esc : ℕ
esc = 2

abbrev pub uservar_byte : ℕ
uservar_byte = 3

pub data VariableType : Type 0 where
  var uservar : VariableType

pub record Request : Type 0 where
  pub type : VariableType
  pub name : Bytes

pub record Response : Type 0 where
  pub type : VariableType
  pub name : Bytes
  pub value : Option Bytes

abbrev pub type_to_byte : VariableType → ℕ
type_to_byte var = var_byte
type_to_byte uservar = uservar_byte

abbrev pub byte_to_type : ℕ → VariableType
byte_to_type by = if by == var_byte then var else uservar

abbrev pub is_special : ℕ → Bool
is_special ch = ch == var_byte || ch == value_byte || ch == esc || ch == uservar_byte

-- The loop of `append_escaped`.
unfoldable pub append_escaped : Bytes → Bytes → Bytes
append_escaped storage [] = storage
append_escaped storage (ch ∷ content) =
    append_escaped ((if is_special ch then storage ++ esc ∷ [] else storage) ++ ch ∷ []) content

-- The same with no accumulator: `esc` in front of each of the four special bytes.
abbrev pub escaped : Bytes → Bytes
escaped [] = []
escaped (ch ∷ content) = if is_special ch then esc ∷ ch ∷ escaped content else ch ∷ escaped content

pub append_escaped-escaped :
    (storage content : Bytes) → append_escaped storage content ≡ storage ++ escaped content
unfolding append_escaped
append_escaped-escaped storage [] = rw append-nil
append_escaped-escaped storage (ch ∷ content) = elim (Bool-cases (is_special ch)) [
  | inl e ↦ rw e (append_escaped-escaped _ content ∙ simp append_assoc)
  | inr e ↦ rw e (append_escaped-escaped _ content ∙ simp append_assoc)
]
