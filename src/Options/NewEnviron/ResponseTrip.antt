-- ===== src/Options/NewEnviron/ResponseTrip.antt =====
-- The client's parser (detail/for_each_response.hpp) on responses in their byte form.
use telnetpp.Prelude.{
  ℕ, ◌≡◌, refl, ◌∙◌, ap, false, List, [], ◌∷◌, ◌++◌, if◌then◌else◌, is_empty, Bytes, Option, none,
  some, arith, append-nil, append_assoc, Bool-cases, inl, inr,
}
use telnetpp.Options.NewEnviron.{
  esc, value_byte, VariableType, var, uservar, Response, type_to_byte, escaped, is_special,
}
use telnetpp.Options.NewEnviron.Responses.{
  ParsingState, state_name, state_value, no_response, push_name, responses_from, for_each_response,
}

-- A sequence of responses as the server writes it, with no accumulator.
abbrev pub encoded_value : Option Bytes → Bytes
encoded_value none = []
encoded_value (some v) = value_byte ∷ escaped v

abbrev pub encoded_response : Response → Bytes
encoded_response r = type_to_byte r.type ∷ (escaped r.name ++ encoded_value r.value)

abbrev pub encoded : List Response → Bytes
encoded [] = []
encoded (r ∷ rs) = encoded_response r ++ encoded rs

-- In the middle of a response's name, and of its value.
abbrev naming : Response → ParsingState
naming r = record { state = state_name; rsp = r }

abbrev valuing : Response → ParsingState
valuing r = record { state = state_value; rsp = r }

abbrev unnamed : VariableType → Response
unnamed t = record no_response { type = t }

-- At the end of a response.
abbrev pending_by : Option Bytes → Response → ParsingState
pending_by none r = naming r
pending_by (some v) r = valuing r

abbrev pending : Response → ParsingState
pending r = pending_by r.value r

naming-plain :
    (ch : ℕ) (rest : Bytes) (r : Response)
    → is_special ch ≡ false
    → responses_from (ch ∷ rest) (naming r) ≡ responses_from rest (naming (push_name ch r))
unfolding responses_from
naming-plain ch rest r h = ground arith

naming-esc :
    (ch : ℕ) (rest : Bytes) (r : Response)
    → responses_from (esc ∷ ch ∷ rest) (naming r) ≡ responses_from rest (naming (push_name ch r))
unfolding responses_from
naming-esc ch rest r = refl

naming-escaped :
    (n rest : Bytes) (r : Response)
    → responses_from (escaped n ++ rest) (naming r)
      ≡ responses_from rest (naming (record r { name = r.name ++ n }))
naming-escaped [] rest r = rw append-nil
naming-escaped (ch ∷ n) rest r = elim (Bool-cases (is_special ch)) [
  | inl h ↦ rw h (
      naming-esc ch (escaped n ++ rest) r
      ∙ naming-escaped n rest (push_name ch r)
      ∙ rw append_assoc)
  | inr h ↦ rw h (
      naming-plain ch (escaped n ++ rest) r h
      ∙ naming-escaped n rest (push_name ch r)
      ∙ rw append_assoc)
]

abbrev with_value : Bytes → Response → Response
with_value v r = record r { value = some v }

valuing-plain :
    (ch : ℕ) (rest u : Bytes) (r : Response)
    → is_special ch ≡ false
    → responses_from (ch ∷ rest) (valuing (with_value u r))
      ≡ responses_from rest (valuing (with_value (u ++ ch ∷ []) r))
unfolding responses_from
valuing-plain ch rest u r h = ground arith

valuing-esc :
    (ch : ℕ) (rest u : Bytes) (r : Response)
    → responses_from (esc ∷ ch ∷ rest) (valuing (with_value u r))
      ≡ responses_from rest (valuing (with_value (u ++ ch ∷ []) r))
unfolding responses_from
valuing-esc ch rest u r = refl

valuing-escaped :
    (v rest u : Bytes) (r : Response)
    → responses_from (escaped v ++ rest) (valuing (with_value u r))
      ≡ responses_from rest (valuing (with_value (u ++ v) r))
valuing-escaped [] rest u r = rw append-nil
valuing-escaped (ch ∷ v) rest u r = elim (Bool-cases (is_special ch)) [
  | inl h ↦ rw h (
      valuing-esc ch (escaped v ++ rest) u r
      ∙ valuing-escaped v rest (u ++ ch ∷ []) r
      ∙ rw append_assoc)
  | inr h ↦ rw h (
      valuing-plain ch (escaped v ++ rest) u r h
      ∙ valuing-escaped v rest (u ++ ch ∷ []) r
      ∙ rw append_assoc)
]

naming-value :
    (rest : Bytes) (r : Response)
    → responses_from (value_byte ∷ rest) (naming r)
      ≡ responses_from rest (valuing (with_value [] r))
unfolding responses_from
naming-value rest r = refl

-- The rest of a response, from behind its type.
responses_from-body :
    (t : VariableType) (n rest : Bytes) (v : Option Bytes)
    → responses_from ((escaped n ++ encoded_value v) ++ rest) (naming (unnamed t))
      ≡ responses_from rest (pending (record { type = t; name = n; value = v }))
responses_from-body t n rest none =
    rw (append_assoc (escaped n) [] rest) (naming-escaped n rest (unnamed t))
responses_from-body t n rest (some v) =
    let named = record no_response { type = t; name = n } in
    rw (append_assoc (escaped n) (value_byte ∷ escaped v) rest) (
      naming-escaped n (value_byte ∷ (escaped v ++ rest)) (unnamed t)
      ∙ naming-value (escaped v ++ rest) named
      ∙ valuing-escaped v rest [] named)

pending_by-type :
    (v : Option Bytes) (t : VariableType) (rest : Bytes) (r : Response)
    → responses_from (type_to_byte t ∷ rest) (pending_by v r)
      ≡ r ∷ responses_from rest (naming (unnamed t))
unfolding responses_from
pending_by-type none var rest r = refl
pending_by-type none uservar rest r = refl
pending_by-type (some v) var rest r = refl
pending_by-type (some v) uservar rest r = refl

pending_by-end :
    (v : Option Bytes) (r : Response)
    → responses_from [] (pending_by v r) ≡ (if is_empty r.name then [] else r ∷ [])
unfolding responses_from
pending_by-end none r = refl
pending_by-end (some v) r = refl

-- All responses, but the last only if its name is not empty.
abbrev pub without_empty_end : Response → List Response → List Response
without_empty_end r [] = if is_empty r.name then [] else r ∷ []
without_empty_end r (q ∷ rs) = r ∷ without_empty_end q rs

responses_from-encoded :
    (rs : List Response) (r : Response)
    → responses_from (encoded rs) (pending r) ≡ without_empty_end r rs
responses_from-encoded [] r = pending_by-end r.value r
responses_from-encoded (q ∷ rs) r =
    pending_by-type r.value q.type ((escaped q.name ++ encoded_value q.value) ++ encoded rs) r
    ∙ ap (◌∷◌ r) (responses_from-body q.type q.name (encoded rs) q.value)
    ∙ ap (◌∷◌ r) (responses_from-encoded rs q)

for_each_response-first :
    (first : ℕ) (t : VariableType) (rest : Bytes)
    → for_each_response (first ∷ type_to_byte t ∷ rest) ≡ responses_from rest (naming (unnamed t))
unfolding for_each_response
for_each_response-first first var rest = refl
for_each_response-first first uservar rest = refl

-- The client reads back the responses of a server, whatever bytes the names and values hold, but
-- not a last one with an empty name; `first` is IS or INFO.
pub for_each_response-encoded :
    (first : ℕ) (q : Response) (rs : List Response)
    → for_each_response (first ∷ encoded (q ∷ rs)) ≡ without_empty_end q rs
for_each_response-encoded first q rs =
    for_each_response-first first q.type ((escaped q.name ++ encoded_value q.value) ++ encoded rs)
    ∙ responses_from-body q.type q.name (encoded rs) q.value
    ∙ responses_from-encoded rs q
