-- ===== src/Options/NewEnviron/RequestTrip.antt =====
-- The server's parser (detail/for_each_request.hpp) on what the client (client.cpp) writes.
use telnetpp.Prelude.{
  ℕ, ◌≡◌, refl, ◌∙◌, ap, false, List, [], ◌∷◌, ◌++◌, if◌then◌else◌, is_empty, Bytes, arith,
  append-nil, append_assoc, Bool-cases, inl, inr,
}
use telnetpp.Options.NewEnviron.{
  send, esc, VariableType, var, uservar, Request, type_to_byte, escaped, append_escaped,
  append_escaped-escaped, is_special,
}
use telnetpp.Options.NewEnviron.Requests.{
  append_requests, request_content, state_name, RequestParsingState, push_name, requests_from,
  for_each_request,
}

-- The requests written with no accumulator.
abbrev pub encoded : List Request → Bytes
encoded [] = []
encoded (r ∷ reqs) = type_to_byte r.type ∷ (escaped r.name ++ encoded reqs)

append_requests-encoded :
    (content : Bytes) (reqs : List Request) → append_requests content reqs ≡ content ++ encoded reqs
unfolding append_requests
append_requests-encoded content [] = rw append-nil
append_requests-encoded content (r ∷ reqs) =
    append_requests-encoded (append_escaped (content ++ type_to_byte r.type ∷ []) r.name) reqs
    ∙ rw (append_escaped-escaped (content ++ type_to_byte r.type ∷ []) r.name) (simp append_assoc)

pub request_content-encoded : (reqs : List Request) → request_content reqs ≡ send ∷ encoded reqs
unfolding request_content
request_content-encoded reqs = append_requests-encoded (send ∷ []) reqs

-- In the middle of a request's name.
abbrev naming : Request → RequestParsingState
naming r = record { state = state_name; req = r }

requests_from-plain :
    (ch : ℕ) (rest : Bytes) (r : Request)
    → is_special ch ≡ false
    → requests_from (ch ∷ rest) (naming r) ≡ requests_from rest (naming (push_name ch r))
unfolding requests_from
requests_from-plain ch rest r h = ground arith

requests_from-esc :
    (ch : ℕ) (rest : Bytes) (r : Request)
    → requests_from (esc ∷ ch ∷ rest) (naming r) ≡ requests_from rest (naming (push_name ch r))
unfolding requests_from
requests_from-esc ch rest r = refl

requests_from-escaped :
    (n rest : Bytes) (r : Request)
    → requests_from (escaped n ++ rest) (naming r)
      ≡ requests_from rest (naming (record r { name = r.name ++ n }))
requests_from-escaped [] rest r = rw append-nil
requests_from-escaped (ch ∷ n) rest r = elim (Bool-cases (is_special ch)) [
  | inl h ↦ rw h (
      requests_from-esc ch (escaped n ++ rest) r
      ∙ requests_from-escaped n rest (push_name ch r)
      ∙ rw append_assoc)
  | inr h ↦ rw h (
      requests_from-plain ch (escaped n ++ rest) r h
      ∙ requests_from-escaped n rest (push_name ch r)
      ∙ rw append_assoc)
]

-- What the parser hands on: all requests, but the last only if its name is not empty.
abbrev pub without_empty_end : Request → List Request → List Request
without_empty_end r [] = if is_empty r.name then [] else r ∷ []
without_empty_end r (q ∷ reqs) = r ∷ without_empty_end q reqs

requests_from-type :
    (r : Request) (t : VariableType) (rest : Bytes)
    → requests_from (type_to_byte t ∷ rest) (naming r)
      ≡ r ∷ requests_from rest (naming (record { type = t; name = [] }))
unfolding requests_from
requests_from-type r var rest = refl
requests_from-type r uservar rest = refl

requests_from-encoded :
    (reqs : List Request) (r : Request)
    → requests_from (encoded reqs) (naming r) ≡ without_empty_end r reqs
requests_from-encoded [] r = unfold requests_from in refl
requests_from-encoded (q ∷ reqs) r =
    requests_from-type r q.type (escaped q.name ++ encoded reqs)
    ∙ ap (◌∷◌ r) (requests_from-escaped q.name (encoded reqs) (record { type = q.type; name = [] }))
    ∙ ap (◌∷◌ r) (requests_from-encoded reqs q)

for_each_request-first :
    (q : Request) (rest : Bytes)
    → for_each_request (send ∷ type_to_byte q.type ∷ rest)
      ≡ requests_from rest (naming (record { type = q.type; name = [] }))
unfolding for_each_request
for_each_request-first q rest = ground arith

-- The server reads back the requests of a client, whatever bytes the names hold, but not a last
-- one with an empty name.
pub for_each_request-request_content :
    (q : Request) (reqs : List Request)
    → for_each_request (request_content (q ∷ reqs)) ≡ without_empty_end q reqs
for_each_request-request_content q reqs =
    ap for_each_request (request_content-encoded (q ∷ reqs))
    ∙ for_each_request-first q (escaped q.name ++ encoded reqs)
    ∙ requests_from-escaped q.name (encoded reqs) (record { type = q.type; name = [] })
    ∙ requests_from-encoded reqs q
