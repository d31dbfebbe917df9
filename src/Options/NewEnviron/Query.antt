-- ===== src/Options/NewEnviron/Query.antt =====
-- A client's request, the server's answer, and what the client makes of it.
use telnetpp.Prelude.{
  ℕ, ◌≡◌, refl, sym, ◌∙◌, ap, Bool, false, List, [], ◌∷◌, ◌++◌, ◌==◌, is_empty, Bytes, Option, none,
  some, arith, append-nil, append_assoc, length,
}
use telnetpp.Options.NewEnviron.{
  is, info, VariableType, var, uservar, Request, Response, type_to_byte, escaped,
  append_escaped-escaped,
}
use telnetpp.Options.NewEnviron.Requests.{request_content, for_each_request}
use telnetpp.Options.NewEnviron.Responses.{for_each_response}
use telnetpp.Options.NewEnviron.RequestTrip.{
  for_each_request-request_content, request_content-encoded,
}
use telnetpp.Options.NewEnviron.RequestTrip
use telnetpp.Options.NewEnviron.ResponseTrip.{
  encoded, encoded_response, without_empty_end, for_each_response-encoded,
}
use telnetpp.Options.NewEnviron.Server.{
  VariableStorage, Server, find, storage_of, append_variable_name, append_variable, append_found,
  append_requested, append_all, handle_subnegotiation, broadcast_variable_update,
  broadcast_variable_deletion,
}
use telnetpp.Options.NewEnviron.Storage.{Call, server_after, latest_value, find-server_after}

append_variable-encoded :
    (storage : Bytes) (t : VariableType) (n v : Bytes)
    → append_variable storage t n v
      ≡ storage ++ encoded_response (record { type = t; name = n; value = some v })
unfolding append_variable append_variable_name
append_variable-encoded storage t n v =
    append_escaped-escaped _ v
    ∙ rw (append_escaped-escaped (storage ++ type_to_byte t ∷ []) n) (simp append_assoc)

-- The variable as a response, if it is found.
abbrev answer_by : Option Bytes → Request → List Response
answer_by (some v) r = record { type = r.type; name = r.name; value = some v } ∷ []
answer_by none r = []

-- What a client should learn from a server with this history: each variable that it asks for and
-- that has a value, in the order of the requests.
abbrev pub answers : List (Bool × Call) → List Request → List Response
answers cs [] = []
answers cs (r ∷ reqs) = answer_by (latest_value cs r.type r.name) r ++ answers cs reqs

append_found-encoded :
    (response : Bytes) (r : Request) (found : Option Bytes)
    → append_found response r.type r.name found ≡ response ++ encoded (answer_by found r)
unfolding append_found
append_found-encoded response r none = rw append-nil
append_found-encoded response r (some v) =
    append_variable-encoded response r.type r.name v ∙ simp append-nil

encoded-append : (xs ys : List Response) → encoded (xs ++ ys) ≡ encoded xs ++ encoded ys
encoded-append [] ys = refl
encoded-append (x ∷ xs) ys = simp (encoded-append xs ys, append_assoc)

append_requested-encoded :
    (cs : List (Bool × Call)) (response : Bytes) (reqs : List Request)
    → append_requested (server_after cs) response reqs ≡ response ++ encoded (answers cs reqs)
unfolding append_requested
append_requested-encoded cs response [] = rw append-nil
append_requested-encoded cs response (r ∷ reqs) =
    let found = latest_value cs r.type r.name in
    append_requested-encoded cs
      (append_found response r.type r.name (find r.name (storage_of r.type (server_after cs)))) reqs
    ∙ rw (find-server_after cs r.type r.name, append_found-encoded response r found)
        (rw (encoded-append (answer_by found r) (answers cs reqs), append_assoc))

-- No variable's name is empty.
abbrev pub AllNamed : List Request → Type 0
AllNamed [] = Unit
AllNamed (r ∷ reqs) = (is_empty r.name ≡ false) × AllNamed reqs

named-requests :
    (r : Request) (reqs : List Request)
    → AllNamed (r ∷ reqs)
    → RequestTrip.without_empty_end r reqs ≡ r ∷ reqs
named-requests r [] h = rw h.0
named-requests r (q ∷ reqs) h = ap (◌∷◌ r) (named-requests q reqs h.1)

abbrev AllNamedResponses : List Response → Type 0
AllNamedResponses [] = Unit
AllNamedResponses (r ∷ rs) = (is_empty r.name ≡ false) × AllNamedResponses rs

named-responses :
    (r : Response) (rs : List Response)
    → AllNamedResponses (r ∷ rs)
    → without_empty_end r rs ≡ r ∷ rs
named-responses r [] h = rw h.0
named-responses r (q ∷ rs) h = ap (◌∷◌ r) (named-responses q rs h.1)

answers-named :
    (cs : List (Bool × Call)) (reqs : List Request)
    → AllNamed reqs
    → AllNamedResponses (answers cs reqs)
answers-named cs [] h = tt
answers-named cs (r ∷ reqs) h = named (latest_value cs r.type r.name) (answers-named cs reqs h.1)
  where
    named :
        (found : Option Bytes)
        → AllNamedResponses (answers cs reqs)
        → AllNamedResponses (answer_by found r ++ answers cs reqs)
    named none k = k
    named (some v) k = (h.0, k)

for_each_response-named :
    (first : ℕ) (rs : List Response)
    → AllNamedResponses rs
    → for_each_response (first ∷ encoded rs) ≡ rs
for_each_response-named first [] h = unfold for_each_response in refl
for_each_response-named first (r ∷ rs) h =
    for_each_response-encoded first r rs ∙ named-responses r rs h

handle_subnegotiation-requests :
    (s : Server) (content : Bytes)
    → (length content == 1) ≡ false
    → handle_subnegotiation content s ≡ append_requested s (is ∷ []) (for_each_request content)
unfolding handle_subnegotiation
handle_subnegotiation-requests s content h = rw h

request_content-long :
    (r : Request) (reqs : List Request) → (length (request_content (r ∷ reqs)) == 1) ≡ false
request_content-long r reqs = rw (request_content-encoded (r ∷ reqs)) (ground arith)

-- A client asks for variables, none with an empty name, a server answers, and the client parses the
-- answer: it learns, in the order of its requests, the value of each variable that the calls on the
-- server have left with one, whatever bytes the names and values hold.
pub for_each_response-handle_subnegotiation :
    (cs : List (Bool × Call)) (r : Request) (reqs : List Request)
    → AllNamed (r ∷ reqs)
    → for_each_response (handle_subnegotiation (request_content (r ∷ reqs)) (server_after cs))
      ≡ answers cs (r ∷ reqs)
for_each_response-handle_subnegotiation cs r reqs h =
    ap for_each_response (
      handle_subnegotiation-requests (server_after cs) _ (request_content-long r reqs)
      ∙ ap (append_requested (server_after cs) (is ∷ []))
          (for_each_request-request_content r reqs ∙ named-requests r reqs h)
      ∙ append_requested-encoded cs (is ∷ []) (r ∷ reqs))
    ∙ for_each_response-named is (answers cs (r ∷ reqs)) (answers-named cs (r ∷ reqs) h)

-- The variables of one map as responses.
abbrev pub listing : VariableType → VariableStorage → List Response
listing t [] = []
listing t ((n, v) ∷ m) = record { type = t; name = n; value = some v } ∷ listing t m

append_all-encoded :
    (t : VariableType) (response : Bytes) (m : VariableStorage)
    → append_all t response m ≡ response ++ encoded (listing t m)
unfolding append_all
append_all-encoded t response [] = rw append-nil
append_all-encoded t response ((n, v) ∷ m) =
    append_all-encoded t (append_variable response t n v) m
    ∙ rw (append_variable-encoded response t n v) (rw append_assoc)

abbrev pub AllKeysNamed : VariableStorage → Type 0
AllKeysNamed [] = Unit
AllKeysNamed ((n, v) ∷ m) = (is_empty n ≡ false) × AllKeysNamed m

listing-named :
    (t : VariableType) (m : VariableStorage) (rs : List Response)
    → AllKeysNamed m
    → AllNamedResponses rs
    → AllNamedResponses (listing t m ++ rs)
listing-named t [] rs h k = k
listing-named t ((n, v) ∷ m) rs h k = (h.0, listing-named t m rs h.1 k)

-- A client that asks for no variable in particular learns all of the server's, the plain ones and
-- then the user's, each in the order of the map, if no name is empty.
pub for_each_response-handle_subnegotiation_all :
    (s : Server)
    → AllKeysNamed s.variables
    → AllKeysNamed s.user_variables
    → for_each_response (handle_subnegotiation (request_content []) s)
      ≡ listing var s.variables ++ listing uservar s.user_variables
unfolding handle_subnegotiation request_content
for_each_response-handle_subnegotiation_all s h k =
    ap for_each_response (
      append_all-encoded uservar (append_all var (is ∷ []) s.variables) s.user_variables
      ∙ rw (append_all-encoded var (is ∷ []) s.variables) (
          ap (◌∷◌ is)
            (sym (encoded-append (listing var s.variables) (listing uservar s.user_variables)))))
    ∙ for_each_response-named is _ (
        listing-named var s.variables _ h
          (rw append-nil at (listing-named uservar s.user_variables [] k tt)))

-- What the server announces of a variable with a name, the client reads: its new value, or none
-- once it is deleted.
pub for_each_response-broadcast :
    (t : VariableType) (n v : Bytes)
    → is_empty n ≡ false
    → (for_each_response (broadcast_variable_update t n v)
        ≡ record { type = t; name = n; value = some v } ∷ [])
      × (for_each_response (broadcast_variable_deletion t n)
          ≡ record { type = t; name = n; value = none } ∷ [])
unfolding broadcast_variable_update broadcast_variable_deletion append_variable_name
for_each_response-broadcast t n v h = (
  ap for_each_response
        (append_variable-encoded (info ∷ []) t n v ∙ ap (◌∷◌ info) (sym (append-nil _)))
      ∙ for_each_response-named info _ (h, tt),
  ap for_each_response (
        append_escaped-escaped (info ∷ type_to_byte t ∷ []) n
        ∙ rw (append-nil (escaped n), append-nil (escaped n)))
      ∙ for_each_response-named info (record { type = t; name = n; value = none } ∷ []) (h, tt),
)
