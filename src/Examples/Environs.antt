-- ===== src/Examples/Environs.antt =====
-- Examples for NEW-ENVIRON.
use telnetpp.Prelude.{◌≡◌, refl, Bool, true, false, List, [], ◌∷◌, ◌++◌, some, none}
use telnetpp.Options.NewEnviron.{var, uservar, Request, Response, append_escaped}
use telnetpp.Options.NewEnviron.Requests.{request_content}
use telnetpp.Options.NewEnviron.Responses.{for_each_response}
use telnetpp.Options.NewEnviron.ResponseTrip
use telnetpp.Options.NewEnviron.ResponseTrip.{encoded, for_each_response-encoded}
use telnetpp.Options.NewEnviron.Server.{Server, find, storage_of, handle_subnegotiation}
use telnetpp.Options.NewEnviron.Storage.{
  Call, sets, deletes, server_after, latest_value, find-server_after,
}
use telnetpp.Options.NewEnviron.Query.{
  answers, listing, for_each_response-handle_subnegotiation_all,
}

-- The latest first; a name and a value hold bytes that are escaped.
abbrev history : List (Bool × Call)
history =
    (true, sets var (b'U' ∷ 3 ∷ []) (2 ∷ 1 ∷ []))
    ∷ (false, deletes var (b'T' ∷ []))
    ∷ (true, sets uservar (b'T' ∷ []) (b'v' ∷ []))
    ∷ (true, sets var (b'T' ∷ []) (b'x' ∷ []))
    ∷ []

abbrev user : Request
user = record { type = var; name = b'U' ∷ 3 ∷ [] }

abbrev terminal : Request
terminal = record { type = var; name = b'T' ∷ [] }

answers_test :
    answers history (terminal ∷ user ∷ [])
    ≡ record { type = var; name = b'U' ∷ 3 ∷ []; value = some (2 ∷ 1 ∷ []) } ∷ []
answers_test = refl

find-server_after_example :
    find (b'T' ∷ []) (storage_of uservar (server_after history))
    ≡ latest_value history uservar (b'T' ∷ [])
find-server_after_example = find-server_after history uservar (b'T' ∷ [])

request_content_test : request_content (user ∷ terminal ∷ []) ≡ 1 ∷ 0 ∷ b'U' ∷ 2 ∷ 3 ∷ 0 ∷ b'T' ∷ []
unfolding request_content append_escaped
request_content_test = refl

abbrev stored : Server
stored = record {
  variables = (b'T' ∷ [], b'x' ∷ []) ∷ [];
  user_variables = (b'U' ∷ [], []) ∷ (b'V' ∷ [], 0 ∷ []) ∷ [];
}

for_each_response-handle_subnegotiation_all_example :
    for_each_response (handle_subnegotiation (request_content []) stored)
    ≡ listing var stored.variables ++ listing uservar stored.user_variables
for_each_response-handle_subnegotiation_all_example =
    for_each_response-handle_subnegotiation_all stored (refl, tt) (refl, (refl, tt))

abbrev changed : Response
changed = record { type = var; name = b'A' ∷ 1 ∷ []; value = some [] }

abbrev deleted : Response
deleted = record { type = uservar; name = b'B' ∷ []; value = none }

for_each_response-encoded_example :
    for_each_response (0 ∷ encoded (deleted ∷ changed ∷ []))
    ≡ ResponseTrip.without_empty_end deleted (changed ∷ [])
for_each_response-encoded_example = for_each_response-encoded 0 deleted (changed ∷ [])
