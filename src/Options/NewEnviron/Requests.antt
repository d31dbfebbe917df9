-- ===== src/Options/NewEnviron/Requests.antt =====
-- The client's requests (src/options/new_environ/client.cpp), and their parser on the server
-- (include/telnetpp/options/new_environ/detail/request_parser_helper.hpp, for_each_request.hpp).
use telnetpp.Prelude.{ℕ, ◌||◌, List, [], ◌∷◌, ◌++◌, ◌==◌, if◌then◌else◌, is_empty, Bytes}
use telnetpp.Options.NewEnviron.{
  send, esc, var_byte, uservar_byte, var, Request, type_to_byte, byte_to_type, append_escaped,
}

-- The loop of `request_variables`, and the content that it writes.
unfoldable pub append_requests : Bytes → List Request → Bytes
append_requests content [] = content
append_requests content (r ∷ reqs) =
    append_requests (append_escaped (content ++ type_to_byte r.type ∷ []) r.name) reqs

unfoldable pub request_content : List Request → Bytes
unfolding append_requests
request_content reqs = append_requests (send ∷ []) reqs

pub data RequestParserState : Type 0 where
  state_send state_type state_name state_name_esc : RequestParserState

pub record RequestParsingState : Type 0 where
  pub state : RequestParserState
  pub req : Request

abbrev pub no_request : Request
no_request = record { type = var; name = [] }

-- The type of the first request starts with no value in the source, here `var`.
abbrev pub request_start : RequestParsingState
request_start = record { state = state_send; req = no_request }

abbrev pub push_name : ℕ → Request → Request
push_name by r = record r { name = r.name ++ by ∷ [] }

unfoldable pub parse_request_name : ℕ → RequestParsingState → RequestParsingState × List Request
parse_request_name by s =
    if by == esc
    then (record s { state = state_name_esc }, [])
    else if by == var_byte || by == uservar_byte
    then (record s { req = record no_request { type = byte_to_type by } }, s.req ∷ [])
    else (record s { req = push_name by s.req }, [])

unfoldable pub parse_request_in :
    RequestParserState → ℕ → RequestParsingState → RequestParsingState × List Request
unfolding parse_request_name
parse_request_in state_send by s = (record s { state = state_type }, [])
parse_request_in state_type by s =
    let r = s.req in (record { state = state_name; req = record r { type = byte_to_type by } }, [])
parse_request_in state_name by s = parse_request_name by s
parse_request_in state_name_esc by s = (record { state = state_name; req = push_name by s.req }, [])

unfoldable pub parse_request_byte : ℕ → RequestParsingState → RequestParsingState × List Request
unfolding parse_request_in
parse_request_byte by s = parse_request_in s.state by s

unfoldable pub parse_request_end : RequestParsingState → List Request
parse_request_end s = if is_empty s.req.name then [] else s.req ∷ []

-- The loop of `for_each_request` from a state, up to its end.
unfoldable pub requests_from : Bytes → RequestParsingState → List Request
unfolding parse_request_byte parse_request_end
requests_from [] s = parse_request_end s
requests_from (by ∷ bs) s = let (t, out) = parse_request_byte by s in out ++ requests_from bs t

unfoldable pub for_each_request : Bytes → List Request
unfolding requests_from
for_each_request bs = requests_from bs request_start
