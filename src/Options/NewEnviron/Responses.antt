-- ===== src/Options/NewEnviron/Responses.antt =====
-- The parser of the server's responses on the client
-- (include/telnetpp/options/new_environ/detail/response_parser_helper.hpp, for_each_response.hpp).
use telnetpp.Prelude.{
  ℕ, ◌||◌, List, [], ◌∷◌, ◌++◌, ◌==◌, if◌then◌else◌, is_empty, Bytes, Option, none, some,
}
use telnetpp.Options.NewEnviron.{
  esc, var_byte, value_byte, uservar_byte, var, Response, byte_to_type,
}

pub data ParserState : Type 0 where
  state_is_or_info state_type state_name state_name_esc state_value state_value_esc : ParserState

pub record ParsingState : Type 0 where
  pub state : ParserState
  pub rsp : Response

abbrev pub no_response : Response
no_response = record { type = var; name = []; value = none }

-- The type of the first response starts with no value in the source, here `var`.
abbrev pub response_start : ParsingState
response_start = record { state = state_is_or_info; rsp = no_response }

abbrev pub push_name : ℕ → Response → Response
push_name by r = record r { name = r.name ++ by ∷ [] }

-- `value->push_back`. On no value the source has no defined behaviour; here nothing is pushed.
abbrev pub push : ℕ → Option Bytes → Option Bytes
push by (some v) = some (v ++ by ∷ [])
push by none = none

abbrev pub push_value : ℕ → Response → Response
push_value by r = record r { value = push by r.value }

unfoldable pub parse_name : ℕ → ParsingState → ParsingState × List Response
parse_name by s =
    if by == var_byte || by == uservar_byte
    then (
      record { state = state_name; rsp = record no_response { type = byte_to_type by } },
      s.rsp ∷ [],
    )
    else if by == esc
    then (record s { state = state_name_esc }, [])
    else if by == value_byte
    then (let r = s.rsp in (record { state = state_value; rsp = record r { value = some [] } }, []))
    else (record s { rsp = push_name by s.rsp }, [])

unfoldable pub parse_value : ℕ → ParsingState → ParsingState × List Response
parse_value by s =
    if by == var_byte || by == uservar_byte
    then (
      record { state = state_name; rsp = record no_response { type = byte_to_type by } },
      s.rsp ∷ [],
    )
    else if by == esc
    then (record s { state = state_value_esc }, [])
    else (record s { rsp = push_value by s.rsp }, [])

unfoldable pub parse_in : ParserState → ℕ → ParsingState → ParsingState × List Response
unfolding parse_name parse_value
parse_in state_is_or_info by s = (record s { state = state_type }, [])
parse_in state_type by s =
    let r = s.rsp in (record { state = state_name; rsp = record r { type = byte_to_type by } }, [])
parse_in state_name by s = parse_name by s
parse_in state_name_esc by s = (record { state = state_name; rsp = push_name by s.rsp }, [])
parse_in state_value by s = parse_value by s
parse_in state_value_esc by s = (record { state = state_value; rsp = push_value by s.rsp }, [])

unfoldable pub parse_byte : ℕ → ParsingState → ParsingState × List Response
unfolding parse_in
parse_byte by s = parse_in s.state by s

unfoldable pub parse_end : ParsingState → List Response
parse_end s = if is_empty s.rsp.name then [] else s.rsp ∷ []

-- The loop of `for_each_response` from a state, up to its end.
unfoldable pub responses_from : Bytes → ParsingState → List Response
unfolding parse_byte parse_end
responses_from [] s = parse_end s
responses_from (by ∷ bs) s = let (t, out) = parse_byte by s in out ++ responses_from bs t

unfoldable pub for_each_response : Bytes → List Response
unfolding responses_from
for_each_response bs = responses_from bs response_start
