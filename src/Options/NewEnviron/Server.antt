-- ===== src/Options/NewEnviron/Server.antt =====
-- The server's variables and what it sends of them (src/options/new_environ/server.cpp). The two
-- maps are ordered as `std::map` orders them: by their keys, byte by byte.
use telnetpp.Prelude.{
  Bool, true, false, ◌||◌, ◌&&◌, List, [], ◌∷◌, ◌++◌, ◌==◌, ltb, if◌then◌else◌, Bytes, bytes_equal,
  length, Option, none, some,
}
use telnetpp.Options.NewEnviron.{
  is, info, value_byte, VariableType, var, uservar, Request, type_to_byte, append_escaped,
}
use telnetpp.Options.NewEnviron.Requests.{for_each_request}

abbrev pub VariableStorage : Type 0
VariableStorage = List (Bytes × Bytes)

-- `operator<` on keys.
unfoldable pub bytes_less : Bytes → Bytes → Bool
bytes_less [] [] = false
bytes_less [] (y ∷ ys) = true
bytes_less (x ∷ xs) [] = false
bytes_less (x ∷ xs) (y ∷ ys) = ltb x y || (x == y && bytes_less xs ys)

unfoldable pub find : Bytes → VariableStorage → Option Bytes
find k [] = none
find k ((j, v) ∷ m) = if bytes_equal j k then some v else find k m

-- `map[k] = v`.
unfoldable pub assign : Bytes → Bytes → VariableStorage → VariableStorage
unfolding bytes_less
assign k v [] = (k, v) ∷ []
assign k v ((j, w) ∷ m) =
    if bytes_equal j k
    then (j, v) ∷ m
    else if bytes_less k j
    then (k, v) ∷ (j, w) ∷ m
    else (j, w) ∷ assign k v m

unfoldable pub erase : Bytes → VariableStorage → VariableStorage
erase k [] = []
erase k ((j, w) ∷ m) = if bytes_equal j k then m else (j, w) ∷ erase k m

pub record Server : Type 0 where
  pub variables : VariableStorage
  pub user_variables : VariableStorage

-- The two overloads of `append_variable`.
unfoldable pub append_variable_name : Bytes → VariableType → Bytes → Bytes
append_variable_name storage type name = append_escaped (storage ++ type_to_byte type ∷ []) name

unfoldable pub append_variable : Bytes → VariableType → Bytes → Bytes → Bytes
unfolding append_variable_name
append_variable storage type name value =
    append_escaped (append_variable_name storage type name ++ value_byte ∷ []) value

-- The contents of the subnegotiations that announce a change.
unfoldable pub broadcast_variable_update : VariableType → Bytes → Bytes → Bytes
unfolding append_variable
broadcast_variable_update type name value = append_variable (info ∷ []) type name value

unfoldable pub broadcast_variable_deletion : VariableType → Bytes → Bytes
unfolding append_variable_name
broadcast_variable_deletion type name = append_variable_name (info ∷ []) type name

-- What a call writes: nothing while the option is not active.
abbrev when_active : Bool → Bytes → List Bytes
when_active active content = if active then content ∷ [] else []

-- The calls that change a variable. `active` is the option's `active()`; with the new server comes
-- the content of each subnegotiation that is written.
unfoldable pub set_variable : Bool → Bytes → Bytes → Server → Server × List Bytes
unfolding assign broadcast_variable_update
set_variable active name value s = (
  record s { variables = assign name value s.variables },
  when_active active (broadcast_variable_update var name value),
)

unfoldable pub delete_variable : Bool → Bytes → Server → Server × List Bytes
unfolding erase broadcast_variable_deletion
delete_variable active name s = (
  record s { variables = erase name s.variables },
  when_active active (broadcast_variable_deletion var name),
)

unfoldable pub set_user_variable : Bool → Bytes → Bytes → Server → Server × List Bytes
unfolding assign broadcast_variable_update
set_user_variable active name value s = (
  record s { user_variables = assign name value s.user_variables },
  when_active active (broadcast_variable_update uservar name value),
)

unfoldable pub delete_user_variable : Bool → Bytes → Server → Server × List Bytes
unfolding erase broadcast_variable_deletion
delete_user_variable active name s = (
  record s { user_variables = erase name s.user_variables },
  when_active active (broadcast_variable_deletion uservar name),
)

-- The loop over a map in `handle_subnegotiation`.
unfoldable pub append_all : VariableType → Bytes → VariableStorage → Bytes
unfolding append_variable
append_all type response [] = response
append_all type response ((name, value) ∷ m) =
    append_all type (append_variable response type name value) m

-- The loop over the requests there.
abbrev pub storage_of : VariableType → Server → VariableStorage
storage_of var s = s.variables
storage_of uservar s = s.user_variables

unfoldable pub append_found : Bytes → VariableType → Bytes → Option Bytes → Bytes
unfolding append_variable
append_found response type name (some value) = append_variable response type name value
append_found response type name none = response

unfoldable pub append_requested : Server → Bytes → List Request → Bytes
unfolding append_found find
append_requested s response [] = response
append_requested s response (r ∷ reqs) =
    append_requested s (append_found response r.type r.name (find r.name (storage_of r.type s)))
      reqs

-- The content of the subnegotiation with which a request is answered.
unfoldable pub handle_subnegotiation : Bytes → Server → Bytes
unfolding append_all append_requested
handle_subnegotiation content s =
    if length content == 1
    then append_all uservar (append_all var (is ∷ []) s.variables) s.user_variables
    else append_requested s (is ∷ []) (for_each_request content)
