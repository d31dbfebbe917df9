-- ===== src/Options/NewEnviron/Storage.antt =====
-- The server's maps (src/options/new_environ/server.cpp) after a history of calls.
use telnetpp.Prelude.{
  ◌≡◌, refl, ap, ◌∙◌, Bool, true, false, ◌&&◌, List, [], ◌∷◌, if◌then◌else◌, Bytes, bytes_equal,
  bytes_equal_iff, Option, none, some, arith,
}
use telnetpp.Options.NewEnviron.{VariableType, var, uservar}
use telnetpp.Options.NewEnviron.Server.{
  VariableStorage, bytes_less, find, assign, erase, Server, set_variable, delete_variable,
  set_user_variable, delete_user_variable, storage_of,
}

bytes_less_irrefl : (a : Bytes) → bytes_less a a ≡ false
unfolding bytes_less
bytes_less_irrefl [] = refl
bytes_less_irrefl (x ∷ a) = ground (arith, bytes_less_irrefl a)

bytes_less_trans :
    (a b c : Bytes) → bytes_less a b ≡ true → bytes_less b c ≡ true → bytes_less a c ≡ true
unfolding bytes_less
bytes_less_trans (x ∷ a) (y ∷ b) (z ∷ c) h k = ground (arith, bytes_less_trans a b c)
bytes_less_trans _ _ _ h k = ground arith

bytes_less_total :
    (a b : Bytes) → bytes_equal b a ≡ false → bytes_less a b ≡ false → bytes_less b a ≡ true
unfolding bytes_less
bytes_less_total (x ∷ a) (y ∷ b) h k = ground (arith, bytes_less_total a b)
bytes_less_total _ _ h k = ground arith

-- Every key stands behind `k` in the order.
abbrev Behind : Bytes → VariableStorage → Type 0
Behind k [] = Unit
Behind k ((j, w) ∷ m) = (bytes_less k j ≡ true) × Behind k m

abbrev pub IsSorted : VariableStorage → Type 0
IsSorted [] = Unit
IsSorted ((j, w) ∷ m) = Behind j m × IsSorted m

Behind-trans : (k j : Bytes) (m : VariableStorage) → bytes_less k j ≡ true → Behind j m → Behind k m
Behind-trans k j [] h b = tt
Behind-trans k j ((i, w) ∷ m) h b = (bytes_less_trans k j i h b.0, Behind-trans k j m h b.1)

find-Behind : (k : Bytes) (m : VariableStorage) → Behind k m → find k m ≡ none
unfolding find
find-Behind k [] b = refl
find-Behind k ((j, w) ∷ m) b =
    ground (arith, bytes_equal_iff j k, bytes_less_irrefl k, find-Behind k m b.1)

pub find-assign :
    (k j v : Bytes) (m : VariableStorage)
    → find j (assign k v m) ≡ (if bytes_equal k j then some v else find j m)
unfolding find assign
find-assign k j v [] = refl
find-assign k j v ((i, w) ∷ m) =
    ground
      (arith, bytes_equal_iff k j, bytes_equal_iff i k, bytes_equal_iff i j, find-assign k j v m)

pub find-erase :
    (k j : Bytes) (m : VariableStorage)
    → IsSorted m
    → find j (erase k m) ≡ (if bytes_equal k j then none else find j m)
unfolding find erase
find-erase k j [] s = ground arith
find-erase k j ((i, w) ∷ m) s = ground (
  arith,
  bytes_equal_iff k j,
  bytes_equal_iff i k,
  bytes_equal_iff i j,
  find-erase k j m s.1,
  find-Behind i m s.0,
)

assign-Behind :
    (i k v : Bytes) (m : VariableStorage)
    → bytes_less i k ≡ true
    → Behind i m
    → Behind i (assign k v m)
unfolding assign
assign-Behind i k v [] h b = (h, tt)
assign-Behind i k v ((j, w) ∷ m) h b = ground (arith, assign-Behind i k v m h b.1)

pub assign-IsSorted : (k v : Bytes) (m : VariableStorage) → IsSorted m → IsSorted (assign k v m)
unfolding assign
assign-IsSorted k v [] s = (tt, tt)
assign-IsSorted k v ((j, w) ∷ m) s = ground (
  arith,
  assign-IsSorted k v m s.1,
  bytes_less_total k j,
  Behind-trans k j m,
  assign-Behind j k v m,
)

erase-Behind : (i k : Bytes) (m : VariableStorage) → Behind i m → Behind i (erase k m)
unfolding erase
erase-Behind i k [] b = tt
erase-Behind i k ((j, w) ∷ m) b = ground (arith, erase-Behind i k m b.1)

pub erase-IsSorted : (k : Bytes) (m : VariableStorage) → IsSorted m → IsSorted (erase k m)
unfolding erase
erase-IsSorted k [] s = tt
erase-IsSorted k ((j, w) ∷ m) s = ground (arith, erase-IsSorted k m s.1, erase-Behind j k m s.0)

-- The calls that change a variable, while the option is active or not.
pub data Call : Type 0 where
  sets : VariableType → Bytes → Bytes → Call
  deletes : VariableType → Bytes → Call

unfoldable pub call : Bool → Call → Server → Server
unfolding set_variable delete_variable set_user_variable delete_user_variable
call active (sets var name value) s = (set_variable active name value s).0
call active (sets uservar name value) s = (set_user_variable active name value s).0
call active (deletes var name) s = (delete_variable active name s).0
call active (deletes uservar name) s = (delete_user_variable active name s).0

-- A new server after a history of calls, the latest first, each with the option active or not.
unfoldable pub server_after : List (Bool × Call) → Server
unfolding call
server_after [] = record { variables = []; user_variables = [] }
server_after ((active, c) ∷ older) = call active c (server_after older)

abbrev same_type : VariableType → VariableType → Bool
same_type var var = true
same_type uservar uservar = true
same_type _ _ = false

-- The value that the latest call on the variable gave it.
abbrev pub latest_value : List (Bool × Call) → VariableType → Bytes → Option Bytes
latest_value [] t n = none
latest_value ((active, sets u m v) ∷ older) t n =
    if same_type u t && bytes_equal m n then some v else latest_value older t n
latest_value ((active, deletes u m) ∷ older) t n =
    if same_type u t && bytes_equal m n then none else latest_value older t n

-- After any history of calls each of the two maps is in the order of its keys, with no key twice.
server_after-IsSorted :
    (cs : List (Bool × Call)) (t : VariableType) → IsSorted (storage_of t (server_after cs))
unfolding server_after
server_after-IsSorted [] var = tt
server_after-IsSorted [] uservar = tt
server_after-IsSorted ((a, sets var m v) ∷ cs) var =
    assign-IsSorted m v _ (server_after-IsSorted cs var)
server_after-IsSorted ((a, sets var m v) ∷ cs) uservar = server_after-IsSorted cs uservar
server_after-IsSorted ((a, sets uservar m v) ∷ cs) var = server_after-IsSorted cs var
server_after-IsSorted ((a, sets uservar m v) ∷ cs) uservar =
    assign-IsSorted m v _ (server_after-IsSorted cs uservar)
server_after-IsSorted ((a, deletes var m) ∷ cs) var =
    erase-IsSorted m _ (server_after-IsSorted cs var)
server_after-IsSorted ((a, deletes var m) ∷ cs) uservar = server_after-IsSorted cs uservar
server_after-IsSorted ((a, deletes uservar m) ∷ cs) var = server_after-IsSorted cs var
server_after-IsSorted ((a, deletes uservar m) ∷ cs) uservar =
    erase-IsSorted m _ (server_after-IsSorted cs uservar)

-- After any history of calls a variable is found with the value that the latest call on it gave
-- it, and not found if that call deleted it or there was none.
pub find-server_after :
    (cs : List (Bool × Call)) (t : VariableType) (n : Bytes)
    → find n (storage_of t (server_after cs)) ≡ latest_value cs t n
unfolding server_after
find-server_after [] var n = unfold find in refl
find-server_after [] uservar n = unfold find in refl
find-server_after ((a, sets var m v) ∷ cs) var n =
    find-assign m n v _
    ∙ ap (λ z. if bytes_equal m n then some v else z) (find-server_after cs var n)
find-server_after ((a, sets var m v) ∷ cs) uservar n = find-server_after cs uservar n
find-server_after ((a, sets uservar m v) ∷ cs) var n = find-server_after cs var n
find-server_after ((a, sets uservar m v) ∷ cs) uservar n =
    find-assign m n v _
    ∙ ap (λ z. if bytes_equal m n then some v else z) (find-server_after cs uservar n)
find-server_after ((a, deletes var m) ∷ cs) var n =
    find-erase m n _ (server_after-IsSorted cs var)
    ∙ ap (λ z. if bytes_equal m n then none else z) (find-server_after cs var n)
find-server_after ((a, deletes var m) ∷ cs) uservar n = find-server_after cs uservar n
find-server_after ((a, deletes uservar m) ∷ cs) var n = find-server_after cs var n
find-server_after ((a, deletes uservar m) ∷ cs) uservar n =
    find-erase m n _ (server_after-IsSorted cs uservar)
    ∙ ap (λ z. if bytes_equal m n then none else z) (find-server_after cs uservar n)
