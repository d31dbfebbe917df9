-- ===== src/Rot13/Serving.antt =====
-- The server's connections together (examples/rot13server/src/rot13_server.cpp): they are accepted,
-- and their reads end, in any order.
use telnetpp.Prelude.{
  ℕ, ◌≡◌, refl, sym, ap, ◌∙◌, Bool, true, false, ◌||◌, List, [], ◌∷◌, ◌++◌, Bytes, Option, none,
  some, is_empty, ◌==◌, if◌then◌else◌, arith, Bool-cases, inl, inr, ==_iff,
}
use telnetpp.Session.{Channel, Session}
use telnetpp.Rot13.Connection.{Connection, telnet_session, async_read, is_alive}
use telnetpp.Rot13.Owners.{owns, put, put-same, owns-append, owns-death}
use telnetpp.Rot13.Server.{
  schedule_read-snoc, accept, read_handler, schedule_read, connection_death_handler,
}

-- What one of the server's owners points at.
abbrev pub Object : Type 0 → Type 0
Object A = Session (Connection A) × Connection A

-- `connections_`, by the objects' addresses, and the objects.
pub record Server (A : Type 0) : Type 0 where
  pub connections : List (Option ℕ)
  pub objects : ℕ → Option (Object A)

-- A socket is accepted, for which an object is made at some address; or a read of an object ends.
pub data Event (A : Type 0) : Type 0 where
  accepted : ℕ → A → Event A
  arrived : ℕ → Bytes → Event A

is_empty-snoc : {X : Type 0} → (xs : List X) (x : X) → is_empty (xs ++ x ∷ []) ≡ false
is_empty-snoc [] x = refl
is_empty-snoc (y ∷ xs) x = refl

module _ {A : Type 0} (socket : Channel A) (print_type : Bytes → A → A)
    (print_size : ℕ → ℕ → A → A) where
  abbrev new_object : A → Object A
  new_object a = (telnet_session socket, accept socket print_type print_size a)

  -- `new_connection`, with its first `schedule_read`.
  unfoldable pub new_connection : ℕ → A → Server A → Server A
  new_connection address a server = record server {
    connections = server.connections ++ some address ∷ [];
    objects = put address (some (new_object a)) server.objects;
  }

  abbrev pub read : Bytes → Object A → Object A
  read = async_read socket (read_handler socket) (λ c. c)

  -- The end of a read of an object.
  unfoldable pub read_object : ℕ → Bytes → Option (Object A) → Server A → Server A
  unfolding is_alive connection_death_handler
  read_object address bs none server = server
  read_object address bs (some object) server = record server {
    connections =
        if is_alive socket (read bs object).1
        then server.connections
        else connection_death_handler address server.connections;
    objects = put address (some (read bs object)) server.objects;
  }

  -- The end of a read that `schedule_read` has begun, with what it does when it is complete. None is
  -- under way of an object that is gone.
  unfoldable pub read_complete : ℕ → Bytes → Server A → Server A
  unfolding read_object
  read_complete address bs server =
      if owns address server.connections
      then read_object address bs (server.objects address) server
      else server

  -- The server after a sequence of events, the latest first.
  unfoldable pub served : List (Event A) → Server A
  unfolding new_connection read_complete
  served [] = record { connections = []; objects = λ n. none }
  served (accepted address a ∷ older) = new_connection address a (served older)
  served (arrived address bs ∷ older) = read_complete address bs (served older)

  -- The latest socket accepted for an address, and what has arrived there since.
  abbrev one_more : Bytes → Option (A × List Bytes) → Option (A × List Bytes)
  one_more bs none = none
  one_more bs (some (a, reads)) = some (a, reads ++ bs ∷ [])

  abbrev pub lifetime : ℕ → List (Event A) → Option (A × List Bytes)
  lifetime n [] = none
  lifetime n (accepted m a ∷ older) = if n == m then some (a, []) else lifetime n older
  lifetime n (arrived m bs ∷ older) =
      if n == m then one_more bs (lifetime n older) else lifetime n older

  abbrev pub alone : A → List Bytes → Object A × Bool
  alone a reads = schedule_read socket reads (new_object a)

  -- What the server has at an address.
  abbrev pub HasLife : ℕ → Server A → Option (A × List Bytes) → Type 0
  HasLife n server none = owns n server.connections ≡ false
  HasLife n server (some (a, reads)) =
      (server.objects n ≡ some (alone a reads).0)
      × (owns n server.connections ≡ (is_empty reads || (alone a reads).1))

  -- An event elsewhere.
  IsSame : ℕ → Server A → Server A → Type 0
  IsSame n server later =
      (later.objects n ≡ server.objects n) × (owns n later.connections ≡ owns n server.connections)

  HasLife-same :
      (n : ℕ) (server later : Server A) (life : Option (A × List Bytes))
      → IsSame n server later
      → HasLife n server life
      → HasLife n later life
  unfolding IsSame
  HasLife-same n server later none same h = same.1 ∙ h
  HasLife-same n server later (some (a, reads)) same h = (same.0 ∙ h.0, same.1 ∙ h.1)

  read_object-IsSame :
      (n m : ℕ) (bs : Bytes) (o : Option (Object A)) (server : Server A)
      → (n == m) ≡ false
      → IsSame n server (read_object m bs o server)
  unfolding read_object IsSame
  read_object-IsSame n m bs none server e = (refl, refl)
  read_object-IsSame n m bs (some o) server e = elim (Bool-cases (is_alive socket (read bs o).1)) [
    | inl alive ↦ rw alive (rw e refl, refl)
    | inr dead ↦ rw dead (rw e refl, owns-death m n server.connections ∙ ground arith)
  ]

  read_complete-IsSame :
      (n m : ℕ) (bs : Bytes) (server : Server A)
      → (n == m) ≡ false
      → IsSame n server (read_complete m bs server)
  unfolding read_complete IsSame
  read_complete-IsSame n m bs server e = elim (Bool-cases (owns m server.connections)) [
    | inl owned ↦ rw owned (read_object-IsSame n m bs (server.objects m) server e)
    | inr gone ↦ rw gone (refl, refl)
  ]

  new_connection-IsSame :
      (n m : ℕ) (a : A) (server : Server A)
      → (n == m) ≡ false
      → IsSame n server (new_connection m a server)
  unfolding new_connection IsSame
  new_connection-IsSame n m a server e =
      (rw e refl, owns-append n server.connections (some m ∷ []) ∙ ground arith)

  HasLife-new :
      (n : ℕ) (a : A) (server : Server A) → HasLife n (new_connection n a server) (some (a, []))
  unfolding new_connection schedule_read
  HasLife-new n a server = (
    put-same n (some (new_object a)) server.objects,
    owns-append n server.connections (some n ∷ []) ∙ ground (arith, (==_iff n n).1 refl),
  )

  read_object-owned :
      (n : ℕ) (bs : Bytes) (x : Object A) (server : Server A)
      → owns n server.connections ≡ true
      → ((read_object n bs (some x) server).objects n ≡ some (read bs x))
        × (owns n (read_object n bs (some x) server).connections ≡ is_alive socket (read bs x).1)
  unfolding read_object
  read_object-owned n bs x server e = (
    put-same n (some (read bs x)) server.objects,
    elim (Bool-cases (is_alive socket (read bs x).1)) [
      | inl alive ↦ rw alive e
      | inr dead ↦ rw dead (owns-death n n server.connections ∙ ground (arith, (==_iff n n).1 refl))
    ],
  )

  HasLife-read :
      (n : ℕ) (bs : Bytes) (server : Server A) (life : Option (A × List Bytes))
      → HasLife n server life
      → HasLife n (read_complete n bs server) (one_more bs life)
  unfolding read_complete
  HasLife-read n bs server none h = rw h h
  HasLife-read n bs server (some (a, reads)) h =
      let snoc = schedule_read-snoc socket reads bs (new_object a) in
      elim (Bool-cases (is_empty reads || (alone a reads).1)) [
        | inl goes_on ↦
            let owned = h.1 ∙ goes_on in
            let later = read_object-owned n bs (alone a reads).0 server owned in
            let snoc' = rw goes_on at snoc in
            rw (owned, h.0, is_empty-snoc reads bs)
              (later.0 ∙ ap (λ z. some z.0) (sym snoc'), later.1 ∙ ap (λ z. z.1) (sym snoc'))
        | inr over ↦
            let gone = h.1 ∙ over in
            let snoc' = rw over at snoc in
            let died : (alone a reads).1 ≡ false = ground arith in
            rw (gone, is_empty-snoc reads bs)
              (h.0 ∙ ap (λ z. some z.0) (sym snoc'), gone ∙ sym died ∙ ap (λ z. z.1) (sym snoc'))
      ]

  -- Sockets are accepted and reads end in any order. What the server has at an address is then what
  -- the latest socket accepted for it leads to alone, with the reads that have arrived there since
  -- one after the other, whatever happens at other addresses; and it owns the object there exactly if
  -- no read has ended yet or the connection was alive after the last one of the schedule; if none was
  -- accepted, it owns none.
  pub served-lifetime :
      (events : List (Event A)) (n : ℕ) → HasLife n (served events) (lifetime n events)
  unfolding served
  served-lifetime [] n = refl
  served-lifetime (accepted m a ∷ older) n = elim (Bool-cases (n == m)) [
    | inl e ↦ rw (e, (==_iff n m).0 e) (HasLife-new m a (served older))
    | inr e ↦ rw e (
        HasLife-same n (served older) (new_connection m a (served older)) (lifetime n older)
          (new_connection-IsSame n m a (served older) e) (served-lifetime older n))
  ]
  served-lifetime (arrived m bs ∷ older) n = elim (Bool-cases (n == m)) [
    | inl e ↦
        rw (e, sym ((==_iff n m).0 e))
          (HasLife-read n bs (served older) (lifetime n older) (served-lifetime older n))
    | inr e ↦ rw e (
        HasLife-same n (served older) (read_complete m bs (served older)) (lifetime n older)
          (read_complete-IsSame n m bs (served older) e) (served-lifetime older n))
  ]
