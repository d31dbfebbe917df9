-- ===== src/Rot13/Server.antt =====
-- The server (examples/rot13server/src/rot13_server.cpp): what it does with its connections.
use telnetpp.Prelude.{
  is_empty, Bool-cases, inl, inr, ◌||◌, refl, ℕ, ◌≡◌, ap, ◌∙◌, false, List, [], ◌∷◌, ◌++◌, Bytes,
  Bool, Option, none, some, ◌==◌, if◌then◌else◌, arith,
}
use telnetpp.Element.{text}
use telnetpp.Generator.{generate}
use telnetpp.Generator.RoundTrip.{wire}
use telnetpp.Session.{Channel, Session, write_all}
use telnetpp.Session.Delivery.{receive-wire}
use telnetpp.Rot13.Encode.{rot13_encode}
use telnetpp.Rot13.Connection.{
  Connection, async_get_terminal_type, set_window_size_function, new_connection, channel,
  telnet_session, installs, async_read, read_callback, write_element, is_alive,
}
use telnetpp.Rot13.Connection.Terminal.{write-channel}

module _ {A : Type 0} (socket : Channel A) where
  -- `new_connection`, up to its first read; the two functions print what they are given.
  unfoldable pub accept : (Bytes → A → A) → (ℕ → ℕ → A → A) → A → Connection A
  unfolding async_get_terminal_type set_window_size_function new_connection
  accept print_type print_size a =
      set_window_size_function print_size
        (async_get_terminal_type print_type (new_connection socket a))

  unfoldable pub read_handler : Bytes → Connection A → Connection A
  unfolding write_element
  read_handler content = write_element socket (text (rot13_encode content))

  -- `schedule_read`: while the connection is alive, one read after the other. With the connection
  -- comes whether it is alive in the end.
  unfoldable pub schedule_read :
      List Bytes
      → Session (Connection A) × Connection A
      → (Session (Connection A) × Connection A) × Bool
  unfolding read_handler async_read is_alive
  schedule_read [] x = (x, is_alive socket x.1)
  schedule_read (bs ∷ reads) x =
      let y = async_read socket (read_handler) (λ c. c) bs x in
      let rest = schedule_read reads y in if is_alive socket y.1 then rest else (y, false)

-- `connection_death_handler`: the vector's owners of the dead connection are reset, and then those
-- that own none are erased. A connection is named by its address.
unfoldable pub reset_dead : ℕ → List (Option ℕ) → List (Option ℕ)
reset_dead dead [] = []
reset_dead dead (none ∷ owners) = none ∷ reset_dead dead owners
reset_dead dead (some c ∷ owners) = (if c == dead then none else some c) ∷ reset_dead dead owners

unfoldable pub erase_reset : List (Option ℕ) → List (Option ℕ)
erase_reset [] = []
erase_reset (none ∷ owners) = erase_reset owners
erase_reset (some c ∷ owners) = some c ∷ erase_reset owners

unfoldable pub connection_death_handler : ℕ → List (Option ℕ) → List (Option ℕ)
unfolding reset_dead erase_reset
connection_death_handler dead owners = erase_reset (reset_dead dead owners)

module _ {A : Type 0} (socket : Channel A) where
  abbrev pub read :
      Bytes → Session (Connection A) × Connection A → Session (Connection A) × Connection A
  read = async_read socket (read_handler socket) (λ c. c)

  abbrev pub one_read :
      Bytes → Session (Connection A) × Connection A → (Session (Connection A) × Connection A) × Bool
  one_read bs x = (read bs x, is_alive socket (read bs x).1)

  schedule_read-one :
      (bs : Bytes) (x : Session (Connection A) × Connection A)
      → schedule_read socket (bs ∷ []) x ≡ one_read bs x
  unfolding schedule_read
  schedule_read-one bs x = ground arith

  -- One more read of a schedule, if it goes on.
  pub schedule_read-snoc :
      (reads : List Bytes) (bs : Bytes) (x : Session (Connection A) × Connection A)
      → schedule_read socket (reads ++ bs ∷ []) x ≡ (
          if is_empty reads || (schedule_read socket reads x).1
          then one_read bs (schedule_read socket reads x).0
          else schedule_read socket reads x)
  unfolding schedule_read
  schedule_read-snoc [] bs x = schedule_read-one bs x
  schedule_read-snoc (r ∷ []) bs x = elim (Bool-cases (is_alive socket (read r x).1)) [
    | inl e ↦ rw e (schedule_read-one bs (read r x))
    | inr e ↦ rw e refl
  ]
  schedule_read-snoc (r ∷ (q ∷ reads)) bs x = elim (Bool-cases (is_alive socket (read r x).1)) [
    | inl e ↦ rw e (schedule_read-snoc (q ∷ reads) bs (read r x))
    | inr e ↦ rw e refl
  ]

  async_read-text :
      (by : ℕ) (bs : Bytes) (c : Connection A)
      → (async_read socket
          (read_handler socket)
          (λ d. d)
          (wire (text (by ∷ bs) ∷ []))
          (telnet_session socket, c)).1
        ≡ record c { app = write_all socket (generate (text (rot13_encode (by ∷ bs)))) c.app }
  unfolding async_read read_handler write_element
  async_read-text by bs c =
      receive-wire (channel socket) (installs socket)
        (read_callback socket (read_handler socket) (λ d. d)) (text (by ∷ bs) ∷ []) c (tt, tt)
      ∙ write-channel socket (text (rot13_encode (by ∷ bs))) c

  schedule_read-once :
      (read : Bytes) (x : Session (Connection A) × Connection A)
      → (schedule_read socket (read ∷ []) x).0
        ≡ async_read socket (read_handler socket) (λ d. d) read x
  unfolding schedule_read is_alive
  schedule_read-once read x = ground arith

  -- When one read of the schedule brings the bytes of a text that is not empty, what the connection
  -- then has written to its socket is the text with its letters rotated, as the generator writes it,
  -- and nothing else of the connection has changed, whether or not it is alive then.
  schedule_read-text :
      (by : ℕ) (bs : Bytes) (c : Connection A)
      → (schedule_read socket (wire (text (by ∷ bs) ∷ []) ∷ []) (telnet_session socket, c)).0.1
        ≡ record c { app = write_all socket (generate (text (rot13_encode (by ∷ bs)))) c.app }
  schedule_read-text by bs c =
      ap (λ (x : Session (Connection A) × Connection A). x.1)
        (schedule_read-once (wire (text (by ∷ bs) ∷ [])) (telnet_session socket, c))
      ∙ async_read-text by bs c
