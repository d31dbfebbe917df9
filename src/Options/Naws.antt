-- ===== src/Options/Naws.antt =====
-- NAWS (src/options/naws/client.cpp, src/options/naws/server.cpp). A `window_dimension` is 16 bits wide.
pub mod Peers
use telnetpp.Prelude.{
  ℕ, ◌+◌, ◌*◌, ◌/◌, ◌%◌, ◌^◌, ◌<◌, ◌≡◌, Bool, true, false, List, [], ◌∷◌, if◌then◌else◌, Bytes,
  Option, none, some, arith,
}

abbrev pub WindowSize : Type 0
WindowSize = ℕ × ℕ

pub record NawsServer : Type 0 where
  pub window_size : Option WindowSize

-- `x >> 8` and `x & 0xFF`, each cast to a byte.
abbrev pub high_byte : ℕ → ℕ
high_byte x = x / 256 % 256

abbrev pub low_byte : ℕ → ℕ
low_byte x = x % 256

-- The contents of the subnegotiations that a call writes.
unfoldable pub report_by : Option WindowSize → List Bytes
report_by none = []
report_by (some (width, height)) =
    (high_byte width ∷ low_byte width ∷ high_byte height ∷ low_byte height ∷ []) ∷ []

unfoldable pub report_window_size : NawsServer → List Bytes
unfolding report_by
report_window_size s = report_by s.window_size

-- `active` is the option's `active()`.
unfoldable pub set_window_size : Bool → ℕ → ℕ → NawsServer → NawsServer × List Bytes
unfolding report_window_size
set_window_size active width height s =
    let t = record s { window_size = some (width, height) } in
    (t, if active then report_window_size t else [])

-- The slot that the constructor connects to `on_state_changed`.
unfoldable pub server_state_changed : Bool → NawsServer → List Bytes
unfolding report_window_size
server_state_changed active s = if active then report_window_size s else []

-- `hi << 8 | lo`, of two bytes, in a `window_dimension`.
abbrev pub join_bytes : ℕ → ℕ → ℕ
join_bytes hi lo = (hi * 256 + lo) % 2 ^ 16

-- The client's `handle_subnegotiation`: the size that is signalled, if any.
unfoldable pub handle_subnegotiation : Bytes → Option WindowSize
handle_subnegotiation (a ∷ b ∷ c ∷ d ∷ []) = some (join_bytes a b, join_bytes c d)
handle_subnegotiation _ = none

-- What a client signals of the contents that it receives.
abbrev pub signalled : List Bytes → List (Option WindowSize)
signalled [] = []
signalled (c ∷ cs) = handle_subnegotiation c ∷ signalled cs

-- The size that the server's application has set, both numbers of 16 bits, reaches the client
-- unchanged: at once while the option is active, and again whenever the option becomes active.
signalled-set_window_size :
    (active : Bool) (width height : ℕ) (s : NawsServer)
    → width < 2 ^ 16
    → height < 2 ^ 16
    → let (t, written) = set_window_size active width height s in
      (signalled written ≡ (if active then some (width, height) ∷ [] else []))
      × (signalled (server_state_changed true t) ≡ some (width, height) ∷ [])
      × (server_state_changed false t ≡ [])
unfolding set_window_size server_state_changed handle_subnegotiation
signalled-set_window_size active width height s w h = ground arith
