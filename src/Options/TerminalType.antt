-- ===== src/Options/TerminalType.antt =====
-- TERMINAL-TYPE (src/options/terminal_type/client.cpp).
use telnetpp.Prelude.{
  ℕ, ◌≡◌, refl, ap, ◌∙◌, List, [], ◌∷◌, ◌==◌, if◌then◌else◌, Bytes, Option, none, some, Bool-cases,
  inl, inr,
}
use telnetpp.Element.{subnegotiation}
use telnetpp.Generator.RoundTrip.{wire}
use telnetpp.TelnetOption.{TelnetOption, client_polarity, active}
use telnetpp.Session.{Channel, Install, installed, receive}
use telnetpp.Session.Registration.{subnegotiation_target}
use telnetpp.Session.Delivery.{receive-subnegotiation}

abbrev pub is : ℕ
is = 0

abbrev pub send : ℕ
send = 1

-- The content that `request_terminal_type` writes.
abbrev pub request_terminal_type : Bytes
request_terminal_type = send ∷ []

-- The terminal type that is signalled, if any.
unfoldable pub handle_subnegotiation : Bytes → Option Bytes
handle_subnegotiation [] = none
handle_subnegotiation (by ∷ bs) = if by == is then some bs else none

abbrev pub option : ℕ
option = 24

-- `slot` is what is connected to the signal `on_terminal_type`; `base` has the option's state and
-- its session.
module _ {W : Type 0} (slot : Bytes → W → W) (base : TelnetOption W) where
  abbrev pub signal_type : Option Bytes → W → W
  signal_type none w = w
  signal_type (some name) w = slot name w

  unfoldable pub client_handle_subnegotiation : Bytes → W → W
  client_handle_subnegotiation content = signal_type (handle_subnegotiation content)

  abbrev pub client : TelnetOption W
  client = record base {
    polarity = client_polarity;
    option_code = option;
    handle_subnegotiation = client_handle_subnegotiation;
  }

  client_handle_subnegotiation-cons :
      (first : ℕ) (name : Bytes) (w : W)
      → client_handle_subnegotiation (first ∷ name) w ≡ (if first == is then slot name w else w)
  unfolding client_handle_subnegotiation handle_subnegotiation
  client_handle_subnegotiation-cons first name w = elim (Bool-cases (first == is)) [
    | inl e ↦ rw e refl
    | inr e ↦ rw e refl
  ]

  -- A session on which the client is the latest option with its code, and active, reads the bytes of
  -- a subnegotiation for it that begins with some byte: if that is IS, the slot is called with what
  -- follows it, and otherwise not; then the application is called with no data.
  receive-terminal_type :
      (channel : Channel W) (installs : List (Install W)) (callback : Bytes → W → W) (w : W)
      (first : ℕ) (name : Bytes)
      → subnegotiation_target installs option ≡ some client
      → base.state w ≡ active
      → (receive callback
          (wire (subnegotiation (record { option = option; content = first ∷ name }) ∷ []))
          (installed channel installs, w)).1
        ≡ callback [] (if first == is then slot name w else w)
  receive-terminal_type channel installs callback w first name t a =
      receive-subnegotiation channel installs callback client (first ∷ name) w t a
      ∙ ap (callback []) (client_handle_subnegotiation-cons first name w)
