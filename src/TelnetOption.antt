-- ===== src/TelnetOption.antt =====
-- An option of a session (include/telnetpp/option.hpp), and its two sides
-- (include/telnetpp/client_option.hpp and server_option.hpp).
--
-- `W` is all that the program can change: the options' states, the channel, the application. A
-- call is a function on `W`. What the class does not implement is a field: the session's `write`,
-- the slots connected to the signal `on_state_changed`, and the virtual `handle_subnegotiation`.
pub mod Negotiation
pub mod Slots
use telnetpp.Prelude.{ℕ, Bool, true, false, ◌==◌, if◌then◌else◌, Bytes}
use telnetpp.Core.{will, wont, do_, dont}
use telnetpp.Element.{Element, text, negotiation, subnegotiation}

pub data InternalState : Type 0 where
  inactive activating active deactivating : InternalState

-- The template's four parameters.
pub record Polarity : Type 0 where
  pub local_positive : ℕ
  pub local_negative : ℕ
  pub remote_positive : ℕ
  pub remote_negative : ℕ

abbrev pub client_polarity : Polarity
client_polarity = record {
  local_positive = do_;
  local_negative = dont;
  remote_positive = will;
  remote_negative = wont;
}

abbrev pub server_polarity : Polarity
server_polarity = record {
  local_positive = will;
  local_negative = wont;
  remote_positive = do_;
  remote_negative = dont;
}

pub record TelnetOption (W : Type 0) : Type 0 where
  pub polarity : Polarity
  pub open polarity use *
  pub option_code : ℕ
  pub state : W → InternalState
  pub set_state : InternalState → W → W
  pub session_write : Element → W → W
  pub on_state_changed : W → W
  pub handle_subnegotiation : Bytes → W → W

-- One statement, then the next.
infixl 5 ◌⨾◌
abbrev pub ◌⨾◌ : {W : Type 0} → (W → W) → (W → W) → W → W
◌⨾◌ f g w = g (f w)

abbrev pub skip : {W : Type 0} → W → W
skip w = w

abbrev pub is_active : InternalState → Bool
is_active active = true
is_active _ = false

module _ {W : Type 0} (o : TelnetOption W) where
  -- `active()`.
  abbrev pub is_option_active : W → Bool
  is_option_active w = is_active (o.state w)

  unfoldable pub write_text : Bytes → W → W
  write_text content = o.session_write (text content)

  unfoldable pub write_subnegotiation : Bytes → W → W
  write_subnegotiation content =
      o.session_write (subnegotiation (record { option = o.option_code; content = content }))

  unfoldable pub write_negotiation : ℕ → W → W
  write_negotiation neg =
      o.session_write (negotiation (record { request = neg; option_code = o.option_code }))

  -- The switches on the state.
  unfoldable pub activate_in : InternalState → W → W
  unfolding write_negotiation
  activate_in inactive = o.set_state activating ⨾ write_negotiation o.local_positive
  activate_in activating = skip
  activate_in active = o.on_state_changed
  activate_in deactivating = skip

  unfoldable pub activate : W → W
  unfolding activate_in
  activate w = activate_in (o.state w) w

  unfoldable pub deactivate_in : InternalState → W → W
  unfolding write_negotiation
  deactivate_in active = o.set_state deactivating ⨾ write_negotiation o.local_negative
  deactivate_in activating = skip
  deactivate_in inactive = o.on_state_changed
  deactivate_in deactivating = skip

  unfoldable pub deactivate : W → W
  unfolding deactivate_in
  deactivate w = deactivate_in (o.state w) w

  unfoldable pub negotiate_in : InternalState → ℕ → W → W
  unfolding write_negotiation
  negotiate_in inactive neg =
      if neg == o.remote_positive
      then o.set_state active ⨾ write_negotiation o.local_positive ⨾ o.on_state_changed
      else write_negotiation o.local_negative
  negotiate_in activating neg =
      if neg == o.remote_positive
      then o.set_state active ⨾ o.on_state_changed
      else (o.set_state inactive ⨾ o.on_state_changed)
  negotiate_in active neg =
      if neg == o.remote_positive
      then write_negotiation o.local_positive
      else (o.set_state inactive ⨾ o.on_state_changed ⨾ write_negotiation o.local_negative)
  negotiate_in deactivating neg =
      if neg == o.remote_positive
      then o.set_state active ⨾ o.on_state_changed
      else (o.set_state inactive ⨾ o.on_state_changed)

  unfoldable pub negotiate : ℕ → W → W
  unfolding negotiate_in
  negotiate neg w = negotiate_in (o.state w) neg w

  unfoldable pub subnegotiate : Bytes → W → W
  subnegotiate content w = elim (o.state w) [ active ↦ o.handle_subnegotiation content w | _ ↦ w ]
