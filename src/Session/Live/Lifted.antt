-- ===== src/Session/Live/Lifted.antt =====
-- Options and a channel (include/telnetpp/option.hpp, src/session.cpp) whose calls leave the routers of a
-- session alone.
use telnetpp.Prelude.{ℕ, ◌≡◌, refl, List, [], ◌∷◌, Bytes, arith}
use telnetpp.TelnetOption.{
  TelnetOption, InternalState, inactive, active, negotiate_in, subnegotiate,
}
use telnetpp.Session.{Channel, write_all}
use telnetpp.Session.Live.{Routed}

-- A call that leaves the routers alone.
module _ {N A : Type 0} where
  abbrev pub lifted : (A → A) → Routed N A → Routed N A
  lifted f s = record s { app = f s.app }

  abbrev pub lifted_channel : Channel A → Channel (Routed N A)
  lifted_channel channel = record {
    write_bytes = λ bs. lifted (channel.write_bytes bs);
    is_alive = λ s. channel.is_alive s.app;
    close = lifted channel.close;
  }

  abbrev pub lifted_option : TelnetOption A → TelnetOption (Routed N A)
  lifted_option o = record {
    polarity = o.polarity;
    option_code = o.option_code;
    state = λ s. o.state s.app;
    set_state = λ x. lifted (o.set_state x);
    session_write = λ e. lifted (o.session_write e);
    on_state_changed = lifted o.on_state_changed;
    handle_subnegotiation = λ bs. lifted (o.handle_subnegotiation bs);
  }

  pub write_all-lifted :
      (channel : Channel A) (spans : List Bytes) (s : Routed N A)
      → write_all (lifted_channel channel) spans s ≡ lifted (write_all channel spans) s
  unfolding write_all
  write_all-lifted channel [] s = refl
  write_all-lifted channel (bs ∷ spans) s =
      write_all-lifted channel spans (lifted (channel.write_bytes bs) s)

  pub negotiate_in-lifted :
      (o : TelnetOption A) (x : InternalState) (neg : ℕ) (s : Routed N A)
      → negotiate_in (lifted_option o) x neg s ≡ lifted (negotiate_in o x neg) s
  unfolding negotiate_in
  negotiate_in-lifted o inactive neg s = ground arith
  negotiate_in-lifted o _ neg s = ground arith

  if_active-lifted :
      (x : InternalState) (f : A → A) (s : Routed N A)
      → elim x [ active ↦ lifted f s | _ ↦ s ] ≡ lifted (λ a. elim x [ active ↦ f a | _ ↦ a ]) s
  if_active-lifted active f s = refl
  if_active-lifted _ f s = refl

  pub subnegotiate-lifted :
      (o : TelnetOption A) (content : Bytes) (s : Routed N A)
      → subnegotiate (lifted_option o) content s ≡ lifted (subnegotiate o content) s
  unfolding subnegotiate
  subnegotiate-lifted o content s =
      if_active-lifted (o.state s.app) (o.handle_subnegotiation content) s
