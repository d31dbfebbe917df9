-- ===== src/Options/Msdp/Peers.antt =====
-- The client and the server (src/options/msdp/client.cpp, src/options/msdp/server.cpp) as options of
-- a session. They differ in their polarity only.
use telnetpp.Prelude.{ℕ, ◌≡◌, ap, ◌∙◌, List, [], ◌∷◌, Bytes, some}
use telnetpp.Element.{subnegotiation}
use telnetpp.Generator.RoundTrip.{wire}
use telnetpp.TelnetOption.{TelnetOption, Polarity, active, write_subnegotiation, skip}
use telnetpp.Session.{Channel, Install, installed, receive, write}
use telnetpp.Session.Registration.{subnegotiation_target}
use telnetpp.Session.Delivery.{receive-subnegotiation}
use telnetpp.Session.Transparency.{Journal, journal_channel, write_elements, write_elements-sent}
use telnetpp.Options.Msdp.{Variable}
use telnetpp.Options.Msdp.Encoder.{encode}
use telnetpp.Options.Msdp.Decoder.{Result, ok, ◌>>=◌, decode}
use telnetpp.Options.Msdp.RoundTrip.{IsSendable, decode-encode}

abbrev pub option : ℕ
option = 69

-- `send`.
unfoldable pub send : {W : Type 0} → TelnetOption W → Variable → W → W
unfolding write_subnegotiation
send o v = write_subnegotiation o (encode v)

-- `slot` is what is connected to the signal `on_receive`; `base` has the option's state and its
-- session. A fault of the decoder ends all that follows.
module _ {W : Type 0} (slot : Variable → W → W) (base : TelnetOption (Result W)) where
  -- The signal, once for each variable.
  abbrev pub signal_each : List Variable → W → W
  signal_each [] w = w
  signal_each (v ∷ vs) w = signal_each vs (slot v w)

  unfoldable pub peer_handle_subnegotiation : Bytes → Result W → Result W
  peer_handle_subnegotiation content world = do
    w ← world
    vs ← decode content
    ok (signal_each vs w)

  abbrev pub peer : Polarity → TelnetOption (Result W)
  peer polarity = record base {
    polarity = polarity;
    option_code = option;
    handle_subnegotiation = peer_handle_subnegotiation;
  }

-- An option over a session whose channel keeps what is sent.
abbrev pub sender : Polarity → TelnetOption Journal
sender polarity = record {
  polarity = polarity;
  option_code = option;
  state = λ w. active;
  set_state = λ s w. w;
  session_write = write journal_channel;
  on_state_changed = skip;
  handle_subnegotiation = λ content. skip;
}

abbrev pub sent_bytes : Polarity → Variable → Bytes
sent_bytes polarity v = (send (sender polarity) v (record { sent = []; received = [] })).sent

sent_bytes-wire :
    (polarity : Polarity) (v : Variable)
    → sent_bytes polarity v
      ≡ wire (subnegotiation (record { option = option; content = encode v }) ∷ [])
unfolding send write_elements
sent_bytes-wire polarity v =
    ap (λ z. z.sent)
      (write_elements-sent (subnegotiation (record { option = option; content = encode v }) ∷ [])
        (record { sent = []; received = [] }))

-- One side sends a variable that can be sent; a session of the other, on which that is the latest
-- option with its code, and active, reads the bytes: the slot is called with the variable, once,
-- and then the application with no data.
pub receive-sent_bytes :
    {W : Type 0} (slot : Variable → W → W) (base : TelnetOption (Result W)) (mine other : Polarity)
    (channel : Channel (Result W)) (is : List (Install (Result W)))
    (callback : Bytes → Result W → Result W) (w : W) (v : Variable)
    → IsSendable v
    → subnegotiation_target is option ≡ some (peer slot base other)
    → base.state (ok w) ≡ active
    → (receive callback (sent_bytes mine v) (installed channel is, ok w)).1
      ≡ callback [] (ok (slot v w))
unfolding peer_handle_subnegotiation
receive-sent_bytes slot base mine other channel is callback w v s t a =
    ap (λ bytes. (receive callback bytes (installed channel is, ok w)).1) (sent_bytes-wire mine v)
    ∙ receive-subnegotiation channel is callback (peer slot base other) (encode v) (ok w) t a
    ∙ ap (λ r. callback [] (r >>= λ vs. ok (signal_each slot base vs w))) (decode-encode v s)
