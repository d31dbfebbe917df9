-- ===== src/Options/Naws/Peers.antt =====
-- The client and the server of NAWS (src/options/naws/client.cpp, src/options/naws/server.cpp) as
-- options of sessions.
use telnetpp.Prelude.{
  ℕ, ◌^◌, ◌<◌, ◌≡◌, ap, ◌∙◌, true, List, [], ◌∷◌, Bytes, Option, some, none, arith,
}
use telnetpp.Element.{Element, subnegotiation}
use telnetpp.Generator.RoundTrip.{wire}
use telnetpp.TelnetOption.{TelnetOption, client_polarity, active}
use telnetpp.Session.{Channel, Install, installed, receive}
use telnetpp.Session.Registration.{subnegotiation_target}
use telnetpp.Session.Delivery.{receive-subnegotiation}
use telnetpp.Options.Naws.{
  WindowSize, NawsServer, set_window_size, handle_subnegotiation, high_byte, low_byte, report_by,
  report_window_size,
}

abbrev pub option : ℕ
option = 31

-- A call of `write_subnegotiation` for each content.
abbrev pub reports : List Bytes → List Element
reports [] = []
reports (c ∷ cs) = subnegotiation (record { option = option; content = c }) ∷ reports cs

-- `slot` is what is connected to the signal `on_window_size_changed`; `base` has the option's state
-- and its session.
module _ {W : Type 0} (slot : ℕ → ℕ → W → W) (base : TelnetOption W) where
  abbrev pub signal_size : Option WindowSize → W → W
  signal_size none w = w
  signal_size (some (width, height)) w = slot width height w

  unfoldable pub client_handle_subnegotiation : Bytes → W → W
  client_handle_subnegotiation content = signal_size (handle_subnegotiation content)

  abbrev pub client : TelnetOption W
  client = record base {
    polarity = client_polarity;
    option_code = option;
    handle_subnegotiation = client_handle_subnegotiation;
  }

  -- While its option is active, a server's application sets a size, both numbers of 16 bits; a
  -- session on which the client is the latest option with its code, and active, reads the bytes:
  -- the slot is called with that size, once, and then the application with no data.
  pub receive-set_window_size :
      (channel : Channel W) (is : List (Install W)) (callback : Bytes → W → W) (w : W)
      (width height : ℕ) (s : NawsServer)
      → subnegotiation_target is option ≡ some client
      → base.state w ≡ active
      → width < 2 ^ 16
      → height < 2 ^ 16
      → (receive callback
          (wire (reports (set_window_size true width height s).1))
          (installed channel is, w)).1
        ≡ callback [] (slot width height w)
  unfolding client_handle_subnegotiation set_window_size report_window_size report_by
  receive-set_window_size channel is callback w width height s t a lw lh =
      let content : Bytes =
        high_byte width ∷ low_byte width ∷ high_byte height ∷ low_byte height ∷ [] in
      receive-subnegotiation channel is callback client content w t a
      ∙ ap (λ size. callback [] (signal_size size w)) (read width height lw lh)
    where
      read :
          (width height : ℕ)
          → width < 2 ^ 16
          → height < 2 ^ 16
          → handle_subnegotiation
              (high_byte width ∷ low_byte width ∷ high_byte height ∷ low_byte height ∷ [])
            ≡ some (width, height)
      read width height lw lh = unfold handle_subnegotiation in ground arith
