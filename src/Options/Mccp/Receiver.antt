-- ===== src/Options/Mccp/Receiver.antt =====
-- A session (src/session.cpp) on which an MCCP client (src/options/mccp/client.cpp) with the
-- decompressor of zlib is installed, and which reads what that decompressor hands on.
pub mod Telling
use telnetpp.Prelude.{
  ◌≡◌, refl, sym, ap, ◌∙◌, Bool, true, false, ◌&&◌, ◌||◌, List, [], ◌∷◌, ◌++◌, Bytes, ◌==◌,
  if◌then◌else◌, append-nil, arith, Bool-cases, inl, inr, ==_iff,
}
use telnetpp.Core.{iac, will, wont, do_, dont}
use telnetpp.Element.{Element, text, negotiation, subnegotiation, command, Negotiation}
use telnetpp.Parser.{Parser, parse}
use telnetpp.Generator.{generate, generate_negotiation}
use telnetpp.TelnetOption.{
  TelnetOption, InternalState, inactive, activating, active, deactivating, client_polarity,
  negotiate, negotiate_in, subnegotiate, skip, write_negotiation,
}
use telnetpp.Session.{
  Channel, Session, Install, client_option, installed, receive, token_handler, handle_all, write,
  write_all, refuse,
}
use telnetpp.Session.Registration.{handled, token_handler-installed}
use telnetpp.Session.Delivery.{subnegotiate-active}
use telnetpp.Options.Mccp.{
  Continuation, MccpOption, client_state_changed, client_handle_subnegotiation, start,
}
use telnetpp.Options.Mccp.Compression.{option}
use telnetpp.Options.Mccp.Zlib.{Coder, Zlib, decompressor}
use telnetpp.Options.Mccp.Receiver.Telling.{
  Told, Client, IsFine, AllFine, tells, told, feed, will_answer,
}

module _ {Z : Type 0} where
  abbrev changed : (Told → Told) → Coder Z Client → Coder Z Client
  changed f w = record w { app = record w.app { told = f w.app.told } }

  abbrev told_channel : Channel (Coder Z Client)
  told_channel = record {
    write_bytes = λ bs. changed (λ t. record t { sent = t.sent ++ bs });
    is_alive = λ w. true;
    close = λ w. w;
  }

  abbrev pub log : Bytes → Coder Z Client → Coder Z Client
  log bs = changed (λ t. record t { received = t.received ++ bs })

  -- The option before its constructor has connected the slot.
  abbrev unconnected : TelnetOption (Coder Z Client)
  unconnected = record {
    polarity = client_polarity;
    option_code = option;
    state = λ w. w.app.told.option_state;
    set_state = λ s. changed (λ t. record t { option_state = s });
    session_write = write told_channel;
    on_state_changed = skip;
    handle_subnegotiation = λ content. skip;
  }

module _ {Z : Type 0} (zlib : Zlib Z) where
  abbrev mccp : MccpOption (Coder Z Client)
  mccp = record {
    option = unconnected;
    codec = decompressor zlib;
    compression_active = λ w. false;
    set_compression_active = λ b w. w;
  }

  abbrev pub mccp_client : TelnetOption (Coder Z Client)
  mccp_client = record unconnected {
    on_state_changed = client_state_changed mccp;
    handle_subnegotiation = client_handle_subnegotiation mccp;
  }

  abbrev is : List (Install (Coder Z Client))
  is = client_option mccp_client ∷ []

  abbrev pub reading : Parser → Session (Coder Z Client)
  reading p = record (installed told_channel is) { parser = p }

  abbrev pub with_parser : Parser → Coder Z Client → Coder Z Client
  with_parser p w = record w { app = record w.app { parser = p } }

  -- The continuation with which the decompressor is called: the session reads each result.
  abbrev pub deliver : Continuation (Coder Z Client)
  deliver bs ended w =
      let (s, w') = receive log bs (reading w.app.parser, w) in with_parser s.parser w'

  write-negotiation :
      (n : Negotiation) (w : Coder Z Client)
      → write told_channel (negotiation n) w
        ≡ changed (λ t. record t { sent = t.sent ++ iac ∷ n.request ∷ n.option_code ∷ [] }) w
  unfolding write write_all generate generate_negotiation
  write-negotiation n w = refl

  refuse-changed :
      (n : Negotiation) (w : Coder Z Client)
      → refuse told_channel n w
        ≡ changed
            (λ t. record t {
              sent =
                  t.sent
                  ++ iac
                    ∷ (if n.request == will || n.request == wont then dont else wont)
                    ∷ n.option_code
                    ∷ [];
            })
            w
  unfolding refuse
  refuse-changed n w = write-negotiation _ w

  negotiate_in-will :
      (s : InternalState) (w : Coder Z Client)
      → w.app.told.option_state ≡ s
      → negotiate_in mccp_client s will w
        ≡ changed (λ t. record t { option_state = active; sent = t.sent ++ will_answer s }) w
  unfolding negotiate_in client_state_changed write_negotiation write write_all generate
      generate_negotiation
  negotiate_in-will inactive w h = refl
  negotiate_in-will activating w h =
      ap (λ x. changed (λ t. record t { option_state = active; sent = x }) w)
        (sym (append-nil w.app.told.sent))
  negotiate_in-will active w h =
      ap (λ x. changed (λ t. record t { option_state = x; sent = t.sent ++ will_answer active }) w)
        h
  negotiate_in-will deactivating w h =
      ap (λ x. changed (λ t. record t { option_state = active; sent = x }) w)
        (sym (append-nil w.app.told.sent))

  handled-changed :
      (e : Element) (w : Coder Z Client)
      → IsFine e
      → handled told_channel is log e w ≡ changed (tells e) w
  unfolding negotiate
  handled-changed (text bs) w h = refl
  handled-changed (negotiation n) w h = elim (Bool-cases (option == n.option_code)) [
    | inl mine ↦ elim (Bool-cases (n.request == will)) [
      | inl asks ↦
          rw (mine, (==_iff n.request will).0 asks)
            (negotiate_in-will w.app.told.option_state w refl)
      | inr other ↦
          let not_wont : (n.request == wont) ≡ false = rw mine at h in
          let refused = refuse-changed n w in
          let refused' = rw (other, not_wont) at refused in rw (mine, other, not_wont) refused'
    ]
    | inr not_mine ↦ rw not_mine (refuse-changed n w)
  ]
  handled-changed (subnegotiation s) w h = rw h refl
  handled-changed (command c) w h = refl

  token_handler-reading :
      (p : Parser) (e : Element) (w : Coder Z Client)
      → token_handler (reading p) log e w ≡ token_handler (installed told_channel is) log e w
  unfolding token_handler
  token_handler-reading p (text bs) w = refl
  token_handler-reading p (negotiation n) w = refl
  token_handler-reading p (subnegotiation s) w = refl
  token_handler-reading p (command c) w = refl

  pub token_handler-handled :
      (p : Parser) (e : Element) (w : Coder Z Client)
      → token_handler (reading p) log e w ≡ handled told_channel is log e w
  token_handler-handled p e w =
      token_handler-reading p e w ∙ ap (λ f. f w) (token_handler-installed told_channel is log e)

  handle_all-told :
      (p : Parser) (es : List Element) (w : Coder Z Client)
      → AllFine es
      → handle_all (reading p) log es w ≡ changed (told es) w
  unfolding handle_all
  handle_all-told p [] w h = refl
  handle_all-told p (e ∷ es) w h =
      ap (handle_all (reading p) log es) (token_handler-handled p e w ∙ handled-changed e w h.0)
      ∙ handle_all-told p es (changed (tells e) w) h.1

  pub log-empty : (w : Coder Z Client) → log [] w ≡ w
  log-empty w =
      ap (λ x. changed (λ t. record t { received = x }) w) (append-nil w.app.told.received)

  -- What is read of the compression.
  pub deliver-feed :
      (bs : Bytes) (ended : Bool) (w : Coder Z Client)
      → AllFine (parse bs w.app.parser).1
      → deliver bs ended w ≡ record w { app = feed bs w.app }
  unfolding receive
  deliver-feed bs ended w h =
      ap (with_parser (parse bs w.app.parser).0)
        (log-empty _ ∙ handle_all-told w.app.parser (parse bs w.app.parser).1 w h)

  -- The bytes with which a subnegotiation of MCCP ends.
  pub deliver-start :
      (bs content : Bytes) (ended : Bool) (w : Coder Z Client)
      → (parse bs w.app.parser).1
        ≡ subnegotiation (record { option = option; content = content }) ∷ []
      → w.app.told.option_state ≡ active
      → deliver bs ended w ≡ record w { engaged = true; app = feed bs w.app }
  unfolding receive handle_all subnegotiate client_handle_subnegotiation start
  deliver-start bs content ended w e a =
      ap (with_parser (parse bs w.app.parser).0) (
        log-empty _
        ∙ ap (λ z. handle_all (reading w.app.parser) log z w) e
        ∙ token_handler-handled w.app.parser
            (subnegotiation (record { option = option; content = content })) w
        ∙ subnegotiate-active told_channel mccp_client content w a)
      ∙ ap
          (λ es. record w {
            engaged = true;
            app = record { parser = (parse bs w.app.parser).0; told = told es w.app.told };
          })
          (sym e)
