-- ===== src/Options/Mccp/Ending.antt =====
-- A session with an MCCP client (src/options/mccp/client.cpp) and the decompressor of zlib, where the
-- other side takes the option back in what it has compressed.
use telnetpp.Prelude.{
  ℕ, suc, ◌≡◌, refl, ap, sym, subst, append-nil, ◌∙◌, Bool, true, false, inr, [], ◌∷◌, ◌++◌, Bytes,
  some, none,
}
use telnetpp.Core.{iac, wont, dont}
use telnetpp.Element.{Element, negotiation}
use telnetpp.Parser.{parse}
use telnetpp.Parser.Safety.{Inv, parse-Inv}
use telnetpp.Generator.{generate, generate_negotiation}
use telnetpp.TelnetOption.{inactive, active, negotiate, negotiate_in, write_negotiation}
use telnetpp.Session.{receive, handle_all, write, write_all}
use telnetpp.Options.Mccp.{transform, returned, client_state_changed, finish_codec}
use telnetpp.Options.Mccp
use telnetpp.Options.Mccp.Compression.{option}
use telnetpp.Options.Mccp.Receiver.{
  mccp_client, deliver, reading, with_parser, log, log-empty, token_handler-handled,
}
use telnetpp.Options.Mccp.Receiver.Telling.{
  Told, Client, AllFine, told, feed, IsAwaiting, IsAwaiting-nil,
}
use telnetpp.Options.Mccp.Zlib.{
  ok, Coder, Zlib, opened_for, unread, decompressor, decompressor_do_finish,
}
use telnetpp.Options.Mccp.Zlib.Chunk.{IsShort, called, transform-answer}
use telnetpp.Options.Mccp.Zlib.Laws.{Laws}
use telnetpp.Options.Mccp.Zlib.Compressing.{unread-IsShort}
use telnetpp.Options.Mccp.Zlib.Reading.{transform-Expects, ended}
use telnetpp.Options.Mccp.Streamed.{deliver-Feeds}

module _ {Z : Type 0} (zlib : Zlib Z) where
  -- The option is taken back, and refused from now on.
  abbrev pub taken_back : Told → Told
  taken_back t = record t { option_state = inactive; sent = t.sent ++ iac ∷ dont ∷ option ∷ [] }

  abbrev released : Coder Z Client → Coder Z Client
  released w = record w {
    engaged = false;
    stream = none;
    closed = suc w.closed;
    app = record w.app { told = taken_back w.app.told };
  }

  negotiate-wont :
      (z : Z) (w : Coder Z Client)
      → w.app.told.option_state ≡ active
      → negotiate (mccp_client zlib) wont (record w { stream = some z }) ≡ released w
  unfolding negotiate negotiate_in client_state_changed finish_codec Mccp.finish
      decompressor_do_finish write_negotiation write write_all generate generate_negotiation
  negotiate-wont z w a =
      ap (λ s. negotiate_in (mccp_client zlib) s wont (record w { stream = some z })) a

  -- The negotiation that takes the option back, alone in what is read.
  abbrev takes_back : Element
  takes_back = negotiation (record { request = wont; option_code = option })

  deliver-wont :
      (bs : Bytes) (ended : Bool) (z : Z) (w : Coder Z Client)
      → (parse bs w.app.parser).1 ≡ takes_back ∷ []
      → w.app.told.option_state ≡ active
      → deliver zlib bs ended (record w { stream = some z })
        ≡ with_parser zlib (parse bs w.app.parser).0 (released w)
  unfolding receive handle_all
  deliver-wont bs ended z w e a = ap (with_parser zlib (parse bs w.app.parser).0) (
      log-empty zlib _
      ∙ ap (λ es. handle_all (reading zlib w.app.parser) log es (record w { stream = some z })) e
      ∙ token_handler-handled zlib w.app.parser takes_back (record w { stream = some z })
      ∙ negotiate-wont z w a)

  -- Behind the round that reads it.
  abbrev round_over : Bytes → Coder Z Client → Coder Z Client
  round_over input w = record w {
    engaged = false;
    stream = none;
    opened = opened_for w.stream w.opened;
    closed = suc w.closed;
    app = record {
      parser = (parse (called zlib input w).output w.app.parser).0;
      told = taken_back w.app.told;
    };
  }

  transform-round :
      (fuel by : ℕ) (bs : Bytes) (w : Coder Z Client)
      → let r = called zlib (by ∷ bs) w in
        IsShort (by ∷ bs)
        → w.engaged ≡ true
        → r.response ≡ ok
        → (parse r.output w.app.parser).1 ≡ takes_back ∷ []
        → w.app.told.option_state ≡ active
        → transform (decompressor zlib) (suc fuel) (by ∷ bs) (deliver zlib) w
          ≡ transform
              (decompressor zlib)
              fuel
              (unread (by ∷ bs) r)
              (deliver zlib)
              (round_over (by ∷ bs) w)
  transform-round fuel by bs w short on e reads a =
      let r = called zlib (by ∷ bs) w in
      transform-answer zlib fuel by bs (deliver zlib) w ok short on e
      ∙ ap (transform (decompressor zlib) fuel (unread (by ∷ bs) r) (deliver zlib)) (
          deliver-wont r.output false r.stream
            (record w { engaged = true; opened = opened_for w.stream w.opened }) reads a)

  -- A decompressor that is engaged is given bytes, fewer than 2^32 of them. Its session has the MCCP
  -- client, whose option is active, and a parser in a state that it can be in. The first call of the
  -- library does not end the stream, and what it gives reads only as the other side taking the option
  -- back. The bytes that the call has left, read as they are, hold no subnegotiation of MCCP and no
  -- WONT of it. Then the call returns, the decompressor is no longer engaged and its stream is
  -- destroyed, though it has not ended; the session has agreed with DONT, and has then done for the
  -- elements of the bytes left, without decompression, what it does for them: it has received their
  -- text and answered their negotiations, if the library does what it documents.
  pub transform-wont :
      (laws : Laws zlib) (by : ℕ) (bs : Bytes) (w : Coder Z Client)
      → let r = called zlib (by ∷ bs) w in
        let left = unread (by ∷ bs) r in
        let p = (parse r.output w.app.parser).0 in
        Inv w.app.parser
        → IsShort (by ∷ bs)
        → w.engaged ≡ true
        → r.response ≡ ok
        → (parse r.output w.app.parser).1 ≡ takes_back ∷ []
        → w.app.told.option_state ≡ active
        → AllFine (parse left p).1
        → (fuel : ℕ) × (w' : Coder Z Client) × (transform
              (decompressor zlib)
              fuel
              (by ∷ bs)
              (deliver zlib)
              w
            ≡ some (returned w'))
          × ((w'.engaged ≡ false)
              × (w'.stream ≡ none)
              × (w'.app.parser ≡ (parse left p).0)
              × (w'.app.told ≡ told (parse left p).1 (taken_back w.app.told)))
  transform-wont laws by bs w inv short on e reads a fine =
      let r = called zlib (by ∷ bs) w in
      let left = unread (by ∷ bs) r in
      let p = (parse r.output w.app.parser).0 in
      let kept = parse-Inv r.output w.app.parser inv in
      let awaits = IsAwaiting (parse left p).0 (told (parse left p).1 (taken_back w.app.told)) in
      let feeds = deliver-Feeds zlib (parse left p).0 _ in
      let (fuel, w', t, x) =
        transform-Expects zlib laws (deliver zlib) feed awaits feeds left []
          (round_over (by ∷ bs) w) (unread-IsShort (by ∷ bs) r short)
          (inr (
            refl,
            refl,
            subst (awaits (round_over (by ∷ bs) w).app) (sym (append-nil left))
                (kept.0, kept.1, fine, refl, refl),
          )) in
      let (off, no_stream, all) = ended zlib laws (deliver zlib) feed awaits feeds w' x in
      let (here, so_far) = IsAwaiting-nil (parse left p).0 _ w'.app all in
      (
        suc fuel,
        w',
        transform-round fuel by bs w short on e reads a ∙ t,
        (off, no_stream, here, so_far),
      )
