-- ===== src/Options/Mccp/Finishing.antt =====
-- An MCCP server (src/options/mccp/server.cpp) with the compressor of zlib, at the end of the
-- compression.
use telnetpp.Prelude.{
  ℕ, zero, suc, ◌<◌, ◌≡◌, refl, sym, ap, subst, ◌∙◌, inl, inr, Bool, true, false, List, [], ◌∷◌,
  ◌++◌, append_assoc, append-nil, Bytes, none, some, concat, arith, ◌&&◌, if◌then◌else◌,
}
use telnetpp.Element.{text}
use telnetpp.Generator.{generate}
use telnetpp.Generator.Escape.{escaped, escaped-append, generate_escaped-escaped}
use telnetpp.TelnetOption.{
  TelnetOption, InternalState, active, server_polarity, write_text, skip, is_active,
}
use telnetpp.Session.{Channel, write, write_all}
use telnetpp.Options.Mccp.{Continuation, MccpOption, finish_compression, finish_codec}
use telnetpp.Options.Mccp
use telnetpp.Options.Mccp.Compression.{option}
use telnetpp.Options.Mccp.Zlib.{
  finish, Coder, Zlib, buffer_size, stream_or, opened_for, construct_if_none, compressor,
  compressor_do_finish, finish_loop, or_unfinished,
}
use telnetpp.Options.Mccp.Zlib.Laws.{Laws}

-- The option's members, and what its session has sent.
pub record Writer : Type 0 where
  pub option_state : InternalState
  pub compression_active : Bool
  pub sent : Bytes

module _ {Z : Type 0} where
  abbrev pub sends : Bytes → Coder Z Writer → Coder Z Writer
  sends bs w = record w { app = record w.app { sent = w.app.sent ++ bs } }

  abbrev sending_channel : Channel (Coder Z Writer)
  sending_channel = record { write_bytes = sends; is_alive = λ w. true; close = λ w. w }

  abbrev server_option : TelnetOption (Coder Z Writer)
  server_option = record {
    polarity = server_polarity;
    option_code = option;
    state = λ w. w.app.option_state;
    set_state = λ s w. record w { app = record w.app { option_state = s } };
    session_write = write sending_channel;
    on_state_changed = skip;
    handle_subnegotiation = λ content. skip;
  }

  -- What the server does with each part of the end.
  abbrev end_written : Continuation (Coder Z Writer)
  end_written content ended = write_text server_option content

  write_all-sends :
      (spans : List Bytes) (w : Coder Z Writer)
      → write_all sending_channel spans w ≡ sends (concat spans) w
  unfolding write_all
  write_all-sends [] w =
      ap (λ x. record w { app = record w.app { sent = x } }) (sym (append-nil w.app.sent))
  write_all-sends (bs ∷ spans) w =
      write_all-sends spans (sends bs w)
      ∙ ap (λ x. record w { app = record w.app { sent = x } })
          (append_assoc w.app.sent bs (concat spans))

  end_written-sends :
      (content : Bytes) (ended : Bool) (w : Coder Z Writer)
      → end_written content ended w ≡ sends (escaped content) w
  unfolding write_text write generate
  end_written-sends content ended w =
      write_all-sends (generate (text content)) w
      ∙ ap (λ z. sends z w) (generate_escaped-escaped content)

module _ {Z : Type 0} (zlib : Zlib Z) where
  abbrev pub stream_of : Coder Z Writer → Z
  stream_of w = stream_or zlib.deflate_init w.stream

  abbrev pub mccp_server : ℕ → MccpOption (Coder Z Writer)
  mccp_server end_fuel = record {
    option = server_option;
    codec = compressor zlib end_fuel;
    compression_active = λ w. w.app.compression_active;
    set_compression_active = λ b w. record w { app = record w.app { compression_active = b } };
  }

  -- The object behind the loop.
  abbrev ended : Z → Bytes → Coder Z Writer → Coder Z Writer
  ended z x w = record (sends (escaped x) w) { stream = some z }

  ended-ended :
      (z : Z) (o x : Bytes) (w : Coder Z Writer)
      → ended z x (sends (escaped o) w) ≡ ended z (o ++ x) w
  ended-ended z o x w =
      ap (λ y. record w { stream = some z; app = record w.app { sent = y } })
        (append_assoc w.app.sent (escaped o) (escaped x)
          ∙ ap (λ y. w.app.sent ++ y) (sym (escaped-append o x)))

module _ {Z : Type 0} (zlib : Zlib Z) (laws : Laws zlib) where
  abbrev EndsAt : ℕ → Bytes → Bytes → Coder Z Writer → Type 0
  EndsAt fuel d s w =
      (z : Z) × (x : Bytes) × (finish_loop zlib fuel end_written w ≡ some (ended zlib z x w))
      × laws.Encodes (s ++ x) d

  finish_loop-EndsAt :
      (fuel : ℕ) (d s : Bytes) (w : Coder Z Writer)
      → laws.pending (stream_of zlib w) < fuel
      → laws.Finishing (stream_of zlib w) d s
      → EndsAt fuel d s w
  unfolding finish_loop
  finish_loop-EndsAt zero d s w p f = absurd (omega arith)
  finish_loop-EndsAt (suc fuel) d s w p f =
      let r = zlib.deflate finish [] buffer_size (stream_of zlib w) in
      let next = record w { stream = some r.stream } in
      let said = end_written-sends r.output true next in
      elim (laws.deflate_finish (stream_of zlib w) d s f) [
        | inl (e, whole) ↦ (r.stream, r.output, rw (e, said) refl, whole)
        | inr (e, g, fewer) ↦
            let (z, x, loop, whole) =
              finish_loop-EndsAt fuel d (s ++ r.output) (sends (escaped r.output) next)
                (omega arith) g in
            (
              z,
              r.output ++ x,
              rw (e, said) (loop ∙ ap some (ended-ended zlib z r.output x w)),
              subst (λ y. laws.Encodes y d) (append_assoc s r.output x) whole,
            )
      ]

  compressor_do_finish-ends :
      (fuel : ℕ) (d s : Bytes) (w : Coder Z Writer)
      → laws.pending (stream_of zlib w) < fuel
      → laws.Deflating (stream_of zlib w) d s
      → (x : Bytes) × (compressor_do_finish zlib fuel end_written w
          ≡ some (record (sends (escaped x) w) {
            stream = none;
            opened = opened_for w.stream w.opened;
            closed = suc w.closed;
          }))
        × laws.Encodes (s ++ x) d
  unfolding compressor_do_finish
  compressor_do_finish-ends fuel d s w p f =
      let (z, x, loop, whole) =
        finish_loop-EndsAt fuel d s (construct_if_none zlib.deflate_init w) p
          (laws.can_finish (stream_of zlib w) d s f) in
      (x, rw loop refl, whole)

  -- A server that compresses ends the compression; its compressor has taken `d` and given `s`. Then
  -- there are bytes that make `s` one whole stream of `d`, and what the session has sent more is these
  -- bytes with each 0xFF among them doubled; the codec is no longer engaged, its stream is destroyed,
  -- and compression is no longer active, if the library does what it documents and the fuel is more
  -- than what it has still to give.
  pub finish_compression-escaped :
      (end_fuel : ℕ) (d s : Bytes) (w : Coder Z Writer)
      → w.app.option_state ≡ active
      → w.app.compression_active ≡ true
      → laws.pending (stream_of zlib w) < end_fuel
      → laws.Deflating (stream_of zlib w) d s
      → (x : Bytes) × laws.Encodes (s ++ x) d
        × (finish_compression (mccp_server zlib end_fuel) w ≡ record w {
          engaged = false;
          stream = none;
          opened = opened_for w.stream w.opened;
          closed = suc w.closed;
          app = record w.app { compression_active = false; sent = w.app.sent ++ escaped x };
        })
  unfolding finish_compression finish_codec Mccp.finish
  finish_compression-escaped end_fuel d s w a c p f =
      let (x, e, whole) = compressor_do_finish-ends end_fuel d s w p f in
      let m = mccp_server zlib end_fuel in
      let finished = m.set_compression_active false (finish_codec m w) in
      (
        x,
        whole,
        ap (λ o. if is_active o && w.app.compression_active then finished else w) a
            ∙ ap (λ b. if b then finished else w) c
            ∙ ap
                (λ o.
                  m.set_compression_active false
                    (record (or_unfinished zlib w o) { engaged = false }))
                e,
      )
