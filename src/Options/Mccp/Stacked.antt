-- ===== src/Options/Mccp/Stacked.antt =====
-- The codecs of zlib (src/options/mccp/zlib) between two sessions (src/session.cpp): what one writes is
-- compressed on its way, and the other reads what the decompressor hands on.
use telnetpp.Prelude.{
  ℕ, ◌≡◌, refl, sym, ap, ◌∙◌, false, List, [], ◌∷◌, ◌++◌, Bytes, some, none, concat, concat-append,
  append-nil,
}
use telnetpp.Element.{Element}
use telnetpp.Generator.RoundTrip.{AllSendable}
use telnetpp.Session.{Session, receive, new_session}
use telnetpp.Session.Cutting.{receive_pieces}
use telnetpp.Session.Transparency.{
  Journal, journal_channel, log, write_elements, receive_all, texts, refusals,
  receive_all-write_elements,
}
use telnetpp.Options.Mccp.Zlib.{Coder, Zlib, compressor, compressor_do_finish, decompressor}
use telnetpp.Options.Mccp.Zlib.Chunk.{AllShort}
use telnetpp.Options.Mccp.Zlib.Laws.{Laws}
use telnetpp.Options.Mccp.Zlib.Compressing.{collect, new_coder, Transforms, compressor-Encodes}
use telnetpp.Options.Mccp.Zlib.Decompressing.{feeding, started, feeding-Encodes}

abbrev Reader : Type 0
Reader = Session Journal × Journal

-- A new session with nothing installed.
abbrev reader : Journal → Reader
reader w = (new_session journal_channel, w)

receive_all-nil : (x : Reader) → x ≡ receive_all [] x
unfolding receive_pieces
receive_all-nil x = refl

receive_all-snoc :
    (pieces : List Bytes) (bs : Bytes) (x : Reader)
    → receive_all (pieces ++ bs ∷ []) x ≡ receive log bs (receive_all pieces x)
unfolding receive_pieces
receive_all-snoc [] bs x = refl
receive_all-snoc (piece ∷ pieces) bs x = receive_all-snoc pieces bs (receive log piece x)

-- A session that has read `bs` in pieces.
abbrev HasRead : Journal → Reader → Bytes → Type 0
HasRead w x bs = (pieces : List Bytes) × (concat pieces ≡ bs) × (x ≡ receive_all pieces (reader w))

HasRead-receive :
    (w : Journal) (x : Reader) (g bs : Bytes)
    → HasRead w x g
    → HasRead w (receive log bs x) (g ++ bs)
HasRead-receive w x g bs (pieces, joined, e) = (
  pieces ++ bs ∷ [],
  concat-append pieces (bs ∷ [])
      ∙ ap (λ z. concat pieces ++ z) (append-nil bs)
      ∙ ap (λ z. z ++ bs) joined,
  ap (receive log bs) e ∙ sym (receive_all-snoc pieces bs (reader w)),
)

module _ {Z : Type 0} (zlib : Zlib Z) (laws : Laws zlib) (end_fuel : ℕ) where
  -- A session writes any elements that the protocol can express. The first of its bytes go in pieces
  -- through a compressor that has been started, which is then finished, and the others follow
  -- as they are, where the cut may fall inside an element. All that is cut anywhere once more
  -- and goes through a decompressor that has been started, each of whose results a new session
  -- with nothing installed reads at once. All the pieces are smaller than 2^32 bytes. Each call returns, the decompressor is no longer engaged and
  -- has no stream, and the application behind it has received exactly the text, in order, and each
  -- negotiation has been refused, in order, if the library does what it documents.
  received-compressed :
      (es : List Element) (pieces : List Bytes) (over : Bytes) (cut : Bytes → List Bytes)
      (w : Journal)
      → AllSendable es
      → concat pieces ++ over ≡ (write_elements es (record { sent = []; received = [] })).sent
      → ((bs : Bytes) → concat (cut bs) ≡ bs)
      → AllShort pieces
      → ((bs : Bytes) → AllShort (cut bs))
      → (c : Coder Z Bytes) × (fuel : ℕ) × (c' : Coder Z Bytes) × (v : Coder Z Reader) × Transforms
          (compressor zlib end_fuel)
          collect
          pieces
          new_coder
          c
        × (compressor_do_finish zlib fuel collect c ≡ some c')
        × Transforms
            (decompressor zlib)
            (feeding (receive log))
            (cut (c'.app ++ over))
            (started (reader w))
            v
        × ((v.engaged ≡ false)
            × (v.stream ≡ none)
            × (v.app.1
                ≡ record { sent = w.sent ++ refusals es; received = w.received ++ texts es }))
  received-compressed es pieces over cut w sendable written h short shorts =
      let (c, fuel, c', t, e, gone, s) = compressor-Encodes zlib laws end_fuel pieces short in
      let (v, u, (off, no_stream, (chunks, joined, same))) =
        feeding-Encodes zlib (receive log) (HasRead w) (HasRead-receive w) laws (reader w) c'.app
          (concat pieces) over (cut (c'.app ++ over)) (shorts (c'.app ++ over))
          ([], refl, receive_all-nil (reader w)) s (h (c'.app ++ over)) in
      (
        c,
        fuel,
        c',
        v,
        t,
        e,
        u,
        (
          off,
          no_stream,
          ap (λ x. x.1) same ∙ receive_all-write_elements es chunks w sendable (joined ∙ written),
        ),
      )
