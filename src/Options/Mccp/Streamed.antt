-- ===== src/Options/Mccp/Streamed.antt =====
-- Two sessions (src/session.cpp), of which the one that writes starts to compress after a while
-- (src/options/mccp/server.cpp) and ends it again, and the one that reads has an MCCP client
-- (src/options/mccp/client.cpp) that follows it.
use telnetpp.Prelude.{
  ℕ, ◌≡◌, refl, sym, ap, subst, ◌∙◌, false, true, List, [], ◌∷◌, ◌++◌, Bytes, some, none, concat,
  append_assoc, append-nil,
}
use telnetpp.Core.{iac, sb, se}
use telnetpp.Element.{Element, subnegotiation}
use telnetpp.Stream.{coalesce}
use telnetpp.Stream.Folding.{folded-append}
use telnetpp.Parser.{Parser, initial, parse}
use telnetpp.Parser.Chunks.{parse-append}
use telnetpp.Parser.Opening.{opened, closed, parse-opening, parse-closing}
use telnetpp.Generator.{generate, generate_subnegotiation, generate_escaped}
use telnetpp.Generator.RoundTrip.{AllSendable, wire, parse-wire, parse-wire-initial}
use telnetpp.TelnetOption.{active}
use telnetpp.Session.Transparency.{Journal, write_elements, write_elements-sent}
use telnetpp.Options.Mccp.Compression.{option}
use telnetpp.Options.Mccp.Receiver.{deliver, deliver-feed, deliver-start}
use telnetpp.Options.Mccp.Receiver.Telling.{
  Told, Client, AllFine, told, tells, feed, IsAwaiting, IsAwaiting-feed, IsAwaiting-nil,
  IsAwaiting-read,
}
use telnetpp.Options.Mccp.Zlib.{
  Coder, Zlib, new_object, compressor, compressor_do_finish, decompressor,
}
use telnetpp.Options.Mccp.Zlib.Chunk.{AllShort}
use telnetpp.Options.Mccp.Zlib.Laws.{Laws}
use telnetpp.Options.Mccp.Zlib.Compressing.{collect, new_coder, Transforms, compressor-Encodes}
use telnetpp.Options.Mccp.Zlib.Reading.{Feeds}
use telnetpp.Options.Mccp.Zlib.Starting.{starting-Encodes}

-- What a server sends to start the compression.
abbrev pub start_message : Element
start_message = subnegotiation (record { option = option; content = [] })

abbrev pub written : List Element → Bytes
written es = (write_elements es (record { sent = []; received = [] })).sent

written-wire : (es : List Element) → written es ≡ wire es
written-wire es = ap (λ (z : Journal). z.sent) (write_elements-sent es _)

-- The same in front of its last byte.
abbrev opening : Bytes
opening = iac ∷ sb ∷ option ∷ iac ∷ []

wire-start :
    (es : List Element) (rest : Bytes)
    → wire (es ++ start_message ∷ []) ++ rest ≡ (wire es ++ opening) ++ se ∷ rest
unfolding generate generate_subnegotiation generate_escaped
wire-start [] rest = refl
wire-start (e ∷ es) rest =
    append_assoc (concat (generate e)) (wire (es ++ start_message ∷ [])) rest
    ∙ ap (λ z. concat (generate e) ++ z) (wire-start es rest)
    ∙ sym (append_assoc (concat (generate e)) (wire es ++ opening) (se ∷ rest))
    ∙ ap (λ z. z ++ se ∷ rest) (sym (append_assoc (concat (generate e)) (wire es) opening))

-- In front of the start, a new session awaits what has been written, up to its last byte.
IsAwaiting-opening :
    (es : List Element) (t : Told)
    → AllSendable es
    → AllFine es
    → IsAwaiting
        (opened option (parse (wire es) initial).0)
        (told es t)
        (record { parser = initial; told = t })
        (wire es ++ opening)
IsAwaiting-opening es t s fine =
    let ((idle, ready), out) = parse-wire-initial es s in
    let split = parse-append (wire es) opening initial tt in
    let last = parse-opening option (parse (wire es) initial).0 idle ready in
    IsAwaiting-read (record { parser = initial; told = t }) (wire es ++ opening)
      (opened option (parse (wire es) initial).0) es tt refl (split.0 ∙ ap (λ z. z.0) last)
      (split.1 []
        ∙ ap (λ z. coalesce [] ((parse (wire es) initial).1 ++ z.1)) last
        ∙ ap (coalesce []) (append-nil _ ∙ out))
      fine

-- Behind it, the session awaits what has been written then.
IsAwaiting-wire :
    (fs : List Element) (p : Parser) (t : Told)
    → AllSendable fs
    → AllFine fs
    → IsAwaiting
        (parse (wire fs) (closed option p)).0
        (told fs t)
        (record { parser = closed option p; told = t })
        (wire fs)
IsAwaiting-wire fs p t s fine =
    IsAwaiting-read (record { parser = closed option p; told = t }) (wire fs) _ fs tt refl refl
      (ap (coalesce []) (parse-wire fs (closed option p) s refl).1) fine

module _ {Z : Type 0} (zlib : Zlib Z) where
  pub deliver-Feeds : (p : Parser) (t : Told) → Feeds (deliver zlib) feed (IsAwaiting p t)
  deliver-Feeds p t bs rest ended w h =
      let (fine, later) = IsAwaiting-feed p t w.app bs rest h in
      (deliver-feed zlib bs ended w fine, later)

  -- The last byte.
  deliver-se :
      (fs : List Element) (p : Parser) (t : Told) (w : Coder Z Client)
      → t.option_state ≡ active
      → AllSendable fs
      → AllFine fs
      → IsAwaiting (opened option p) t w.app []
      → (deliver zlib (se ∷ []) false w ≡ record w { engaged = true; app = feed (se ∷ []) w.app })
        × IsAwaiting
            (parse (wire fs) (closed option p)).0
            (told fs t)
            (feed (se ∷ []) w.app)
            (wire fs)
  deliver-se fs p t w a s fine h =
      let (here, so_far) = IsAwaiting-nil (opened option p) t w.app h in
      let ends = ap (parse (se ∷ [])) here ∙ parse-closing option p in
      let fed : feed (se ∷ []) w.app ≡ record { parser = closed option p; told = t } =
        ap (λ (z : Parser × List Element). record { parser = z.0; told = told z.1 w.app.told }) ends
        ∙ ap (λ (z : Told). record { parser = closed option p; told = z }) so_far in
      (
        deliver-start zlib (se ∷ []) [] false w (ap (λ z. z.1) ends)
            (ap (λ (z : Told). z.option_state) so_far ∙ a),
        subst
            (λ (z : Client).
              IsAwaiting (parse (wire fs) (closed option p)).0 (told fs t) z (wire fs))
            (sym fed) (IsAwaiting-wire fs p t s fine),
      )

module _ {Z : Type 0} (zlib : Zlib Z) (laws : Laws zlib) (end_fuel : ℕ) where
  -- A session writes any elements that the protocol can express and then the message that starts the
  -- compression. The first of the bytes of what it writes next go in pieces through a compressor, which
  -- is then finished, and the others follow as they are, where the cut may fall inside an element. All
  -- that is cut anywhere once more and goes through a new decompressor, each of whose results is read
  -- at once by a new session on which an MCCP client with that decompressor is installed. All the
  -- pieces are smaller than 2^32 bytes. None of the elements is a subnegotiation of MCCP or its WONT, and its option is active when the message comes.
  -- Then each call returns, the decompressor has been started by the message and ended by the stream,
  -- and the session has done for all the elements in order what it does without compression: the
  -- application has received exactly their text, WILL of MCCP has been answered as the option's state
  -- has it, and the other negotiations have been refused, if the library does what it documents.
  pub received-started :
      (es fs : List Element) (pieces : List Bytes) (over : Bytes) (cut : Bytes → List Bytes)
      (t : Told)
      → AllSendable es
      → AllSendable fs
      → AllFine es
      → AllFine fs
      → (told es t).option_state ≡ active
      → concat pieces ++ over ≡ written fs
      → ((bs : Bytes) → concat (cut bs) ≡ bs)
      → AllShort pieces
      → ((bs : Bytes) → AllShort (cut bs))
      → (c : Coder Z Bytes) × (fuel : ℕ) × (c' : Coder Z Bytes) × (v : Coder Z Client) × Transforms
          (compressor zlib end_fuel)
          collect
          pieces
          new_coder
          c
        × (compressor_do_finish zlib fuel collect c ≡ some c')
        × Transforms
            (decompressor zlib)
            (deliver zlib)
            (cut (written (es ++ start_message ∷ []) ++ (c'.app ++ over)))
            (new_object (record { parser = initial; told = t }))
            v
        × ((v.engaged ≡ false) × (v.stream ≡ none) × (v.app.told ≡ told (es ++ fs) t))
  received-started es fs pieces over cut t s s' fine fine' a e h short shorts =
      let (c, fuel, c', u, ends, gone, whole) =
        compressor-Encodes zlib laws end_fuel pieces short in
      let p = (parse (wire es) initial).0 in
      let q = (parse (wire fs) (closed option p)).0 in
      let compressed : concat pieces ++ over ≡ wire fs = e ∙ written-wire fs in
      let all = written (es ++ start_message ∷ []) ++ (c'.app ++ over) in
      let all_eq : concat (cut all) ≡ (wire es ++ opening) ++ se ∷ (c'.app ++ over) =
        h all
        ∙ ap (λ z. z ++ (c'.app ++ over)) (written-wire (es ++ start_message ∷ []))
        ∙ wire-start es (c'.app ++ over) in
      let (v, x, (off, no_stream, left)) =
        starting-Encodes zlib laws (deliver zlib) feed (IsAwaiting q (told fs (told es t)))
          (IsAwaiting (opened option p) (told es t)) (deliver-Feeds zlib q (told fs (told es t)))
          (deliver-Feeds zlib (opened option p) (told es t)) se c'.app (concat pieces) over whole
          (λ w awaiting.
            let (started, next) = deliver-se zlib fs p (told es t) w a s' fine' awaiting in
            (started, subst (IsAwaiting q (told fs (told es t)) _) (sym compressed) next))
          (record { parser = initial; told = t }) (wire es ++ opening) (cut all) (shorts all)
          (IsAwaiting-opening es t s fine) all_eq in
      (
        c,
        fuel,
        c',
        v,
        u,
        ends,
        x,
        (
          off,
          no_stream,
          (IsAwaiting-nil q (told fs (told es t)) v.app left).1 ∙ sym (folded-append tells es fs t),
        ),
      )
