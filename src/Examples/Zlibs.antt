-- ===== src/Examples/Zlibs.antt =====
-- Examples for the codecs over zlib, with a small library in its place.
mod Pairs
use telnetpp.Examples.Zlibs.Pairs.{pairs_zlib, pairs_laws}
use telnetpp.Prelude.{
  ◌≡◌, refl, ap, true, false, List, [], ◌∷◌, ◌++◌, Bool, Bytes, ℕ, some, none, concat, arith,
}
use telnetpp.Element.{Element, text, negotiation}
use telnetpp.Generator.{generate}
use telnetpp.Parser.{initial, state_negotiation, parse, parse_bytes, parse_byte}
use telnetpp.Options.Mccp.Ending.{transform-wont}
use telnetpp.TelnetOption.{inactive, active}
use telnetpp.Session.{write}
use telnetpp.Session.Transparency.{write_elements}
use telnetpp.Options.Mccp.Receiver.{deliver}
use telnetpp.Options.Mccp.Receiver.Telling.{Told, Client}
use telnetpp.Options.Mccp.Streamed.{start_message, written, received-started}
use telnetpp.Options.Mccp
use telnetpp.Options.Mccp.{start, returned, transform, finish_compression}
use telnetpp.Options.Mccp.Zlib.{
  Coder, new_object, compressor, compressor_do_finish, compressor_transform_chunk, decompressor,
  decompressor_do_finish, given, avail_in_of,
}
use telnetpp.Options.Mccp.Zlib.Balance.{Use, starts, gives, finishes, used_all, AllClosed}
use telnetpp.Options.Mccp.Zlib.Lifecycle.{used_all-AllClosed}
use telnetpp.Options.Mccp.Zlib.Compressing.{collect, new_coder, Transforms}
use telnetpp.Options.Mccp.Zlib.Chunk.{AllShort}
use telnetpp.Options.Mccp.Zlib.RoundTrip.{decompressor-compressor}
use telnetpp.Options.Mccp.Finishing.{Writer, mccp_server, finish_compression-escaped}
use telnetpp.Generator.Escape.{escaped}

abbrev two_pieces : List Bytes
two_pieces = (5 ∷ 6 ∷ []) ∷ (7 ∷ []) ∷ []

abbrev each_byte : Bytes → List Bytes
each_byte [] = []
each_byte (by ∷ bs) = (by ∷ []) ∷ each_byte bs

concat-each_byte : (bs : Bytes) → concat (each_byte bs) ≡ bs
concat-each_byte [] = refl
concat-each_byte (by ∷ bs) = ap (λ x. by ∷ x) (concat-each_byte bs)

AllShort-each_byte : (bs : Bytes) → AllShort (each_byte bs)
AllShort-each_byte [] = tt
AllShort-each_byte (by ∷ bs) = (omega arith, AllShort-each_byte bs)

abbrev uses : List Use
uses = starts ∷ gives 4 (1 ∷ 5 ∷ []) ∷ finishes 3 ∷ starts ∷ gives 4 (1 ∷ 5 ∷ 0 ∷ []) ∷ []

used_all-AllClosed_example :
    AllClosed (
      used_all
        (compressor pairs_zlib 0)
        (λ n. compressor_do_finish pairs_zlib n collect)
        collect
        uses
        (new_object []))
    × AllClosed (
        used_all
          (decompressor pairs_zlib)
          (λ n w. some (decompressor_do_finish pairs_zlib collect w))
          collect
          uses
          (new_object []))
used_all-AllClosed_example =
    used_all-AllClosed pairs_zlib collect (λ bs ended w. (refl, refl, refl)) 0 uses []

-- The compressor has set up two streams, and the second is open.
used_all-uses :
    used_all
      (compressor pairs_zlib 0)
      (λ n. compressor_do_finish pairs_zlib n collect)
      collect
      uses
      (new_object [])
    ≡ some (record {
      engaged = true;
      stream = some false;
      opened = 2;
      closed = 1;
      app = 1 ∷ 1 ∷ 1 ∷ 5 ∷ 0 ∷ 1 ∷ 1 ∷ 1 ∷ 5 ∷ 1 ∷ 0 ∷ [];
    })
unfolding start transform compressor_do_finish compressor_transform_chunk given avail_in_of
used_all-uses = refl

-- "h", 0xFF and WILL ECHO; what is compressed ends between them, in two pieces.
abbrev spoken : List Element
spoken = text (b'h' ∷ 255 ∷ []) ∷ negotiation (record { request = 251; option_code = 1 }) ∷ []

abbrev compressed_pieces : List Bytes
compressed_pieces = (b'h' ∷ 255 ∷ []) ∷ (255 ∷ 255 ∷ []) ∷ []

spoken-pieces :
    concat compressed_pieces ++ 251 ∷ 1 ∷ []
    ≡ (write_elements spoken (record { sent = []; received = [] })).sent
unfolding write_elements write generate
spoken-pieces = refl

-- "o" and WILL of MCCP, in front of the start.
abbrev agreed : List Element
agreed = text (b'o' ∷ []) ∷ negotiation (record { request = 251; option_code = 86 }) ∷ []

abbrev nothing_told : Told
nothing_told = record { option_state = inactive; sent = []; received = [] }

abbrev all_told : Told
all_told = record {
  option_state = active;
  sent = 255 ∷ 253 ∷ 86 ∷ 255 ∷ 254 ∷ 1 ∷ [];
  received = b'o' ∷ b'h' ∷ 255 ∷ [];
}

received-started_example :
    (c : Coder Bool Bytes) × (fuel : ℕ) × (c' : Coder Bool Bytes) × (v : Coder Bool Client)
    × Transforms (compressor pairs_zlib 0) collect compressed_pieces new_coder c
    × (compressor_do_finish pairs_zlib fuel collect c ≡ some c')
    × Transforms
        (decompressor pairs_zlib)
        (deliver pairs_zlib)
        (each_byte (written (agreed ++ start_message ∷ []) ++ (c'.app ++ 251 ∷ 1 ∷ [])))
        (new_object (record { parser = initial; told = nothing_told }))
        v
    × ((v.engaged ≡ false) × (v.stream ≡ none) × (v.app.told ≡ all_told))
received-started_example =
    received-started pairs_zlib pairs_laws 0 agreed spoken compressed_pieces (251 ∷ 1 ∷ [])
      each_byte nothing_told (tt, (refl, tt)) (tt, (refl, tt)) (tt, (refl, tt)) (tt, (refl, tt))
      refl spoken-pieces concat-each_byte (omega arith, (omega arith, tt)) AllShort-each_byte

-- 5 has been compressed, and "ok" was sent before.
abbrev compressing : Coder Bool Writer
compressing = record {
  engaged = true;
  stream = some false;
  opened = 1;
  closed = 0;
  app = record {
    option_state = active;
    compression_active = true;
    sent = b'o' ∷ b'k' ∷ 1 ∷ 5 ∷ [];
  };
}

finish_compression-escaped_example :
    (x : Bytes) × ((1 ∷ 5 ∷ []) ++ x ≡ 1 ∷ 5 ∷ 0 ∷ [])
    × (finish_compression (mccp_server pairs_zlib 2) compressing ≡ record compressing {
      engaged = false;
      stream = none;
      closed = 1;
      app = record compressing.app {
        compression_active = false;
        sent = (b'o' ∷ b'k' ∷ 1 ∷ 5 ∷ []) ++ escaped x;
      };
    })
unfolding pairs_laws
finish_compression-escaped_example =
    finish_compression-escaped pairs_zlib pairs_laws 2 (5 ∷ []) (1 ∷ 5 ∷ []) compressing refl refl
      (omega arith) refl

-- IAC and WONT have been read, and a 1; the option and "h" are to come.
abbrev taking_back : Coder Bool Client
taking_back = record {
  engaged = true;
  stream = some true;
  opened = 1;
  closed = 0;
  app = record {
    parser = record initial { state = state_negotiation; negotiation_type = 252 };
    told = record nothing_told { option_state = active };
  };
}

transform-wont_example :
    (fuel : ℕ) × (w' : Coder Bool Client) × (transform
        (decompressor pairs_zlib)
        fuel
        (86 ∷ b'h' ∷ [])
        (deliver pairs_zlib)
        taking_back
      ≡ some (returned w'))
    × ((w'.engaged ≡ false)
        × (w'.stream ≡ none)
        × (w'.app.parser ≡ record initial { negotiation_type = 252 })
        × (w'.app.told ≡ record nothing_told { sent = 255 ∷ 254 ∷ 86 ∷ []; received = b'h' ∷ [] }))
unfolding parse parse_bytes parse_byte
transform-wont_example =
    transform-wont pairs_zlib pairs_laws 86 (b'h' ∷ []) taking_back (refl, refl) (omega arith) refl
      refl refl refl (tt, tt)

decompressor-compressor_example :
    (w : Coder Bool Bytes) × (fuel : ℕ) × (w' : Coder Bool Bytes) × (v : Coder Bool Bytes)
    × Transforms (compressor pairs_zlib 0) collect two_pieces new_coder w
    × (compressor_do_finish pairs_zlib fuel collect w ≡ some w')
    × Transforms (decompressor pairs_zlib) collect (each_byte (w'.app ++ 9 ∷ [])) new_coder v
    × ((v.engaged ≡ false) × (v.stream ≡ none) × (v.app ≡ 5 ∷ 6 ∷ 7 ∷ 9 ∷ []))
decompressor-compressor_example =
    decompressor-compressor pairs_zlib pairs_laws 0 two_pieces (9 ∷ []) each_byte concat-each_byte
      (omega arith, (omega arith, tt)) AllShort-each_byte
