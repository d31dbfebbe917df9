-- ===== src/Options/Mccp/Zlib/RoundTrip.antt =====
-- The decompressor behind the compressor (src/options/mccp/zlib).
use telnetpp.Prelude.{ℕ, ◌≡◌, List, ◌++◌, Bytes, some, none, false, concat}
use telnetpp.Options.Mccp.Zlib.{Coder, Zlib, compressor, compressor_do_finish, decompressor}
use telnetpp.Options.Mccp.Zlib.Chunk.{AllShort}
use telnetpp.Options.Mccp.Zlib.Laws.{Laws}
use telnetpp.Options.Mccp.Zlib.Compressing.{collect, new_coder, Transforms, compressor-Encodes}
use telnetpp.Options.Mccp.Zlib.Decompressing.{decompressor-Encodes}

module _ {Z : Type 0} (zlib : Zlib Z) (laws : Laws zlib) (end_fuel : ℕ) where
  -- Pieces of data go through a compressor that has been started, which is then finished, and what it
  -- has handed on, with any bytes behind it, is cut anywhere and goes through a decompressor that has
  -- been started. All the pieces are smaller than 2^32 bytes. Each call returns, and the decompressor has handed on the pieces joined and then
  -- the bytes behind, is no longer engaged and has no stream, if the library does what it documents.
  pub decompressor-compressor :
      (pieces : List Bytes) (over : Bytes) (cut : Bytes → List Bytes)
      → ((bs : Bytes) → concat (cut bs) ≡ bs)
      → AllShort pieces
      → ((bs : Bytes) → AllShort (cut bs))
      → (w : Coder Z Bytes) × (fuel : ℕ) × (w' : Coder Z Bytes) × (v : Coder Z Bytes) × Transforms
          (compressor zlib end_fuel)
          collect
          pieces
          new_coder
          w
        × (compressor_do_finish zlib fuel collect w ≡ some w')
        × Transforms (decompressor zlib) collect (cut (w'.app ++ over)) new_coder v
        × ((v.engaged ≡ false) × (v.stream ≡ none) × (v.app ≡ concat pieces ++ over))
  decompressor-compressor pieces over cut h short shorts =
      let (w, fuel, w', t, e, gone, s) = compressor-Encodes zlib laws end_fuel pieces short in
      let (v, u, x) =
        decompressor-Encodes zlib laws w'.app (concat pieces) over (cut (w'.app ++ over)) (shorts _)
          s (h _) in
      (w, fuel, w', v, t, e, u, x)
