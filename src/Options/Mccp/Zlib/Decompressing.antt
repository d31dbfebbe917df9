-- ===== src/Options/Mccp/Zlib/Decompressing.antt =====
-- The decompressor (src/options/mccp/zlib/decompressor.cpp) with a continuation that feeds what it is
-- given to something else.
use telnetpp.Prelude.{
  ◌≡◌, refl, sym, ap, subst, ◌∙◌, inl, true, false, List, [], ◌++◌, append_assoc, append-nil, Bytes,
  none, concat,
}
use telnetpp.Options.Mccp.{Continuation}
use telnetpp.Options.Mccp.Zlib.{Coder, Zlib, decompressor}
use telnetpp.Options.Mccp.Zlib.Chunk.{AllShort}
use telnetpp.Options.Mccp.Zlib.Laws.{Laws}
use telnetpp.Options.Mccp.Zlib.Compressing.{collect, Transforms, new_coder}
use telnetpp.Options.Mccp.Zlib.Reading.{Feeds, read_all, ended}

-- A continuation that feeds what it is given to all else.
abbrev pub feeding : {Z A : Type 0} → (Bytes → A → A) → Continuation (Coder Z A)
feeding feed bs ended w = record w { app = feed bs w.app }

-- After `start`.
abbrev pub started : {Z A : Type 0} → A → Coder Z A
started a = record { engaged = true; stream = none; opened = 0; closed = 0; app = a }

-- `Given a bs`: the pieces that have been fed until `a` are `bs` in all.
module _ {Z A : Type 0} (zlib : Zlib Z) (feed : Bytes → A → A) (Given : A → Bytes → Type 0)
    (given_more : (a : A) (g bs : Bytes) → Given a g → Given (feed bs a) (g ++ bs)) where
  -- `a` has been given what stands in `all` in front of `rest`.
  abbrev IsGiven : Bytes → A → Bytes → Type 0
  IsGiven all a rest = (g : Bytes) × Given a g × (g ++ rest ≡ all)

  IsGiven-feeds : (all : Bytes) → Feeds {Z = Z} (feeding feed) feed (IsGiven all)
  IsGiven-feeds all bs rest ended w (g, given, e) =
      (refl, (g ++ bs, given_more w.app g bs given, append_assoc g bs rest ∙ e))

  -- The bytes of one whole stream and any others behind it are given in pieces smaller than 2^32 bytes,
  -- cut anywhere, to a decompressor that has been started and has no stream yet. Each call returns; in all, the data
  -- of the stream is handed on and then the bytes behind it as they are, the codec is no longer
  -- engaged and the stream is destroyed, if the library does what it documents.
  pub feeding-Encodes :
      (laws : Laws zlib) (a : A) (s d over : Bytes) (pieces : List Bytes)
      → AllShort pieces
      → Given a []
      → laws.Encodes s d
      → concat pieces ≡ s ++ over
      → (w : Coder Z A) × Transforms (decompressor zlib) (feeding feed) pieces (started a) w
        × ((w.engaged ≡ false) × (w.stream ≡ none) × Given w.app (d ++ over))
  feeding-Encodes laws a s d over pieces short none_yet x e =
      let feeds = IsGiven-feeds (d ++ over) in
      let (w, t, h) =
        read_all zlib laws (feeding feed) feed (IsGiven (d ++ over)) feeds pieces (started a) short
          (inl (s, d, over, refl, laws.inflating_new s d x, e, ([], none_yet, refl))) in
      let (off, no_stream, (g, given, same)) =
        ended zlib laws (feeding feed) feed (IsGiven (d ++ over)) feeds w h in
      (w, t, (off, no_stream, subst (Given w.app) (sym (append-nil g) ∙ same) given))

module _ {Z : Type 0} (zlib : Zlib Z) (laws : Laws zlib) where
  -- The same of a continuation that keeps what it is given.
  pub decompressor-Encodes :
      (s d over : Bytes) (pieces : List Bytes)
      → AllShort pieces
      → laws.Encodes s d
      → concat pieces ≡ s ++ over
      → (w : Coder Z Bytes) × Transforms (decompressor zlib) collect pieces new_coder w
        × ((w.engaged ≡ false) × (w.stream ≡ none) × (w.app ≡ d ++ over))
  decompressor-Encodes s d over pieces short x e =
      feeding-Encodes zlib (λ bs a. a ++ bs) (λ a g. a ≡ g) (λ a g bs h. ap (λ z. z ++ bs) h) laws
        [] s d over pieces short refl x e
