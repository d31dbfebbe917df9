-- ===== src/Options/Mccp/Zlib/Starting.antt =====
-- The decompressor (src/options/mccp/zlib/decompressor.cpp) from before its start: bytes are passed on
-- one by one until its continuation starts it.
use telnetpp.Prelude.{
  ℕ, suc, arith, ◌≡◌, refl, sym, ap, subst, ◌∙◌, ◌⊎◌, inl, inr, true, false, List, [], ◌∷◌, ◌++◌,
  Bytes, none, some, concat,
}
use telnetpp.Options.Mccp.{Continuation, returned, transform}
use telnetpp.Options.Mccp.Loop.{transform-off}
use telnetpp.Options.Mccp.Zlib.{Coder, Zlib, decompressor, new_object}
use telnetpp.Options.Mccp.Zlib.Chunk.{IsShort, AllShort}
use telnetpp.Options.Mccp.Zlib.Laws.{Laws}
use telnetpp.Options.Mccp.Zlib.Compressing.{Transforms, no_more, then}
use telnetpp.Options.Mccp.Zlib.Reading.{Feeds, Expects, transform-Expects, ended}

shorter : (by : ℕ) (bs : Bytes) → IsShort (by ∷ bs) → IsShort bs
shorter by bs h = omega arith

-- `Waits a rest`: the bytes `rest` are still to come in front of the byte `mark`, with which the
-- continuation starts the codec. Then follow the stream `s` of the data `d`, and the bytes `over`.
module _ {Z A : Type 0} (zlib : Zlib Z) (laws : Laws zlib) (cont : Continuation (Coder Z A))
    (feed : Bytes → A → A) (Awaits Waits : A → Bytes → Type 0) (feeds : Feeds cont feed Awaits)
    (waits : Feeds cont feed Waits) (mark : ℕ) (s d over : Bytes) (whole : laws.Encodes s d)
    (begins : (w : Coder Z A)
      → Waits w.app []
      → (cont (mark ∷ []) false w ≡ record w { engaged = true; app = feed (mark ∷ []) w.app })
        × Awaits (feed (mark ∷ []) w.app) (d ++ over)) where
  abbrev IsBefore : Coder Z A → Bytes → Type 0
  IsBefore w input =
      (rest : Bytes) × (w.engaged ≡ false)
      × (w.stream ≡ none)
      × (input ≡ rest ++ mark ∷ (s ++ over))
      × Waits w.app rest

  abbrev Behind : Coder Z A → Bytes → Type 0
  Behind w input = Expects zlib laws cont feed Awaits feeds w input

  abbrev IsComing : Coder Z A → Bytes → Type 0
  IsComing w input = IsBefore w input ⊎ Behind w input

  abbrev Comes : Bytes → Bytes → Coder Z A → Type 0
  Comes bs more w =
      (fuel : ℕ) × (w' : Coder Z A) × (transform (decompressor zlib) fuel bs cont w
        ≡ some (returned w'))
      × IsComing w' more

  -- One byte in front of the start.
  Comes-passed :
      (by : ℕ) (bs more : Bytes) (w w' : Coder Z A)
      → w.engaged ≡ false
      → cont (by ∷ []) false w ≡ w'
      → Comes bs more w'
      → Comes (by ∷ bs) more w
  Comes-passed by bs more w w' off e (fuel, w'', t, x) = (
    suc fuel,
    w'',
    transform-off (decompressor zlib) by bs fuel cont w off
        ∙ ap (transform (decompressor zlib) fuel bs cont) e
        ∙ t,
    x,
  )

  Comes-begun :
      (bs more : Bytes) (w : Coder Z A) → IsShort bs → Behind w (bs ++ more) → Comes bs more w
  Comes-begun bs more w short h =
      let (fuel, w', t, x) = transform-Expects zlib laws cont feed Awaits feeds bs more w short h in
      (fuel, w', t, inr x)

  abbrev started : Coder Z A → Coder Z A
  started w = record w { engaged = true; app = feed (mark ∷ []) w.app }

  begun : (w : Coder Z A) → w.stream ≡ none → Waits w.app [] → Behind (started w) (s ++ over)
  begun w no_stream h =
      inl (s, d, over, refl, rw no_stream (laws.inflating_new s d whole), refl, (begins w h).1)

  transform-before :
      (bs more rest : Bytes) (w : Coder Z A)
      → IsShort bs
      → w.engaged ≡ false
      → w.stream ≡ none
      → bs ++ more ≡ rest ++ mark ∷ (s ++ over)
      → Waits w.app rest
      → Comes bs more w
  unfolding transform
  transform-before [] more rest w short off no_stream e h =
      (0, w, refl, inl (rest, off, no_stream, e, h))
  transform-before (by ∷ bs) more [] w short off no_stream e h =
      let (same, behind) : (by ≡ mark) × (bs ++ more ≡ s ++ over) = (cc e, cc e) in
      Comes-passed by bs more w (started w) off
        (ap (λ x. cont (x ∷ []) false w) same ∙ (begins w h).0)
        (Comes-begun bs more (started w) (shorter by bs short)
          (subst (Behind (started w)) (sym behind) (begun w no_stream h)))
  transform-before (by ∷ bs) more (x ∷ rest) w short off no_stream e h =
      let (same, behind) : (x ≡ by) × (bs ++ more ≡ rest ++ mark ∷ (s ++ over)) = (cc e, cc e) in
      let (fed, h') = waits (by ∷ []) rest false w (subst (λ z. Waits w.app (z ∷ rest)) same h) in
      Comes-passed by bs more w (record w { app = feed (by ∷ []) w.app }) off fed
        (transform-before bs more rest (record w { app = feed (by ∷ []) w.app })
          (shorter by bs short) off no_stream behind h')

  transform-coming :
      (bs more : Bytes) (w : Coder Z A) → IsShort bs → IsComing w (bs ++ more) → Comes bs more w
  transform-coming bs more w short (inl (rest, off, no_stream, e, h)) =
      transform-before bs more rest w short off no_stream e h
  transform-coming bs more w short (inr h) = Comes-begun bs more w short h

  come_all :
      (bss : List Bytes) (w : Coder Z A)
      → AllShort bss
      → IsComing w (concat bss)
      → (w' : Coder Z A) × Transforms (decompressor zlib) cont bss w w' × IsComing w' []
  come_all [] w short h = (w, no_more w, h)
  come_all (bs ∷ bss) w short h =
      let (fuel, w', e, h') = transform-coming bs (concat bss) w short.0 h in
      let (w'', t, h'') = come_all bss w' short.1 h' in (w'', then fuel bs bss w w' w'' e t, h'')

  come : (w : Coder Z A) → IsComing w [] → Behind w []
  come w (inl ([], off, no_stream, e, h)) = absurd (cc e)
  come w (inl (x ∷ rest, off, no_stream, e, h)) = absurd (cc e)
  come w (inr h) = h

  -- A new decompressor, in front of the bytes `rest`, the mark, the stream and `over`, cut anywhere
  -- into pieces smaller than 2^32 bytes: each call returns, all that is awaited has been handed on, the codec is no longer engaged and the
  -- stream is destroyed.
  pub starting-Encodes :
      (a : A) (rest : Bytes) (pieces : List Bytes)
      → AllShort pieces
      → Waits a rest
      → concat pieces ≡ rest ++ mark ∷ (s ++ over)
      → (w : Coder Z A) × Transforms (decompressor zlib) cont pieces (new_object a) w
        × ((w.engaged ≡ false) × (w.stream ≡ none) × Awaits w.app [])
  starting-Encodes a rest pieces short h e =
      let (w, t, x) = come_all pieces (new_object a) short (inl (rest, refl, refl, e, h)) in
      (w, t, ended zlib laws cont feed Awaits feeds w (come w x))
