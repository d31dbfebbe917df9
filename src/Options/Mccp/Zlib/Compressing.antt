-- ===== src/Options/Mccp/Zlib/Compressing.antt =====
-- What the compressor (src/options/mccp/zlib/compressor.cpp) hands on, as a whole.
use telnetpp.Prelude.{
  ℕ, zero, suc, ◌-◌, ◌≤◌, ◌<◌, ◌≡◌, refl, sym, ap, subst, ◌∙◌, inl, inr, true, List, [], ◌∷◌, ◌++◌,
  append_assoc, append-nil, Bytes, none, some, length, length-drop, concat, append-take-drop, arith,
}
use telnetpp.Options.Mccp.{Codec, Continuation, returned, transform, resume, noting_end}
use telnetpp.Options.Mccp.Loop.{transform-on}
use telnetpp.Options.Mccp.Zlib.{
  sync_flush, finish, ok, stream_end, Called, destroy_stream, Coder, Zlib, buffer_size, stream_or,
  opened_for, construct_if_none, unread, compressor, finish_loop, compressor_do_finish,
}
use telnetpp.Options.Mccp.Zlib.Chunk.{IsShort, AllShort, compressor_transform_chunk-short}
use telnetpp.Options.Mccp.Zlib.Laws.{Laws, read}

-- A continuation that keeps what it is given.
abbrev pub collect : {Z : Type 0} → Continuation (Coder Z Bytes)
collect bs ended w = record w { app = w.app ++ bs }

-- After `start`.
abbrev pub new_coder : {Z : Type 0} → Coder Z Bytes
new_coder = record { engaged = true; stream = none; opened = 0; closed = 0; app = [] }

-- Calls of `operator()` with one piece of data after the other, each of which returns.
pub data Transforms {W : Type 0} (c : Codec W) (cont : Continuation W)
    : List Bytes → W → W → Type 0 where
  no_more : (w : W) → Transforms c cont [] w w
  then :
      (fuel : ℕ) (bs : Bytes) (bss : List Bytes) (w w' w'' : W)
      → transform c fuel bs cont w ≡ some (returned w')
      → Transforms c cont bss w' w''
      → Transforms c cont (bs ∷ bss) w w''

pub read-unread : {Z : Type 0} (bs : Bytes) (r : Called Z) → read bs r ++ unread bs r ≡ bs
read-unread bs r = append-take-drop (length bs - r.avail_in) bs

length-unread : {Z : Type 0} (bs : Bytes) (r : Called Z) → length (unread bs r) ≤ length bs
length-unread bs r = omega (arith, length-drop (length bs - r.avail_in) bs)

pub unread-IsShort : {Z : Type 0} (bs : Bytes) (r : Called Z) → IsShort bs → IsShort (unread bs r)
unread-IsShort bs r h = omega (arith, length-unread bs r)

module _ {Z : Type 0} (zlib : Zlib Z) (laws : Laws zlib) (end_fuel : ℕ) where
  abbrev stream_of : Coder Z Bytes → Z
  stream_of w = stream_or zlib.deflate_init w.stream

  -- The codec is engaged, and its stream has taken `d` and given what has been handed on.
  abbrev pub IsCompressing : Coder Z Bytes → Bytes → Type 0
  IsCompressing w d = (w.engaged ≡ true) × laws.Deflating (stream_of w) d w.app

  abbrev Written : Bytes → Bytes → Coder Z Bytes → Type 0
  Written bs d w =
      (fuel : ℕ) × (w' : Coder Z Bytes) × (transform (compressor zlib end_fuel) fuel bs collect w
        ≡ some (returned w'))
      × IsCompressing w' (d ++ bs)

  abbrev flushed : Bytes → Coder Z Bytes → Called Z
  flushed bs w = zlib.deflate sync_flush bs buffer_size (stream_of w)

  written-first :
      (by : ℕ) (bs d : Bytes) (w : Coder Z Bytes)
      → IsShort (by ∷ bs)
      → w.engaged ≡ true
      → Written
          (unread (by ∷ bs) (flushed (by ∷ bs) w))
          (d ++ read (by ∷ bs) (flushed (by ∷ bs) w))
          (record w {
            engaged = true;
            opened = opened_for w.stream w.opened;
            stream = some (flushed (by ∷ bs) w).stream;
            app = w.app ++ (flushed (by ∷ bs) w).output;
          })
      → Written (by ∷ bs) d w
  written-first by bs d w short on (fuel, w', e, c) = (
    suc fuel,
    w',
    transform-on (compressor zlib end_fuel) by bs fuel collect w on
        ∙ ap
            (resume (compressor zlib end_fuel)
              (λ left. transform (compressor zlib end_fuel) fuel left collect))
            (compressor_transform_chunk-short zlib (by ∷ bs)
              (noting_end (compressor zlib end_fuel) collect) w short)
        ∙ e,
    (
      c.0,
      subst (λ x. laws.Deflating (stream_of w') x w'.app)
          (append_assoc d (read (by ∷ bs) (flushed (by ∷ bs) w))
              (unread (by ∷ bs) (flushed (by ∷ bs) w))
            ∙ ap (λ x. d ++ x) (read-unread (by ∷ bs) (flushed (by ∷ bs) w)))
          c.1,
    ),
  )

  written :
      (n m : ℕ) (bs d : Bytes) (w : Coder Z Bytes)
      → length bs ≤ n
      → IsShort bs
      → laws.pending (stream_of w) ≤ m
      → IsCompressing w d
      → Written bs d w
  unfolding transform
  written n m [] d w l short p c = (
    0,
    w,
    refl,
    (c.0, subst (λ x. laws.Deflating (stream_of w) x w.app) (sym (append-nil d)) c.1),
  )
  written zero m (by ∷ bs) d w l short p c = absurd (omega arith)
  written (suc n) zero (by ∷ bs) d w l short p c =
      let law = laws.deflate_flush (stream_of w) d w.app by bs c.1 in
      elim law.1 [
        | inl shorter ↦ written-first by bs d w short c.0 (
            written n (laws.pending (flushed (by ∷ bs) w).stream) _ _ _ (omega arith)
              (unread-IsShort (by ∷ bs) (flushed (by ∷ bs) w) short) (omega arith) (refl, law.0))
        | inr fewer ↦ absurd (omega arith)
      ]
  written (suc n) (suc m) (by ∷ bs) d w l short p c =
      let law = laws.deflate_flush (stream_of w) d w.app by bs c.1 in
      elim law.1 [
        | inl shorter ↦ written-first by bs d w short c.0 (
            written n (laws.pending (flushed (by ∷ bs) w).stream) _ _ _ (omega arith)
              (unread-IsShort (by ∷ bs) (flushed (by ∷ bs) w) short) (omega arith) (refl, law.0))
        | inr fewer ↦ written-first by bs d w short c.0 (
            written (suc n) m _ _ _ (omega (arith, length-unread (by ∷ bs) (flushed (by ∷ bs) w)))
              (unread-IsShort (by ∷ bs) (flushed (by ∷ bs) w) short) (omega arith) (refl, law.0))
      ]

  abbrev after_finish : Coder Z Bytes → Coder Z Bytes
  after_finish w =
      let r = zlib.deflate finish [] buffer_size (stream_of w) in
      record w { stream = some r.stream; app = w.app ++ r.output }

  abbrev FinishedAt : ℕ → Bytes → Coder Z Bytes → Type 0
  FinishedAt fuel d w =
      (w' : Coder Z Bytes) × (finish_loop zlib fuel collect w ≡ some w') × laws.Encodes w'.app d

  finish_loop-last :
      (fuel : ℕ) (w : Coder Z Bytes)
      → (zlib.deflate finish [] buffer_size (stream_of w)).response ≡ stream_end
      → finish_loop zlib (suc fuel) collect w ≡ some (after_finish w)
  unfolding finish_loop
  finish_loop-last fuel w e = rw e refl

  finish_loop-more :
      (fuel : ℕ) (w : Coder Z Bytes)
      → (zlib.deflate finish [] buffer_size (stream_of w)).response ≡ ok
      → finish_loop zlib (suc fuel) collect w ≡ finish_loop zlib fuel collect (after_finish w)
  unfolding finish_loop
  finish_loop-more fuel w e = rw e refl

  -- Enough fuel for the end of a stream is one more than what is pending.
  finish_loop_total :
      (fuel : ℕ) (d : Bytes) (w : Coder Z Bytes)
      → laws.pending (stream_of w) < fuel
      → laws.Finishing (stream_of w) d w.app
      → FinishedAt fuel d w
  finish_loop_total zero d w p f = absurd (omega arith)
  finish_loop_total (suc fuel) d w p f = elim (laws.deflate_finish (stream_of w) d w.app f) [
    | inl (e, s) ↦ (after_finish w, finish_loop-last fuel w e, s)
    | inr (e, g, fewer) ↦
        let (w', q, x) = finish_loop_total fuel d (after_finish w) (omega arith) g in
        (w', finish_loop-more fuel w e ∙ q, x)
  ]

  written_all :
      (bss : List Bytes) (d : Bytes) (w : Coder Z Bytes)
      → AllShort bss
      → IsCompressing w d
      → (w' : Coder Z Bytes) × Transforms (compressor zlib end_fuel) collect bss w w'
        × IsCompressing w' (d ++ concat bss)
  written_all [] d w short c = (
    w,
    no_more w,
    (c.0, subst (λ x. laws.Deflating (stream_of w) x w.app) (sym (append-nil d)) c.1),
  )
  written_all (bs ∷ bss) d w short c =
      let (fuel, w', e, c') =
        written (length bs) (laws.pending (stream_of w)) bs d w (omega arith) short.0 (omega arith)
          c in
      let (w'', t, c'') = written_all bss (d ++ bs) w' short.1 c' in
      (
        w'',
        then fuel bs bss w w' w'' e t,
        (
          c''.0,
          subst (λ x. laws.Deflating (stream_of w'') x w''.app) (append_assoc d bs (concat bss))
              c''.1,
        ),
      )

  -- A compressor that has been started and has no stream yet is given any pieces of data, each smaller
  -- than 2^32 bytes, and then finished. Each call returns, the end takes finitely many calls of the library, the stream is
  -- destroyed, and what has been handed on in all is one whole stream of the pieces joined, if the
  -- library does what it documents.
  pub compressor-Encodes :
      (bss : List Bytes)
      → AllShort bss
      → (w : Coder Z Bytes) × (fuel : ℕ) × (w' : Coder Z Bytes) × Transforms
          (compressor zlib end_fuel)
          collect
          bss
          new_coder
          w
        × (compressor_do_finish zlib fuel collect w ≡ some w')
        × (w'.stream ≡ none)
        × laws.Encodes w'.app (concat bss)
  unfolding compressor_do_finish
  compressor-Encodes bss short =
      let (w, t, c) = written_all bss [] new_coder short (refl, laws.deflating_new) in
      let (w', e, x) =
        finish_loop_total (suc (laws.pending (stream_of w))) (concat bss)
          (construct_if_none zlib.deflate_init w) (omega arith) (laws.can_finish _ _ _ c.1) in
      (w, suc (laws.pending (stream_of w)), destroy_stream w', t, rw e refl, refl, x)
