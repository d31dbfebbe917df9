-- ===== src/Options/Mccp/Zlib/Chunk.antt =====
-- One call of `inflate` and of `deflate` on input whose size a `uInt` can hold
-- (src/options/mccp/zlib/decompressor.cpp, compressor.cpp).
use telnetpp.Prelude.{
  ℕ, suc, ◌<◌, ◌%◌, ◌^◌, ◌≡◌, refl, ap, ◌∙◌, true, false, List, [], ◌∷◌, Bytes, some, length, take,
  arith,
}
use telnetpp.Options.Mccp.{Continuation, resume, transform, noting_end}
use telnetpp.Options.Mccp.Loop.{transform-on}
use telnetpp.Options.Mccp.Zlib.{
  sync_flush, Response, Called, Coder, Zlib, buffer_size, stream_or, construct_if_none, unread,
  given, avail_in_of, inflated, compressor_transform_chunk, decompressor,
  decompressor_transform_chunk,
}

-- `static_cast<uInt>` keeps the size.
abbrev pub IsShort : Bytes → Type 0
IsShort bs = length bs < 2 ^ 32

abbrev pub AllShort : List Bytes → Type 0
AllShort [] = Unit
AllShort (bs ∷ bss) = IsShort bs × AllShort bss

take-length : (bs : Bytes) → take (length bs) bs ≡ bs
take-length [] = refl
take-length (by ∷ bs) = ap (λ z. by ∷ z) (take-length bs)

small : (n : ℕ) → n < 2 ^ 32 → n % 2 ^ 32 ≡ n
small n h = omega arith

pub given-short : (bs : Bytes) → IsShort bs → given bs ≡ bs
unfolding given avail_in_of
given-short bs h = ap (λ n. take n bs) (small (length bs) h) ∙ take-length bs

module _ {Z A : Type 0} (zlib : Zlib Z) where
  abbrev pub called : Bytes → Coder Z A → Called Z
  called bs w = zlib.inflate sync_flush bs buffer_size (stream_or zlib.inflate_init w.stream)

  -- With the stream behind that call.
  abbrev holding : Bytes → Coder Z A → Coder Z A
  holding bs w = record (construct_if_none zlib.inflate_init w) {
    stream = some (called bs w).stream;
  }

  -- A call that the library answers with `answer`.
  pub transform-answer :
      (fuel by : ℕ) (bs : Bytes) (cont : Continuation (Coder Z A)) (w : Coder Z A)
      (answer : Response)
      → IsShort (by ∷ bs)
      → w.engaged ≡ true
      → (called (by ∷ bs) w).response ≡ answer
      → transform (decompressor zlib) (suc fuel) (by ∷ bs) cont w
        ≡ resume
            (decompressor zlib)
            (λ left. transform (decompressor zlib) fuel left cont)
            (inflated zlib answer
              (by ∷ bs)
              (called (by ∷ bs) w)
              (noting_end (decompressor zlib) cont)
              (holding (by ∷ bs) w))
  unfolding decompressor_transform_chunk
  transform-answer fuel by bs cont w answer short on e =
      transform-on (decompressor zlib) by bs fuel cont w on
      ∙ ap
          (λ input.
            resume (decompressor zlib) (λ left. transform (decompressor zlib) fuel left cont)
              (inflated zlib (called input w).response (by ∷ bs) (called input w)
                (noting_end (decompressor zlib) cont) (holding input w)))
          (given-short (by ∷ bs) short)
      ∙ ap
          (λ x.
            resume (decompressor zlib) (λ left. transform (decompressor zlib) fuel left cont)
              (inflated zlib x (by ∷ bs) (called (by ∷ bs) w) (noting_end (decompressor zlib) cont)
                (holding (by ∷ bs) w)))
          e

  -- What the compressor's chunk is then.
  pub compressor_transform_chunk-short :
      (bs : Bytes) (cont : Continuation (Coder Z A)) (w : Coder Z A)
      → IsShort bs
      → let r = zlib.deflate sync_flush bs buffer_size (stream_or zlib.deflate_init w.stream) in
        compressor_transform_chunk zlib bs cont w ≡ (
          some (unread bs r),
          cont r.output false
              (record (construct_if_none zlib.deflate_init w) { stream = some r.stream }),
        )
  unfolding compressor_transform_chunk
  compressor_transform_chunk-short bs cont w short =
      ap
        (λ input.
          let r =
            zlib.deflate sync_flush input buffer_size (stream_or zlib.deflate_init w.stream) in
          (
            some (unread bs r),
            cont r.output false
                (record (construct_if_none zlib.deflate_init w) { stream = some r.stream }),
          ))
        (given-short bs short)
