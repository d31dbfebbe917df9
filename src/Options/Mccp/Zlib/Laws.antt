-- ===== src/Options/Mccp/Zlib/Laws.antt =====
-- What the zlib library documents of its calls, as far as the two codecs rely on it.
use telnetpp.Prelude.{ℕ, ◌+◌, ◌-◌, ◌<◌, ◌≡◌, ◌≢◌, ◌⊎◌, [], ◌∷◌, ◌++◌, Bytes, length, take}
use telnetpp.Options.Mccp.Zlib.{
  sync_flush, finish, ok, stream_end, Called, Zlib, buffer_size, unread,
}

-- The part of the input that a call has read.
abbrev pub read : {Z : Type 0} → Bytes → Called Z → Bytes
read input r = take (length input - r.avail_in) input

-- `Encodes s d`: the bytes `s` are one whole stream, of the data `d`.
-- `Deflating z d s`: the stream `z` has taken `d` and given `s`, and can take more; `Finishing z d s`
-- the same, for one that can be finished. `pending z` bounds what it has still to give.
-- `Inflating z s d`: the stream `z` has still to take `s`, and to give `d`.
pub record Laws {Z : Type 0} (zlib : Zlib Z) : Type 1 where
  pub Encodes : Bytes → Bytes → Type 0
  pub Deflating : Z → Bytes → Bytes → Type 0
  pub Finishing : Z → Bytes → Bytes → Type 0
  pub Inflating : Z → Bytes → Bytes → Type 0
  pub pending : Z → ℕ
  pub deflating_new : Deflating zlib.deflate_init [] []
  pub can_finish : (z : Z) (d s : Bytes) → Deflating z d s → Finishing z d s
  -- A flush reads some of the input or gives some of what is pending.
  pub deflate_flush :
      (z : Z) (d s : Bytes) (by : ℕ) (bs : Bytes)
      → Deflating z d s
      → let r = zlib.deflate sync_flush (by ∷ bs) buffer_size z in
        Deflating r.stream (d ++ read (by ∷ bs) r) (s ++ r.output)
        × ((length (unread (by ∷ bs) r) < length (by ∷ bs)) ⊎ (pending r.stream < pending z))
  -- The end of the stream, or more is pending.
  pub deflate_finish :
      (z : Z) (d s : Bytes)
      → Finishing z d s
      → let r = zlib.deflate finish [] buffer_size z in
        ((r.response ≡ stream_end) × Encodes (s ++ r.output) d)
        ⊎ ((r.response ≡ ok)
            × Finishing r.stream d (s ++ r.output)
            × (pending r.stream < pending z))
  pub inflating_new : (s d : Bytes) → Encodes s d → Inflating zlib.inflate_init s d
  -- The last thing that a stream takes is its check value.
  pub inflating_more : (z : Z) (s d : Bytes) → Inflating z s d → s ≢ []
  -- A stream reads no more than its end, and reads or gives something.
  pub inflate_flush :
      (z : Z) (s d : Bytes) (by : ℕ) (bs more : Bytes)
      → Inflating z s d
      → (over : Bytes) × ((by ∷ bs) ++ more ≡ s ++ over)
      → let r = zlib.inflate sync_flush (by ∷ bs) buffer_size z in
        ((r.response ≡ stream_end) × (s ≡ read (by ∷ bs) r) × (d ≡ r.output))
        ⊎ ((r.response ≡ ok)
            × ((s' : Bytes) × (d' : Bytes) × (s ≡ read (by ∷ bs) r ++ s')
                × (d ≡ r.output ++ d')
                × Inflating r.stream s' d'
                × (length (unread (by ∷ bs) r) + length d' < length (by ∷ bs) + length d)))
