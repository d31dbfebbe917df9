-- ===== src/Options/Mccp/Zlib/Lifecycle.antt =====
-- The streams of the two codecs (src/options/mccp/zlib/compressor.cpp, decompressor.cpp).
use telnetpp.Prelude.{
  ℕ, zero, suc, ◌+◌, ◌≡◌, refl, ap, ◌∙◌, inl, inr, true, Bool-cases, List, [], ◌∷◌, Bytes, Option,
  none, some, arith,
}
use telnetpp.Options.Mccp.{Continuation, start, noting_end}
use telnetpp.Options.Mccp.Zlib.{
  finish, buffer_size, Response, ok, stream_end, data_error, other, Called, Coder, new_object, Zlib,
  stream_or, construct_if_none, is_ok, compressor, compressor_transform_chunk, finish_loop,
  finished, compressor_do_finish, inflated, decompressor, decompressor_transform_chunk,
  decompressor_do_finish,
}
use telnetpp.Options.Mccp.Zlib.Balance.{
  Use, used_all, held, opened_for-held, IsBalanced, AllBalanced, LeavesStream, continued-IsBalanced,
  destroy_if-IsBalanced, AllClosed, AllBalanced-AllClosed, used_all-AllBalanced,
}

module _ {Z A : Type 0} (zlib : Zlib Z) (cont : Continuation (Coder Z A))
    (leaves : LeavesStream cont) where
  compressor-chunk-IsBalanced :
      (fuel by : ℕ) (bs : Bytes) (w : Coder Z A)
      → IsBalanced w
      → IsBalanced
          (compressor_transform_chunk zlib (by ∷ bs) (noting_end (compressor zlib fuel) cont) w).1
  unfolding compressor_transform_chunk
  compressor-chunk-IsBalanced fuel by bs w b =
      continued-IsBalanced cont _ _ _ leaves (opened_for-held w.stream w.opened w.closed b)

  -- The object in and behind the loop of the compressor's end.
  abbrev IsHolding : Coder Z A → Type 0
  IsHolding w = (held w.stream ≡ 1) × IsBalanced w

  abbrev AllHolding : Option (Coder Z A) → Type 0
  AllHolding none = Unit
  AllHolding (some w) = IsHolding w

  finish_loop-AllHolding :
      (fuel : ℕ) (w : Coder Z A) → IsHolding w → AllHolding (finish_loop zlib fuel cont w)
  unfolding finish_loop
  finish_loop-AllHolding zero w h = tt
  finish_loop-AllHolding (suc fuel) w (one, b) =
      let r = zlib.deflate finish [] buffer_size (stream_or zlib.deflate_init w.stream) in
      let v : Coder Z A = record w { stream = some r.stream } in
      let kept : IsHolding (cont r.output true v) = (
        ap held (leaves r.output true v).0,
        continued-IsBalanced cont r.output true v leaves (b ∙ ap (λ n. w.closed + n) one),
      ) in
      elim (Bool-cases (is_ok r.response)) [
        | inl e ↦ rw e (finish_loop-AllHolding fuel (cont r.output true v) kept)
        | inr e ↦ rw e kept
      ]

  finished-AllBalanced : (o : Option (Coder Z A)) → AllHolding o → AllBalanced (finished zlib o)
  finished-AllBalanced none h = tt
  finished-AllBalanced (some w) (one, b) = omega (arith, b, one)

  compressor_do_finish-AllBalanced :
      (fuel : ℕ) (w : Coder Z A)
      → IsBalanced w
      → AllBalanced (compressor_do_finish zlib fuel cont w)
  unfolding compressor_do_finish
  compressor_do_finish-AllBalanced fuel w b = finished-AllBalanced _ (
      finish_loop-AllHolding fuel (construct_if_none zlib.deflate_init w)
        (refl, opened_for-held w.stream w.opened w.closed b))

  inflated-IsBalanced :
      (answer : Response) (bs : Bytes) (r : Called Z) (w : Coder Z A) (z : Z)
      → w.stream ≡ some z
      → IsBalanced w
      → IsBalanced (inflated zlib answer bs r (noting_end (decompressor zlib) cont) w).1
  inflated-IsBalanced data_error bs r w z e b = b
  inflated-IsBalanced stream_end bs r w z e b =
      continued-IsBalanced cont _ _ _ leaves (omega (arith, b ∙ ap (λ s. w.closed + held s) e))
  inflated-IsBalanced ok bs r w z e b = continued-IsBalanced cont _ _ _ leaves b
  inflated-IsBalanced other bs r w z e b = continued-IsBalanced cont _ _ _ leaves b

  decompressor-chunk-IsBalanced :
      (by : ℕ) (bs : Bytes) (w : Coder Z A)
      → IsBalanced w
      → IsBalanced
          (decompressor_transform_chunk zlib (by ∷ bs) (noting_end (decompressor zlib) cont) w).1
  unfolding decompressor_transform_chunk
  decompressor-chunk-IsBalanced by bs w b =
      inflated-IsBalanced _ (by ∷ bs) _ _ _ refl (opened_for-held w.stream w.opened w.closed b)

  start-IsBalanced :
      (fuel : ℕ) (w : Coder Z A)
      → IsBalanced w
      → IsBalanced (start (compressor zlib fuel) w) × IsBalanced (start (decompressor zlib) w)
  unfolding start
  start-IsBalanced fuel w b = (b, b)

  decompressor_do_finish-IsBalanced :
      (w : Coder Z A) → IsBalanced w → IsBalanced (decompressor_do_finish zlib cont w)
  unfolding decompressor_do_finish
  decompressor_do_finish-IsBalanced w b = destroy_if-IsBalanced w.stream w refl b

  -- A new compressor and a new decompressor are each started, given data and finished in any order,
  -- any number of times, with a continuation that leaves their streams alone, and exceptions are
  -- caught by the caller. Whatever the library answers, when the object is destroyed then, each
  -- stream that the library has set up for it has been released once.
  pub used_all-AllClosed :
      (fuel : ℕ) (us : List Use) (a : A)
      → AllClosed (
          used_all
            (compressor zlib fuel)
            (λ n. compressor_do_finish zlib n cont)
            cont
            us
            (new_object a))
        × AllClosed (
            used_all
              (decompressor zlib)
              (λ n w. some (decompressor_do_finish zlib cont w))
              cont
              us
              (new_object a))
  used_all-AllClosed fuel us a = (
    AllBalanced-AllClosed _ (
        used_all-AllBalanced (compressor zlib fuel) (λ n. compressor_do_finish zlib n cont) cont
          leaves (compressor-chunk-IsBalanced fuel) compressor_do_finish-AllBalanced
          (λ w b. (start-IsBalanced fuel w b).0) us (new_object a) refl),
    AllBalanced-AllClosed _ (
        used_all-AllBalanced (decompressor zlib) (λ n w. some (decompressor_do_finish zlib cont w))
          cont leaves decompressor-chunk-IsBalanced (λ n w b. decompressor_do_finish-IsBalanced w b)
          (λ w b. (start-IsBalanced fuel w b).1) us (new_object a) refl),
  )
