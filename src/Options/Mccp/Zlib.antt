-- ===== src/Options/Mccp/Zlib.antt =====
-- The two codecs over zlib (src/options/mccp/zlib/compressor.cpp, decompressor.cpp). The library is
-- a parameter: what one call of it does with the stream that it is given.
pub mod Laws
pub mod Compressing
pub mod Reading
pub mod Starting
pub mod Decompressing
pub mod RoundTrip
pub mod Chunk
pub mod Balance
pub mod Lifecycle
use telnetpp.Prelude.{
  ℕ, zero, suc, ◌-◌, Bool, true, false, [], Bytes, Option, none, some, length, drop, take, ◌%◌, ◌^◌,
  if◌then◌else◌,
}
use telnetpp.Options.Mccp.{Continuation, Codec}

-- `Z_SYNC_FLUSH` and `Z_FINISH`.
pub data Flush : Type 0 where
  sync_flush finish : Flush

-- What the library answers: `Z_OK`, `Z_STREAM_END`, `Z_DATA_ERROR`, or something else.
pub data Response : Type 0 where
  ok stream_end data_error other : Response

-- After a call: the answer, how many bytes of the input are still to be read (`avail_in`), what has
-- been put into the output buffer, and the stream's internal state.
pub record Called (Z : Type 0) : Type 0 where
  pub response : Response
  pub avail_in : ℕ
  pub output : Bytes
  pub stream : Z

-- `deflateInit` and `inflateInit` on a stream that is zeroed, and the calls with some input and a
-- buffer of some size.
pub record Zlib (Z : Type 0) : Type 0 where
  pub deflate_init : Z
  pub deflate : Flush → Bytes → ℕ → Z → Called Z
  pub inflate_init : Z
  pub inflate : Flush → Bytes → ℕ → Z → Called Z

-- `output_buffer_size` and `receive_buffer_size`.
abbrev pub buffer_size : ℕ
buffer_size = 1024

-- A codec's object: the flag of its base class and the stream; how many streams the library has set
-- up and released for it; and `app`, what its continuation changes.
pub record Coder (Z A : Type 0) : Type 0 where
  pub engaged : Bool
  pub stream : Option Z
  pub opened : ℕ
  pub closed : ℕ
  pub app : A

-- A new object.
abbrev pub new_object : {Z A : Type 0} → A → Coder Z A
new_object a = record { engaged = false; stream = none; opened = 0; closed = 0; app = a }

module _ {Z : Type 0} where
  -- The stream, which is `new` if there is none.
  abbrev pub stream_or : Z → Option Z → Z
  stream_or new none = new
  stream_or new (some z) = z

  abbrev pub opened_for : Option Z → ℕ → ℕ
  opened_for none n = suc n
  opened_for (some z) n = n

module _ {Z A : Type 0} where
  -- `if (!stream_) construct_stream()`.
  abbrev pub construct_if_none : Z → Coder Z A → Coder Z A
  construct_if_none new w = record w {
    stream = some (stream_or new w.stream);
    opened = opened_for w.stream w.opened;
  }

  abbrev pub destroy_stream : Coder Z A → Coder Z A
  destroy_stream w = record w { stream = none; closed = suc w.closed }

  -- `if (stream_) destroy_stream()`, of the destructors and of the decompressor's `do_finish`.
  abbrev pub destroy_if : Option Z → Coder Z A → Coder Z A
  destroy_if none w = w
  destroy_if (some z) w = destroy_stream w

  abbrev pub destructor : Coder Z A → Coder Z A
  destructor w = destroy_if w.stream w

module _ {Z : Type 0} where
  -- `data.subspan(data.size() - avail_in)`, of the input `data`.
  abbrev pub unread : Bytes → Called Z → Bytes
  unread input r = drop (length input - r.avail_in) input

-- `avail_in`, a `uInt` of 32 bits, as `static_cast<uInt>(data.size())` sets it.
unfoldable pub avail_in_of : Bytes → ℕ
avail_in_of input = length input % 2 ^ 32

-- What the library can read of the input: `next_in` and `avail_in`.
unfoldable pub given : Bytes → Bytes
unfolding avail_in_of
given input = take (avail_in_of input) input

abbrev pub is_ok : Response → Bool
is_ok ok = true
is_ok _ = false

module _ {Z A : Type 0} (zlib : Zlib Z) where
  -- compressor.cpp. The assertions on the library's answers are left out.
  unfoldable pub compressor_transform_chunk :
      Bytes → Continuation (Coder Z A) → Coder Z A → Option Bytes × Coder Z A
  compressor_transform_chunk input cont w =
      let r =
        zlib.deflate sync_flush (given input) buffer_size (stream_or zlib.deflate_init w.stream) in
      (
        some (unread input r),
        cont r.output false
            (record (construct_if_none zlib.deflate_init w) { stream = some r.stream }),
      )

  -- The loop of the compressor's `do_finish`. `none` means that the fuel ran out; each call of
  -- `deflate` takes one unit.
  unfoldable pub finish_loop : ℕ → Continuation (Coder Z A) → Coder Z A → Option (Coder Z A)
  finish_loop zero cont w = none
  finish_loop (suc fuel) cont w =
      let r = zlib.deflate finish [] buffer_size (stream_or zlib.deflate_init w.stream) in
      let w' = cont r.output true (record w { stream = some r.stream }) in
      let rest = finish_loop fuel cont w' in if is_ok r.response then rest else some w'

  abbrev finished : Option (Coder Z A) → Option (Coder Z A)
  finished none = none
  finished (some w) = some (destroy_stream w)

  unfoldable pub compressor_do_finish :
      ℕ → Continuation (Coder Z A) → Coder Z A → Option (Coder Z A)
  unfolding finish_loop
  compressor_do_finish fuel cont w =
      finished (finish_loop fuel cont (construct_if_none zlib.deflate_init w))

  abbrev pub or_unfinished : Coder Z A → Option (Coder Z A) → Coder Z A
  or_unfinished w none = w
  or_unfinished w (some w') = w'

  -- The class, with the fuel for the end of its stream.
  abbrev pub compressor : ℕ → Codec (Coder Z A)
  compressor fuel = record {
    engaged = λ w. w.engaged;
    set_engaged = λ b w. record w { engaged = b };
    do_start = λ w. w;
    do_finish = λ cont w. or_unfinished w (compressor_do_finish fuel cont w);
    transform_chunk = compressor_transform_chunk;
  }

  -- decompressor.cpp: what follows the call of `inflate`.
  abbrev pub inflated :
      Response → Bytes → Called Z → Continuation (Coder Z A) → Coder Z A → Option Bytes × Coder Z A
  inflated data_error input r cont w = (none, w)
  inflated stream_end input r cont w =
      (some (unread input r), cont r.output true (destroy_stream w))
  inflated _ input r cont w = (some (unread input r), cont r.output false w)

  unfoldable pub decompressor_transform_chunk :
      Bytes → Continuation (Coder Z A) → Coder Z A → Option Bytes × Coder Z A
  decompressor_transform_chunk input cont w =
      let r =
        zlib.inflate sync_flush (given input) buffer_size (stream_or zlib.inflate_init w.stream) in
      inflated r.response input r cont
        (record (construct_if_none zlib.inflate_init w) { stream = some r.stream })

  unfoldable pub decompressor_do_finish : Continuation (Coder Z A) → Coder Z A → Coder Z A
  decompressor_do_finish cont w = destroy_if w.stream w

  abbrev pub decompressor : Codec (Coder Z A)
  decompressor = record {
    engaged = λ w. w.engaged;
    set_engaged = λ b w. record w { engaged = b };
    do_start = λ w. w;
    do_finish = decompressor_do_finish;
    transform_chunk = decompressor_transform_chunk;
  }
