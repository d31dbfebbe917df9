-- ===== src/Options/Mccp/Zlib/Reading.antt =====
-- What the decompressor (src/options/mccp/zlib/decompressor.cpp) hands on, as a whole, to a
-- continuation that does what is known of it for the bytes that are awaited.
use telnetpp.Prelude.{
  ℕ, zero, suc, ◌+◌, ◌≤◌, ◌≡◌, refl, sym, ap, subst, ◌∙◌, ◌⊎◌, inl, inr, Bool, true, false, List,
  [], ◌∷◌, ◌++◌, append_assoc, append-nil, Bytes, none, some, length, concat, arith,
}
use mathlib.Core.List.{append_cancel_left}
use telnetpp.Options.Mccp.{Continuation, returned, transform}
use telnetpp.Options.Mccp.Loop.{transform-off}
use telnetpp.Options.Mccp.Zlib.{
  sync_flush, ok, stream_end, Called, Coder, Zlib, buffer_size, stream_or, opened_for, unread,
  decompressor,
}
use telnetpp.Options.Mccp.Zlib.Chunk.{IsShort, AllShort, transform-answer}
use telnetpp.Options.Mccp.Zlib.Laws.{Laws, read}
use telnetpp.Options.Mccp.Zlib.Compressing.{Transforms, no_more, then, read-unread, unread-IsShort}

nil_left : (s over : Bytes) → [] ≡ s ++ over → s ≡ []
nil_left [] over e = refl
nil_left (by ∷ s) over e = absurd (cc e)

-- A continuation that feeds what it is given to all else, and does nothing more to the codec, as
-- long as it is given what is awaited: `Awaits a rest`, where the bytes `rest` are still to come.
abbrev pub Feeds :
    {Z A : Type 0} → Continuation (Coder Z A) → (Bytes → A → A) → (A → Bytes → Type 0) → Type 0
Feeds {Z} {A} cont feed Awaits =
    (bs rest : Bytes) (ended : Bool) (w : Coder Z A)
    → Awaits w.app (bs ++ rest)
    → (cont bs ended w ≡ record w { app = feed bs w.app }) × Awaits (feed bs w.app) rest

module _ {Z A : Type 0} (zlib : Zlib Z) (laws : Laws zlib) (cont : Continuation (Coder Z A))
    (feed : Bytes → A → A) (Awaits : A → Bytes → Type 0) (feeds : Feeds cont feed Awaits) where
  abbrev stream_of : Coder Z A → Z
  stream_of w = stream_or zlib.inflate_init w.stream

  abbrev called : Bytes → Coder Z A → Called Z
  called bs w = zlib.inflate sync_flush bs buffer_size (stream_of w)

  -- The object behind a call of `inflate` that has not ended the stream, and behind one that has, when
  -- the continuation is called.
  abbrev inside : Bytes → Coder Z A → Coder Z A
  inside bs w = record w {
    engaged = true;
    stream = some (called bs w).stream;
    opened = opened_for w.stream w.opened;
  }

  abbrev outside : Bytes → Coder Z A → Coder Z A
  outside bs w = record w {
    engaged = false;
    stream = none;
    opened = opened_for w.stream w.opened;
    closed = suc w.closed;
  }

  -- With the bytes `input` still to come, what is awaited will be handed on: in a stream, which the
  -- bytes begin with the rest of, or behind it.
  abbrev pub IsInside : Coder Z A → Bytes → Type 0
  IsInside w input =
      (s : Bytes) × (d : Bytes) × (over : Bytes) × (w.engaged ≡ true)
      × laws.Inflating (stream_of w) s d
      × (input ≡ s ++ over)
      × Awaits w.app (d ++ over)

  abbrev IsOutside : Coder Z A → Bytes → Type 0
  IsOutside w input = (w.engaged ≡ false) × (w.stream ≡ none) × Awaits w.app input

  abbrev pub Expects : Coder Z A → Bytes → Type 0
  Expects w input = IsInside w input ⊎ IsOutside w input

  abbrev pub Read : Bytes → Bytes → Coder Z A → Type 0
  Read bs more w =
      (fuel : ℕ) × (w' : Coder Z A) × (transform (decompressor zlib) fuel bs cont w
        ≡ some (returned w'))
      × Expects w' more

  Read-outside : (bs more : Bytes) (w : Coder Z A) → IsOutside w (bs ++ more) → Read bs more w
  unfolding transform
  Read-outside [] more w h = (0, w, refl, inr h)
  Read-outside (by ∷ bs) more w (off, no_stream, h) =
      let (fed, h') = feeds (by ∷ []) (bs ++ more) false w h in
      let (fuel, w', t, x) =
        Read-outside bs more (record w { app = feed (by ∷ []) w.app }) (off, no_stream, h') in
      (
        suc fuel,
        w',
        transform-off (decompressor zlib) by bs fuel cont w off
            ∙ ap (transform (decompressor zlib) fuel bs cont) fed
            ∙ t,
        x,
      )

  -- The input behind what one call has read.
  unread-rest :
      (bs more s over : Bytes) (r : Called Z)
      → bs ++ more ≡ (read bs r ++ s) ++ over
      → unread bs r ++ more ≡ s ++ over
  unread-rest bs more s over r e =
      append_cancel_left (read bs r) (unread bs r ++ more) (s ++ over) (
        sym (append_assoc (read bs r) (unread bs r) more)
        ∙ ap (λ x. x ++ more) (read-unread bs r)
        ∙ e
        ∙ append_assoc (read bs r) s over)

  -- A call that ends the stream: what follows it is passed on as it is.
  Read-ended :
      (by : ℕ) (bs more over : Bytes) (w : Coder Z A)
      → IsShort (by ∷ bs)
      → w.engaged ≡ true
      → (called (by ∷ bs) w).response ≡ stream_end
      → (by ∷ bs) ++ more ≡ (read (by ∷ bs) (called (by ∷ bs) w) ++ []) ++ over
      → Awaits w.app ((called (by ∷ bs) w).output ++ over)
      → Read (by ∷ bs) more w
  Read-ended by bs more over w short on e split h =
      let r = called (by ∷ bs) w in
      let (fed, h') = feeds r.output over true (outside (by ∷ bs) w) h in
      let (fuel, w', t, x) =
        Read-outside (unread (by ∷ bs) r) more
          (record (outside (by ∷ bs) w) { app = feed r.output w.app })
          (
            refl,
            refl,
            subst (Awaits (feed r.output w.app)) (sym (unread-rest (by ∷ bs) more [] over r split))
                h',
          ) in
      (
        suc fuel,
        w',
        transform-answer zlib fuel by bs cont w stream_end short on e
            ∙ ap (transform (decompressor zlib) fuel (unread (by ∷ bs) r) cont) fed
            ∙ t,
        x,
      )

  Read-inside :
      (n : ℕ) (bs more s d over : Bytes) (w : Coder Z A)
      → length bs + length d ≤ n
      → IsShort bs
      → w.engaged ≡ true
      → laws.Inflating (stream_of w) s d
      → bs ++ more ≡ s ++ over
      → Awaits w.app (d ++ over)
      → Read bs more w
  unfolding transform
  Read-inside n [] more s d over w l short on i split h =
      (0, w, refl, inl (s, d, over, on, i, split, h))
  Read-inside zero (by ∷ bs) more s d over w l short on i split h = absurd (omega arith)
  Read-inside (suc n) (by ∷ bs) more s d over w l short on i split h =
      let r = called (by ∷ bs) w in
      elim (laws.inflate_flush (stream_of w) s d by bs more i (over, split)) [
        | inl (e, same, out) ↦
            Read-ended by bs more over w short on e
              (split ∙ ap (λ x. x ++ over) (same ∙ sym (append-nil (read (by ∷ bs) r))))
              (subst (λ x. Awaits w.app (x ++ over)) out h)
        | inr (e, (s', d', same, out, i', fewer)) ↦
            let (fed, h') =
              feeds r.output (d' ++ over) false (inside (by ∷ bs) w) (
                subst (Awaits w.app) (ap (λ x. x ++ over) out ∙ append_assoc r.output d' over) h) in
            let (fuel, w', t, x) =
              Read-inside n (unread (by ∷ bs) r) more s' d' over
                (record (inside (by ∷ bs) w) { app = feed r.output w.app }) (omega arith)
                (unread-IsShort (by ∷ bs) r short) refl i'
                (unread-rest (by ∷ bs) more s' over r (split ∙ ap (λ x. x ++ over) same)) h' in
            (
              suc fuel,
              w',
              transform-answer zlib fuel by bs cont w ok short on e
                  ∙ ap (transform (decompressor zlib) fuel (unread (by ∷ bs) r) cont) fed
                  ∙ t,
              x,
            )
      ]

  pub transform-Expects :
      (bs more : Bytes) (w : Coder Z A) → IsShort bs → Expects w (bs ++ more) → Read bs more w
  transform-Expects bs more w short (inl (s, d, over, on, i, split, h)) =
      Read-inside (length bs + length d) bs more s d over w (omega arith) short on i split h
  transform-Expects bs more w short (inr h) = Read-outside bs more w h

  pub read_all :
      (bss : List Bytes) (w : Coder Z A)
      → AllShort bss
      → Expects w (concat bss)
      → (w' : Coder Z A) × Transforms (decompressor zlib) cont bss w w' × Expects w' []
  read_all [] w short h = (w, no_more w, h)
  read_all (bs ∷ bss) w short h =
      let (fuel, w', e, h') = transform-Expects bs (concat bss) w short.0 h in
      let (w'', t, h'') = read_all bss w' short.1 h' in (w'', then fuel bs bss w w' w'' e t, h'')

  -- Nothing to come: the stream has ended.
  pub ended :
      (w : Coder Z A) → Expects w [] → (w.engaged ≡ false) × (w.stream ≡ none) × Awaits w.app []
  ended w (inl (s, d, over, on, i, split, h)) =
      absurd (laws.inflating_more (stream_of w) s d i (nil_left s over split))
  ended w (inr h) = h
