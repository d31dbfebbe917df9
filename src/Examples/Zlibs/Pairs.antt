-- ===== src/Examples/Zlibs/Pairs.antt =====
-- A small library in the place of zlib, with the laws of src/options/mccp/zlib's codecs: each byte is
-- written behind a 1, and a 0 ends the stream.
use telnetpp.Prelude.{
  ℕ, suc, ◌+◌, ◌-◌, ◌<◌, ◌≡◌, ◌≢◌, refl, sym, ap, ◌∙◌, ◌⊎◌, inl, inr, Bool, true, false, [], ◌∷◌,
  ◌++◌, append-nil, Bytes, length, take, drop, ◌==◌, if◌then◌else◌, arith,
}
use telnetpp.Options.Mccp.Zlib.{
  Flush, sync_flush, finish, ok, stream_end, data_error, Called, Zlib, unread,
}
use telnetpp.Options.Mccp.Zlib.Laws.{Laws, read}

abbrev pairs : Bytes → Bytes
pairs [] = []
pairs (by ∷ bs) = 1 ∷ by ∷ pairs bs

-- One byte at a time. The end takes two calls; the state says whether the first has been.
abbrev pairs_deflate : Flush → Bytes → ℕ → Bool → Called Bool
pairs_deflate sync_flush [] room z = record { response = ok; avail_in = 0; output = []; stream = z }
pairs_deflate sync_flush (by ∷ bs) room z = record {
  response = ok;
  avail_in = length bs;
  output = 1 ∷ by ∷ [];
  stream = z;
}
pairs_deflate finish bs room false = record {
  response = ok;
  avail_in = 0;
  output = [];
  stream = true;
}
pairs_deflate finish bs room true = record {
  response = stream_end;
  avail_in = 0;
  output = 0 ∷ [];
  stream = true;
}

-- The state says whether a 1 has been read last.
abbrev pairs_inflate : Flush → Bytes → ℕ → Bool → Called Bool
pairs_inflate flush [] room z = record { response = ok; avail_in = 0; output = []; stream = z }
pairs_inflate flush (by ∷ bs) room true = record {
  response = ok;
  avail_in = length bs;
  output = by ∷ [];
  stream = false;
}
pairs_inflate flush (by ∷ bs) room false =
    if by == 0
    then record { response = stream_end; avail_in = length bs; output = []; stream = false }
    else if by == 1
    then record { response = ok; avail_in = length bs; output = []; stream = true }
    else record { response = data_error; avail_in = length bs; output = []; stream = false }

abbrev pub pairs_zlib : Zlib Bool
pairs_zlib = record {
  deflate_init = false;
  deflate = pairs_deflate;
  inflate_init = false;
  inflate = pairs_inflate;
}

abbrev IsDeflating : Bool → Bytes → Bytes → Type 0
IsDeflating false d s = s ≡ pairs d
IsDeflating true d s = ⊥

abbrev IsFinishing : Bool → Bytes → Bytes → Type 0
IsFinishing z d s = s ≡ pairs d

abbrev IsInflating : Bool → Bytes → Bytes → Type 0
IsInflating false s d = s ≡ pairs d ++ 0 ∷ []
IsInflating true s [] = ⊥
IsInflating true s (by ∷ d) = s ≡ by ∷ (pairs d ++ 0 ∷ [])

abbrev left_to_give : Bool → ℕ
left_to_give false = 1
left_to_give true = 0

one : (n : ℕ) → suc n - n ≡ 1
one n = omega arith

take_one : (by : ℕ) (bs : Bytes) → take (suc (length bs) - length bs) (by ∷ bs) ≡ by ∷ []
take_one by bs = rw (one (length bs)) refl

drop_one : (by : ℕ) (bs : Bytes) → drop (suc (length bs) - length bs) (by ∷ bs) ≡ bs
drop_one by bs = rw (one (length bs)) refl

length-drop_one :
    (by : ℕ) (bs : Bytes) → length (drop (suc (length bs) - length bs) (by ∷ bs)) ≡ length bs
length-drop_one by bs = ap length (drop_one by bs)

pairs-append : (d e : Bytes) → pairs (d ++ e) ≡ pairs d ++ pairs e
pairs-append [] e = refl
pairs-append (by ∷ d) e = ap (λ x. 1 ∷ by ∷ x) (pairs-append d e)

pub deflate_flush_law :
    (z : Bool) (d s : Bytes) (by : ℕ) (bs : Bytes)
    → IsDeflating z d s
    → let r = pairs_deflate sync_flush (by ∷ bs) 1024 z in
      IsDeflating r.stream (d ++ read (by ∷ bs) r) (s ++ r.output)
      × ((length (unread (by ∷ bs) r) < length (by ∷ bs))
          ⊎ (left_to_give r.stream < left_to_give z))
deflate_flush_law false d s by bs h = (
  ap (λ x. x ++ 1 ∷ by ∷ []) h
      ∙ sym (pairs-append d (by ∷ []))
      ∙ ap (λ x. pairs (d ++ x)) (sym (take_one by bs)),
  inl (omega (arith, length-drop_one by bs)),
)
deflate_flush_law true d s by bs h = absurd h

pub deflate_finish_law :
    (z : Bool) (d s : Bytes)
    → IsFinishing z d s
    → let r = pairs_deflate finish [] 1024 z in
      ((r.response ≡ stream_end) × (s ++ r.output ≡ pairs d ++ 0 ∷ []))
      ⊎ ((r.response ≡ ok)
          × IsFinishing r.stream d (s ++ r.output)
          × (left_to_give r.stream < left_to_give z))
deflate_finish_law false d s h = inr (refl, append-nil s ∙ h, omega arith)
deflate_finish_law true d s h = inl (refl, ap (λ x. x ++ 0 ∷ []) h)

pub can_finish_law : (z : Bool) (d s : Bytes) → IsDeflating z d s → IsFinishing z d s
can_finish_law false d s h = h
can_finish_law true d s h = absurd h

pub inflating_more_law : (z : Bool) (s d : Bytes) → IsInflating z s d → s ≢ []
inflating_more_law false s [] h = λ e. cc (h, e)
inflating_more_law false s (x ∷ d) h = λ e. cc (h, e)
inflating_more_law true s [] h = absurd h
inflating_more_law true s (x ∷ d) h = λ e. cc (h, e)

-- What one call of `pairs_inflate` does with a stream that has still to take `s` and to give `d`.
abbrev Answers : Bytes → Bytes → ℕ → Bytes → Called Bool → Type 0
Answers s d by bs r =
    ((r.response ≡ stream_end) × (s ≡ read (by ∷ bs) r) × (d ≡ r.output))
    ⊎ ((r.response ≡ ok)
        × ((s' : Bytes) × (d' : Bytes) × (s ≡ read (by ∷ bs) r ++ s')
            × (d ≡ r.output ++ d')
            × IsInflating r.stream s' d'
            × (length (unread (by ∷ bs) r) + length d' < length (by ∷ bs) + length d)))

first_byte :
    (x by : ℕ) (s xs over more bs : Bytes) → s ≡ x ∷ xs → (by ∷ bs) ++ more ≡ s ++ over → by ≡ x
first_byte x by s xs over more bs h e = ground arith

Answers-end :
    (s : Bytes) (by : ℕ) (bs : Bytes)
    → s ≡ 0 ∷ []
    → by ≡ 0
    → Answers s [] by bs (pairs_inflate sync_flush (by ∷ bs) 1024 false)
Answers-end s by bs h e = rw e (inl (refl, h ∙ sym (take_one 0 bs), refl))

Answers-one :
    (s d xs : Bytes) (by x : ℕ) (bs : Bytes)
    → s ≡ 1 ∷ xs
    → IsInflating true xs (x ∷ d)
    → by ≡ 1
    → Answers s (x ∷ d) by bs (pairs_inflate sync_flush (by ∷ bs) 1024 false)
Answers-one s d xs by x bs h i e = rw e (
    inr (
      refl,
      (
        xs,
        x ∷ d,
        h ∙ ap (λ y. y ++ xs) (sym (take_one 1 bs)),
        refl,
        i,
        omega (arith, length-drop_one 1 bs),
      ),
    ))

Answers-byte :
    (s d : Bytes) (by x : ℕ) (bs : Bytes)
    → s ≡ x ∷ (pairs d ++ 0 ∷ [])
    → by ≡ x
    → Answers s (x ∷ d) by bs (pairs_inflate sync_flush (by ∷ bs) 1024 true)
Answers-byte s d by x bs h e = inr (
  refl,
  (
    pairs d ++ 0 ∷ [],
    d,
    h
        ∙ ap (λ y. y ∷ (pairs d ++ 0 ∷ [])) (sym e)
        ∙ ap (λ y. y ++ (pairs d ++ 0 ∷ [])) (sym (take_one by bs)),
    ap (λ y. y ∷ d) (sym e),
    refl,
    omega (arith, length-drop_one by bs),
  ),
)

pub inflate_flush_law :
    (z : Bool) (s d : Bytes) (by : ℕ) (bs more : Bytes)
    → IsInflating z s d
    → (over : Bytes) × ((by ∷ bs) ++ more ≡ s ++ over)
    → Answers s d by bs (pairs_inflate sync_flush (by ∷ bs) 1024 z)
inflate_flush_law false s [] by bs more h (over, e) =
    Answers-end s by bs h (first_byte 0 by s [] over more bs h e)
inflate_flush_law false s (x ∷ d) by bs more h (over, e) =
    Answers-one s d (x ∷ (pairs d ++ 0 ∷ [])) by x bs h refl
      (first_byte 1 by s (x ∷ (pairs d ++ 0 ∷ [])) over more bs h e)
inflate_flush_law true s [] by bs more h (over, e) = absurd h
inflate_flush_law true s (x ∷ d) by bs more h (over, e) =
    Answers-byte s d by x bs h (first_byte x by s (pairs d ++ 0 ∷ []) over more bs h e)

unfoldable pub pairs_laws : Laws pairs_zlib
pairs_laws = record {
  Encodes = λ s d. s ≡ pairs d ++ 0 ∷ [];
  Deflating = IsDeflating;
  Finishing = IsFinishing;
  Inflating = IsInflating;
  pending = left_to_give;
  deflating_new = refl;
  can_finish = can_finish_law;
  deflate_flush = deflate_flush_law;
  deflate_finish = deflate_finish_law;
  inflating_new = λ s d h. h;
  inflating_more = inflating_more_law;
  inflate_flush = inflate_flush_law;
}
