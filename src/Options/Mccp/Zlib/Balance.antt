-- ===== src/Options/Mccp/Zlib/Balance.antt =====
-- The streams that a codec over zlib (src/options/mccp/zlib) has set up and released, over any uses of
-- the codec whose own operations keep the balance.
use telnetpp.Prelude.{
  ℕ, zero, suc, ◌+◌, ◌≡◌, refl, sym, ap, subst, ◌∙◌, inl, inr, Bool, false, Bool-cases, List, [],
  ◌∷◌, Bytes, Option, none, some, arith,
}
use telnetpp.Options.Mccp.{
  Codec, Continuation, Outcome, returned, thrown, start, resume, transform, noting_end,
}
use telnetpp.Options.Mccp.Loop.{transform-on, transform-off}
use telnetpp.Options.Mccp.Zlib.{Coder, opened_for, destroy_if, destructor}

-- What is done with a codec, with the fuel for its loops.
pub data Use : Type 0 where
  starts : Use
  gives : ℕ → Bytes → Use
  finishes : ℕ → Use

module _ {Z : Type 0} where
  abbrev pub held : Option Z → ℕ
  held none = 0
  held (some z) = 1

  pub opened_for-held : (s : Option Z) (m n : ℕ) → m ≡ n + held s → opened_for s m ≡ n + 1
  opened_for-held none m n e = omega arith
  opened_for-held (some z) m n e = e

module _ {Z A : Type 0} where
  -- The object behind a call, which returned or threw.
  abbrev object : Option (Outcome (Coder Z A)) → Option (Coder Z A)
  object none = none
  object (some (returned w)) = some w
  object (some (thrown w)) = some w

  abbrev disengaged : Option (Coder Z A) → Option (Coder Z A)
  disengaged none = none
  disengaged (some w) = some (record w { engaged = false })

  module _ (c : Codec (Coder Z A)) (do_finish : ℕ → Coder Z A → Option (Coder Z A))
      (cont : Continuation (Coder Z A)) where
    abbrev used : Use → Coder Z A → Option (Coder Z A)
    used starts w = some (start c w)
    used (gives fuel bs) w = object (transform c fuel bs cont w)
    used (finishes fuel) w = disengaged (do_finish fuel w)

    -- One use after the other; `none` means that the fuel of one ran out.
    abbrev pub used_all : List Use → Coder Z A → Option (Coder Z A)
    used_all [] w = some w
    used_all (u ∷ us) w = elim (used u w) [ none ↦ none | some w' ↦ used_all us w' ]

  -- What is open is the stream that the object holds.
  abbrev pub IsBalanced : Coder Z A → Type 0
  IsBalanced w = w.opened ≡ w.closed + held w.stream

  abbrev pub AllBalanced : Option (Coder Z A) → Type 0
  AllBalanced none = Unit
  AllBalanced (some w) = IsBalanced w

  -- A continuation that does not touch the codec's stream.
  abbrev pub LeavesStream : Continuation (Coder Z A) → Type 0
  LeavesStream cont =
      (bs : Bytes) (ended : Bool) (w : Coder Z A)
      → ((cont bs ended w).stream ≡ w.stream)
        × ((cont bs ended w).opened ≡ w.opened)
        × ((cont bs ended w).closed ≡ w.closed)

  pub continued-IsBalanced :
      (cont : Continuation (Coder Z A)) (bs : Bytes) (ended : Bool) (w : Coder Z A)
      → LeavesStream cont
      → IsBalanced w
      → IsBalanced (cont bs ended w)
  continued-IsBalanced cont bs ended w l b =
      let (same, opened, closed) = l bs ended w in
      opened
      ∙ b
      ∙ ap (λ n. n + held w.stream) (sym closed)
      ∙ ap (λ s. (cont bs ended w).closed + held s) (sym same)

  pub destroy_if-IsBalanced :
      (s : Option Z) (w : Coder Z A) → w.stream ≡ s → IsBalanced w → IsBalanced (destroy_if s w)
  destroy_if-IsBalanced none w e b = b
  destroy_if-IsBalanced (some z) w e b = omega (arith, b ∙ ap (λ s. w.closed + held s) e)

  -- Nothing is open when the object is gone.
  abbrev pub AllClosed : Option (Coder Z A) → Type 0
  AllClosed none = Unit
  AllClosed (some w) = (destructor w).opened ≡ (destructor w).closed

  destructor-closed :
      (s : Option Z) (w : Coder Z A)
      → w.stream ≡ s
      → IsBalanced w
      → (destroy_if s w).opened ≡ (destroy_if s w).closed
  destructor-closed none w e b = omega (arith, b ∙ ap (λ s. w.closed + held s) e)
  destructor-closed (some z) w e b = omega (arith, b ∙ ap (λ s. w.closed + held s) e)

  pub AllBalanced-AllClosed : (o : Option (Coder Z A)) → AllBalanced o → AllClosed o
  AllBalanced-AllClosed none b = tt
  AllBalanced-AllClosed (some w) b = destructor-closed w.stream w refl b

  module _ (c : Codec (Coder Z A)) (do_finish : ℕ → Coder Z A → Option (Coder Z A))
      (cont : Continuation (Coder Z A)) (leaves : LeavesStream cont)
      (chunk : (by : ℕ) (bs : Bytes) (w : Coder Z A)
        → IsBalanced w
        → IsBalanced (c.transform_chunk (by ∷ bs) (noting_end c cont) w).1)
      (end : (fuel : ℕ) (w : Coder Z A) → IsBalanced w → AllBalanced (do_finish fuel w))
      (begin : (w : Coder Z A) → IsBalanced w → IsBalanced (start c w)) where
    resume-AllBalanced :
        (rest : Bytes → Coder Z A → Option (Outcome (Coder Z A))) (x : Option Bytes × Coder Z A)
        → IsBalanced x.1
        → ((left : Bytes) (w : Coder Z A) → IsBalanced w → AllBalanced (object (rest left w)))
        → AllBalanced (object (resume c rest x))
    resume-AllBalanced rest (none, w) b h = b
    resume-AllBalanced rest (some left, w) b h = h left w b

    transform-AllBalanced :
        (fuel : ℕ) (bs : Bytes) (w : Coder Z A)
        → IsBalanced w
        → AllBalanced (object (transform c fuel bs cont w))
    unfolding transform
    transform-AllBalanced fuel [] w b = b
    transform-AllBalanced zero (by ∷ bs) w b = tt
    transform-AllBalanced (suc fuel) (by ∷ bs) w b = elim (Bool-cases (c.engaged w)) [
      | inl on ↦
          subst (λ o. AllBalanced (object o)) (sym (transform-on c by bs fuel cont w on))
            (resume-AllBalanced (λ left. transform c fuel left cont) _ (chunk by bs w b)
              (λ left w' b'. transform-AllBalanced fuel left w' b'))
      | inr off ↦
          subst (λ o. AllBalanced (object o)) (sym (transform-off c by bs fuel cont w off))
            (transform-AllBalanced fuel bs (cont (by ∷ []) false w)
              (continued-IsBalanced cont (by ∷ []) false w leaves b))
    ]

    disengaged-AllBalanced : (o : Option (Coder Z A)) → AllBalanced o → AllBalanced (disengaged o)
    disengaged-AllBalanced none b = tt
    disengaged-AllBalanced (some w) b = b

    used-AllBalanced :
        (u : Use) (w : Coder Z A) → IsBalanced w → AllBalanced (used c do_finish cont u w)
    used-AllBalanced starts w b = begin w b
    used-AllBalanced (gives fuel bs) w b = transform-AllBalanced fuel bs w b
    used-AllBalanced (finishes fuel) w b = disengaged-AllBalanced (do_finish fuel w) (end fuel w b)

    continue_all-AllBalanced :
        (o : Option (Coder Z A)) (rest : Coder Z A → Option (Coder Z A))
        → AllBalanced o
        → ((w : Coder Z A) → IsBalanced w → AllBalanced (rest w))
        → AllBalanced (elim o [ none ↦ none | some w ↦ rest w ])
    continue_all-AllBalanced none rest b h = tt
    continue_all-AllBalanced (some w) rest b h = h w b

    pub used_all-AllBalanced :
        (us : List Use) (w : Coder Z A)
        → IsBalanced w
        → AllBalanced (used_all c do_finish cont us w)
    used_all-AllBalanced [] w b = b
    used_all-AllBalanced (u ∷ us) w b =
        continue_all-AllBalanced (used c do_finish cont u w) (used_all c do_finish cont us)
          (used-AllBalanced u w b) (λ w' b'. used_all-AllBalanced us w' b')
