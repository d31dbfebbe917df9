-- ===== src/Options/Mccp/Loop.antt =====
-- The loop of `codec::operator()` (src/options/mccp/codec.cpp), and the point where compression
-- starts.
use telnetpp.Prelude.{
  ℕ, suc, ◌+◌, ◌≡◌, ap, ◌∙◌, true, false, [], ◌∷◌, ◌++◌, Bytes, some, length, arith,
}
use telnetpp.Options.Mccp.{Continuation, Codec, round, resume, transform, noting_end}

module _ {W : Type 0} (c : Codec W) where
  -- The continuation called with each byte alone.
  abbrev pub passed : Continuation W → Bytes → W → W
  passed cont [] w = w
  passed cont (by ∷ bs) w = passed cont bs (cont (by ∷ []) false w)

  -- Compression is off in front of each of these bytes.
  abbrev pub IsOff : Continuation W → Bytes → W → Type 0
  IsOff cont [] w = Unit
  IsOff cont (by ∷ bs) w = (c.engaged w ≡ false) × IsOff cont bs (cont (by ∷ []) false w)

  plus_zero : (n : ℕ) → 0 + n ≡ n
  plus_zero n = omega arith

  plus_suc : (m n : ℕ) → suc m + n ≡ suc (m + n)
  plus_suc m n = omega arith

  round-off :
      (by : ℕ) (bs : Bytes) (cont : Continuation W) (w : W)
      → c.engaged w ≡ false
      → round c cont by bs w ≡ (some bs, cont (by ∷ []) false w)
  unfolding round
  round-off by bs cont w h = rw h

  round-on :
      (by : ℕ) (bs : Bytes) (cont : Continuation W) (w : W)
      → c.engaged w ≡ true
      → round c cont by bs w ≡ c.transform_chunk (by ∷ bs) (noting_end c cont) w
  unfolding round
  round-on by bs cont w h = rw h

  pub transform-off :
      (by : ℕ) (bs : Bytes) (fuel : ℕ) (cont : Continuation W) (w : W)
      → c.engaged w ≡ false
      → transform c (suc fuel) (by ∷ bs) cont w ≡ transform c fuel bs cont (cont (by ∷ []) false w)
  unfolding transform
  transform-off by bs fuel cont w h =
      ap (resume c (λ left. transform c fuel left cont)) (round-off by bs cont w h)

  pub transform-on :
      (by : ℕ) (bs : Bytes) (fuel : ℕ) (cont : Continuation W) (w : W)
      → c.engaged w ≡ true
      → transform c (suc fuel) (by ∷ bs) cont w
        ≡ resume c
            (λ left. transform c fuel left cont)
            (c.transform_chunk (by ∷ bs) (noting_end c cont) w)
  unfolding transform
  transform-on by bs fuel cont w h =
      ap (resume c (λ left. transform c fuel left cont)) (round-on by bs cont w h)

  transform-passed :
      (bs rest : Bytes) (fuel : ℕ) (cont : Continuation W) (w : W)
      → IsOff cont bs w
      → transform c (length bs + fuel) (bs ++ rest) cont w
        ≡ transform c fuel rest cont (passed cont bs w)
  transform-passed [] rest fuel cont w h = ap (λ n. transform c n rest cont w) (plus_zero fuel)
  transform-passed (by ∷ bs) rest fuel cont w h =
      ap (λ n. transform c n (by ∷ (bs ++ rest)) cont w) (plus_suc (length bs) fuel)
      ∙ transform-off by (bs ++ rest) (length bs + fuel) cont w h.0
      ∙ transform-passed bs rest fuel cont (cont (by ∷ []) false w) h.1

  -- Where compression is off in front of each byte of `bs` and on behind them, the continuation is
  -- called with each of these bytes alone, in order, and the codec then gets all that follows them.
  transform-append :
      (bs : Bytes) (by : ℕ) (rest : Bytes) (fuel : ℕ) (cont : Continuation W) (w : W)
      → IsOff cont bs w
      → c.engaged (passed cont bs w) ≡ true
      → transform c (length bs + suc fuel) (bs ++ by ∷ rest) cont w
        ≡ resume c
            (λ left. transform c fuel left cont)
            (c.transform_chunk (by ∷ rest) (noting_end c cont) (passed cont bs w))
  transform-append bs by rest fuel cont w off on =
      transform-passed bs (by ∷ rest) (suc fuel) cont w off
      ∙ transform-on by rest fuel cont (passed cont bs w) on
