-- ===== src/Generator/Escape.antt =====
-- The escaping loop of include/telnetpp/detail/generate_helper.hpp, and its specification.
use telnetpp.Prelude.{
  ◌≡◌, refl, [], ◌∷◌, ◌++◌, ◌==◌, ==_iff, if◌then◌else◌, Bytes, concat, append_assoc, Bool-cases,
  inl, inr, arith,
}
use telnetpp.Core.{iac}
use telnetpp.Generator.{escape_loop, generate_escaped}

abbrev pub escaped : Bytes → Bytes
escaped [] = []
escaped (by ∷ bs) = if by == iac then iac ∷ iac ∷ escaped bs else by ∷ escaped bs

pub escaped-append : (a b : Bytes) → escaped (a ++ b) ≡ escaped a ++ escaped b
escaped-append [] b = refl
escaped-append (by ∷ a) b = ground (arith, escaped-append a b)

escape_loop-escaped : (pending bs : Bytes) → concat (escape_loop pending bs) ≡ pending ++ escaped bs
unfolding escape_loop
escape_loop-escaped [] [] = refl
escape_loop-escaped (x ∷ pending) [] = refl
escape_loop-escaped pending (by ∷ bs) = elim (Bool-cases (by == iac)) [
  | inl e ↦ rw e (simp (escape_loop-escaped (by ∷ []) bs, append_assoc) (rw ((==_iff by iac).0 e)))
  | inr e ↦ rw e (simp (escape_loop-escaped (pending ++ by ∷ []) bs, append_assoc))
]

-- The spans that `generate_escaped` hands on are, joined, the data with each 0xFF byte doubled.
pub generate_escaped-escaped : (bs : Bytes) → concat (generate_escaped bs) ≡ escaped bs
unfolding generate_escaped
generate_escaped-escaped bs = escape_loop-escaped [] bs
