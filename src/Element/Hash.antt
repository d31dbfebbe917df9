-- ===== src/Element/Hash.antt =====
-- The hash of a negotiation (include/telnetpp/detail/hash.hpp, include/telnetpp/negotiation.hpp), by
-- which the negotiation router finds its handlers. The hash of a byte is that of the standard
-- library, a parameter; `std::size_t` has 64 bits.
use Prim.Native.Nat.{bit_xor}
use telnetpp.Prelude.{ℕ, ◌+◌, ◌*◌, ◌/◌, ◌%◌, ◌^◌, [], ◌∷◌, Bytes}
use telnetpp.Element.{Negotiation}

module _ (hasher : ℕ → ℕ) where
  -- What is combined with the seed for one field.
  unfoldable pub mixed : ℕ → ℕ → ℕ
  mixed seed field = (hasher field + 0x9E3779B9 + seed * 2 ^ 6 + seed / 2 ^ 2) % 2 ^ 64

  -- The fields one after the other; all are bytes here.
  unfoldable pub hash_combine : ℕ → Bytes → ℕ
  unfolding mixed
  hash_combine seed [] = seed
  hash_combine seed (field ∷ fields) = hash_combine (bit_xor seed (mixed seed field)) fields

  -- `std::hash<negotiation>`.
  unfoldable pub negotiation_hash : Negotiation → ℕ
  unfolding hash_combine
  negotiation_hash n = hash_combine 0 (n.request ∷ n.option_code ∷ [])
