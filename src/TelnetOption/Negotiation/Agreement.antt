-- ===== src/TelnetOption/Negotiation/Agreement.antt =====
-- The negotiation of one option (include/telnetpp/option.hpp), over any steps of the two sides.
use telnetpp.Prelude.{ℕ, suc, ◌+◌, ◌≤◌, ◌≡◌, refl, ◌⊎◌, inl, inr, List, [], ◌∷◌, length, arith}
use telnetpp.TelnetOption.Negotiation.{Pair, Delivers, at_server_side, at_client_side, Reachable}
use telnetpp.TelnetOption.Negotiation.Configurations.{
  IsExpected, Expected-in_flight, cost, Expected-cost, IsQuiet, Agrees, Expected-Agrees,
  Delivers-cost, Delivers-IsExpected, Reachable-IsExpected,
}

module _ (code : ℕ) where
  -- Requests arrive in the order in which they were written, and slots change no option. The sides
  -- never have more than two requests on their way between them.
  Reachable-in_flight : {x : Pair} → Reachable code x → length x.to_client + length x.to_server ≤ 2
  Reachable-in_flight {x} r =
      Expected-in_flight x.server x.client x.to_client x.to_server (Reachable-IsExpected code r)

  -- Arrivals of requests, one after the other, counted.
  pub data Arrivals (x : Pair) : ℕ → Pair → Type 0 where
    none_yet : Arrivals x 0 x
    one_more : {n : ℕ} {y z : Pair} → Arrivals x n y → Delivers code y z → Arrivals x (suc n) z

  Arrivals-cost :
      {x y : Pair} {n : ℕ} → Arrivals x n y → IsExpected x → IsExpected y × (n + cost y ≤ cost x)
  Arrivals-cost none_yet h = (h, omega arith)
  Arrivals-cost (one_more s d) h =
      let before = Arrivals-cost s h in
      (Delivers-IsExpected code d before.0, omega (arith, before.1, Delivers-cost code d before.0))

  -- While anything is on its way, something can arrive.
  Delivers-progress :
      (x : Pair) (a b : List ℕ)
      → x.to_client ≡ a
      → x.to_server ≡ b
      → IsQuiet x ⊎ ((y : Pair) × Delivers code x y)
  Delivers-progress x [] [] e f = inl (e, f)
  Delivers-progress x (neg ∷ rest) b e f = inr (_, at_client_side x neg rest e)
  Delivers-progress x [] (neg ∷ rest) e f = inr (_, at_server_side x neg rest f)

  -- Requests arrive in the order in which they were written, and slots change no option. Whatever
  -- the applications on both sides have asked for and whatever is on its way, once they stop asking
  -- at most three more requests arrive, on whichever side first; as long as any is on its way, one
  -- can arrive, and when none is, both sides are active or both are inactive.
  Arrivals-settle :
      {x y : Pair} {n : ℕ}
      → Reachable code x
      → Arrivals x n y
      → (n ≤ 3) × ((IsQuiet y × Agrees y) ⊎ ((z : Pair) × Delivers code y z))
  Arrivals-settle {x} {y} r s =
      let now = Reachable-IsExpected code r in
      let later = Arrivals-cost s now in
      (
        omega (arith, later.1, Expected-cost x.server x.client x.to_client x.to_server now),
        settled (Delivers-progress y y.to_client y.to_server refl refl) later.0,
      )
    where
      settled :
          IsQuiet y ⊎ ((z : Pair) × Delivers code y z)
          → IsExpected y
          → (IsQuiet y × Agrees y) ⊎ ((z : Pair) × Delivers code y z)
      settled (inl q) h =
          inl (q, Expected-Agrees y.server y.client y.to_client y.to_server h q.0 q.1)
      settled (inr d) h = inr d
