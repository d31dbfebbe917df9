-- ===== src/Rot13/Owners.antt =====
-- The owners of the server's connections (examples/rot13server/src/rot13_server.cpp).
use telnetpp.Prelude.{
  ℕ, ◌≡◌, refl, Bool, false, ◌&&◌, ◌||◌, not, List, [], ◌∷◌, ◌++◌, Option, none, some, ◌==◌,
  if◌then◌else◌, arith, Bool-cases, inl, inr, ==_iff,
}
use telnetpp.Rot13.Server.{connection_death_handler, reset_dead, erase_reset}

abbrev pub owns : ℕ → List (Option ℕ) → Bool
owns n [] = false
owns n (none ∷ owners) = owns n owners
owns n (some m ∷ owners) = m == n || owns n owners

-- A store with one address changed.
abbrev pub put : {X : Type 0} → ℕ → X → (ℕ → X) → ℕ → X
put n x f m = if m == n then x else f m

pub put-same : {X : Type 0} → (n : ℕ) (x : X) (f : ℕ → X) → put n x f n ≡ x
put-same n x f = rw ((==_iff n n).1 refl) refl

pub owns-append : (n : ℕ) (xs ys : List (Option ℕ)) → owns n (xs ++ ys) ≡ (owns n xs || owns n ys)
owns-append n [] ys = refl
owns-append n (none ∷ xs) ys = owns-append n xs ys
owns-append n (some m ∷ xs) ys = ground (arith, owns-append n xs ys)

pub owns-death :
    (dead n : ℕ) (owners : List (Option ℕ))
    → owns n (connection_death_handler dead owners) ≡ (not (dead == n) && owns n owners)
unfolding connection_death_handler reset_dead erase_reset
owns-death dead n [] = ground arith
owns-death dead n (none ∷ owners) = owns-death dead n owners
owns-death dead n (some m ∷ owners) = elim (Bool-cases (m == dead)) [
  | inl e ↦ rw e (ground (arith, owns-death dead n owners, (==_iff m dead).0 e))
  | inr e ↦ rw e (ground (arith, owns-death dead n owners))
]
