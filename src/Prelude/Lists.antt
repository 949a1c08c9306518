-- ===== src/Prelude/Lists.antt =====
-- Lists over the native numbers: lengths, and the predicates by recursion that the proofs use.
use Prim.Native.Nat.{ℕ, zero, suc, ◌+◌, ◌-◌, ◌≤◌}
use mathlib.Core.Path.{◌≡◌, refl, ap}
use mathlib.Core.List.{List, [], ◌∷◌, ◌++◌}
use native.Mathlib.Omega.{arith}

module _ {ℓ} {A : Type ℓ} where
  abbrev pub length : List A → ℕ
  length [] = 0
  length (x ∷ xs) = suc (length xs)

  -- A slice `l[:n]` and a slice `l[n:]`.
  abbrev pub take : ℕ → List A → List A
  take zero l = []
  take (suc n) [] = []
  take (suc n) (x ∷ l) = x ∷ take n l

  abbrev pub drop : ℕ → List A → List A
  drop zero l = l
  drop (suc n) [] = []
  drop (suc n) (x ∷ l) = drop n l

  pub length-append : (xs ys : List A) → length (xs ++ ys) ≡ length xs + length ys
  length-append [] ys = omega arith
  length-append (x ∷ xs) ys = omega (arith, length-append xs ys)

  pub length-drop : (n : ℕ) (l : List A) → length (drop n l) ≡ length l - n
  length-drop zero l = omega arith
  length-drop (suc n) [] = omega arith
  length-drop (suc n) (x ∷ l) = omega (arith, length-drop n l)

  pub length-take_le : (n : ℕ) (l : List A) → n ≤ length l → length (take n l) ≡ n
  length-take_le zero l h = refl
  length-take_le (suc n) [] h = absurd (omega arith)
  length-take_le (suc n) (x ∷ l) h = omega (arith, length-take_le n l (omega arith))

  pub take-append-drop : (n : ℕ) (l : List A) → take n l ++ drop n l ≡ l
  take-append-drop zero l = refl
  take-append-drop (suc n) [] = refl
  take-append-drop (suc n) (x ∷ l) = ap (λ r. x ∷ r) (take-append-drop n l)

  pub take-append : (a b : List A) → take (length a) (a ++ b) ≡ a
  take-append [] b = refl
  take-append (x ∷ a) b = ap (λ t. x ∷ t) (take-append a b)

  pub drop-append : (a b : List A) → drop (length a) (a ++ b) ≡ b
  drop-append [] b = refl
  drop-append (x ∷ a) b = drop-append a b

  abbrev pub All {κ} : (A → Type κ) → List A → Type κ
  All P [] = Unit
  All P (x ∷ xs) = P x × All P xs
