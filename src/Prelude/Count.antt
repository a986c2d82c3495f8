-- ===== src/Prelude/Count.antt =====
-- How many of a list satisfy a test.
use Prim.Native.Nat.{ℕ, ◌+◌}
use mathlib.Core.Path.{◌≡◌, refl, ap₂}
use mathlib.Core.Bool.{Bool}
use mathlib.Core.List.{List, [], ◌∷◌, ◌++◌}
use native.Mathlib.Omega.{arith}
use deconz.Prelude.Tests.{if◌then◌else◌}

abbrev pub one : Bool → ℕ
one b = if b then 1 else 0

module _ {ℓ} {A : Type ℓ} where
  abbrev pub count_of : (A → Bool) → List A → ℕ
  count_of p [] = 0
  count_of p (x ∷ xs) = one (p x) + count_of p xs

  pub count_of-append :
      (p : A → Bool) (xs ys : List A) → count_of p (xs ++ ys) ≡ count_of p xs + count_of p ys
  count_of-append p [] ys = omega arith
  count_of-append p (x ∷ xs) ys = omega (arith, count_of-append p xs ys)

  -- Two tests that agree.
  pub count_of_same :
      (p q : A → Bool) (xs : List A) → ((x : A) → p x ≡ q x) → count_of p xs ≡ count_of q xs
  count_of_same p q [] same = refl
  count_of_same p q (x ∷ xs) same = ap₂ (λ b n. one b + n) (same x) (count_of_same p q xs same)
