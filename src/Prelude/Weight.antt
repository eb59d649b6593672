-- ===== src/Prelude/Weight.antt =====
-- The sum of a measure over a list, which no rearrangement changes.
use Prim.Native.Nat.{ℕ, ◌+◌}
use mathlib.Core.Path.{◌≡◌, refl, ◌∙◌}
use mathlib.Core.Logic.{∥∥₁_elim}
use mathlib.Core.List.{List, [], ◌∷◌, Perm, Permᴰ}
use native.Mathlib.Nat.{ℕ_set}
use native.Mathlib.Omega.{arith}
use meshbeacon_uplink.Prelude.Lists.{length}

module _ {ℓ} {A : Type ℓ} where
  abbrev pub weight : (A → ℕ) → List A → ℕ
  weight f [] = 0
  weight f (x ∷ xs) = f x + weight f xs

  weight-permᴰ : (f : A → ℕ) {xs ys : List A} → Permᴰ xs ys → weight f xs ≡ weight f ys
  weight-permᴰ f Permᴰ.nil = refl
  weight-permᴰ f (Permᴰ.cons e p) = ground (arith, weight-permᴰ f p)
  weight-permᴰ f (Permᴰ.swap e d) = ground arith
  weight-permᴰ f (Permᴰ.trans p q) = weight-permᴰ f p ∙ weight-permᴰ f q

  pub weight-perm : (f : A → ℕ) {xs ys : List A} → Perm xs ys → weight f xs ≡ weight f ys
  weight-perm f p = ∥∥₁_elim p (ℕ_set _ _) (weight-permᴰ f)

  length-weight : (xs : List A) → length xs ≡ weight (λ x. 1) xs
  length-weight [] = refl
  length-weight (x ∷ xs) = omega (arith, length-weight xs)

  pub length-perm : {xs ys : List A} → Perm xs ys → length xs ≡ length ys
  length-perm {xs} {ys} p =
      omega (arith, length-weight xs, length-weight ys, weight-perm (λ x. 1) p)
