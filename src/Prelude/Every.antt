-- ===== src/Prelude/Every.antt =====
-- `All` against the library's `Mem`, `Perm` and `Pairwise`.
use mathlib.Core.Logic.{∥∥₁_elim}
use mathlib.Core.Logic.Or
use mathlib.Core.HLevel.{×_prop}
use mathlib.Core.Path.{sym, subst}
use mathlib.Core.List.{
  List, [], ◌∷◌, Perm, Permᴰ, Mem, mem-cons, not-mem-nil, Pairwise, Pairwise-cons,
}
use meshbeacon_uplink.Prelude.Lists.{All}

module _ {ℓ κ} {A : Type ℓ} (P : A → Type κ) (P_prop : (a : A) → IsProp (P a)) where
  All-prop : (xs : List A) → IsProp (All P xs)
  All-prop [] = hlevel
  All-prop (x ∷ xs) = ×_prop (P_prop x) (All-prop xs)

  All-permᴰ : {xs ys : List A} → Permᴰ xs ys → All P xs → All P ys
  All-permᴰ Permᴰ.nil h = h
  All-permᴰ (Permᴰ.cons e p) h = (subst P e h.0, All-permᴰ p h.1)
  All-permᴰ (Permᴰ.swap e d) h = (subst P d h.1.0, (subst P e h.0, h.1.1))
  All-permᴰ (Permᴰ.trans p q) h = All-permᴰ q (All-permᴰ p h)

  pub All-perm : {xs ys : List A} → Perm xs ys → All P xs → All P ys
  All-perm {ys} p h = ∥∥₁_elim p (All-prop ys) (λ q. All-permᴰ q h)

  pub All-mem : (xs : List A) (a : A) → All P xs → Mem a xs → P a
  All-mem [] a h m = absurd (not-mem-nil m)
  All-mem (x ∷ xs) a h m =
      Or.elim (P_prop a) (mem-cons.0 m) (λ e. subst P (sym e) h.0) (All-mem xs a h.1)

module _ {ℓ κ} {A : Type ℓ} (R : A → A → Type κ) (R_prop : (a b : A) → IsProp (R a b)) where
  pub Pairwise-of_All : (a : A) (xs : List A) → All (R a) xs → Pairwise R xs → Pairwise R (a ∷ xs)
  Pairwise-of_All a xs h p = Pairwise-cons.1 ((λ b m. All-mem (R a) (R_prop a) xs b h m), p)
