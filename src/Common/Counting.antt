-- ===== src/Common/Counting.antt =====
-- Sums over a list, and how often a test holds on it.
use Prim.Native.Nat.{ℕ, ◌+◌}
use native.Mathlib.Nat.{ℕ_set}
use mathlib.Core.Path.{◌≡◌, refl, ap, ◌∙◌}
use mathlib.Core.Logic.{∥∥₁_elim}
use mathlib.Core.Bool.{Bool}
use mathlib.Core.List.{List, [], ◌∷◌, ◌++◌, Perm, Permᴰ}
use mathlib.Core.List.Permᴰ.{nil, cons, swap, trans}
use native.Mathlib.Omega.{arith}
use jm_bus.Common.Tests.{if◌then◌else◌}

module _ {A : Type 0} (f : A → ℕ) where
  abbrev pub total : List A → ℕ
  total [] = 0
  total (x ∷ xs) = f x + total xs

  pub total-append : (xs ys : List A) → total (xs ++ ys) ≡ total xs + total ys
  total-append [] ys = omega arith
  total-append (x ∷ xs) ys = omega (arith, total-append xs ys)

  total-permᴰ : {xs ys : List A} → Permᴰ xs ys → total xs ≡ total ys
  total-permᴰ nil = refl
  total-permᴰ (cons e d) = omega (arith, total-permᴰ d, ap f e)
  total-permᴰ (swap e₁ e₂) = omega (arith, ap f e₁, ap f e₂)
  total-permᴰ (trans d₁ d₂) = total-permᴰ d₁ ∙ total-permᴰ d₂

  pub total-perm : (xs ys : List A) → Perm xs ys → total xs ≡ total ys
  total-perm xs ys p = ∥∥₁_elim p (ℕ_set _ _) (λ d. total-permᴰ d)

module _ {A : Type 0} (f : A → Bool) where
  -- How often a test holds.
  abbrev pub count_if : List A → ℕ
  count_if = total (λ x. if f x then 1 else 0)

  pub count_if-append : (xs ys : List A) → count_if (xs ++ ys) ≡ count_if xs + count_if ys
  count_if-append xs ys = total-append (λ x. if f x then 1 else 0) xs ys

  pub count_if-perm : (xs ys : List A) → Perm xs ys → count_if xs ≡ count_if ys
  count_if-perm xs ys p = total-perm (λ x. if f x then 1 else 0) xs ys p
