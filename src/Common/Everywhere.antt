-- ===== src/Common/Everywhere.antt =====
-- A property of all items of a list, under reading, writing and appending.
use Prim.Native.Nat.{ℕ, zero, suc}
use mathlib.Core.Path.{◌≡◌, subst}
use mathlib.Core.List.{List, [], ◌∷◌, ◌++◌}
use mathlib.Core.Option.{some, some-injective}
use jm_bus.Common.Lists.{All, get_elem?, set, take}

module _ {A : Type 0} (P : A → Type 0) where
  pub All-get : (xs : List A) (i : ℕ) (x : A) → All P xs → get_elem? xs i ≡ some x → P x
  All-get [] i x h e = cc
  All-get (y ∷ xs) zero x (p, h) e = subst P (some-injective _ _ e) p
  All-get (y ∷ xs) (suc i) x (p, h) e = All-get xs i x h e

  pub All-set : (xs : List A) (i : ℕ) (x : A) → All P xs → P x → All P (set xs i x)
  All-set [] i x h q = tt
  All-set (y ∷ xs) zero x (p, h) q = (q, h)
  All-set (y ∷ xs) (suc i) x (p, h) q = (p, All-set xs i x h q)

  pub All-snoc : (xs : List A) (x : A) → All P xs → P x → All P (xs ++ x ∷ [])
  All-snoc [] x h q = (q, tt)
  All-snoc (y ∷ xs) x (p, h) q = (p, All-snoc xs x h q)

  pub All-take : (n : ℕ) (xs : List A) → All P xs → All P (take n xs)
  All-take zero xs h = tt
  All-take (suc n) [] h = tt
  All-take (suc n) (x ∷ xs) (p, h) = (p, All-take n xs h)
