-- ===== src/Arrays/Removal.antt =====
-- What removal by moving the last item takes away (common/helpers/array.c).
use mathlib.Core.List.{Perm, perm_append_singleton}
use mathlib.Core.List.Perm
use mathlib.Core.Path.{subst}
use jm_bus.Common.{
  ℕ, zero, suc, ◌+◌, ◌-◌, ◌<◌, ◌≡◌, refl, sym, ap, ◌∙◌, true, false, ◌==◌, leb, Bool-cases, inl,
  inr, some, List, [], ◌∷◌, ◌++◌, length, get_elem?, set, arith, take_exact, length-append,
  length-set,
}
use jm_bus.Cstd.{Array}
use jm_bus.Arrays.{remove_live, with_items, swap_remove}

module _ {A : Type 0} where
  get_head : {x y : A} → some y ≡ some x → y ≡ x
  get_head e = cc

  -- The last item put over another one.
  perm-set :
      (z : A) (xs : List A) (i : ℕ) (x : A)
      → get_elem? xs i ≡ some x
      → Perm (z ∷ xs) (x ∷ set xs i z)
  perm-set z [] i x e = cc
  perm-set z (y ∷ ys) zero x e =
      subst (λ t. Perm (z ∷ y ∷ ys) (t ∷ z ∷ ys)) (get_head e) (Perm.swap y z ys)
  perm-set z (y ∷ ys) (suc i) x e =
      Perm.trans (Perm.swap y z ys)
        (Perm.trans (Perm.cons y (perm-set z ys i x e)) (Perm.swap x y _))

  last_split : (xs : List A) → 0 < length xs → (ys : List A) × (z : A) × (xs ≡ ys ++ z ∷ [])
  last_split [] h = absurd (omega arith)
  last_split (x ∷ []) h = ([], x, refl)
  last_split (x ∷ y ∷ xs) h =
      let (ys, z, e) = last_split (y ∷ xs) (omega arith) in (x ∷ ys, z, ap (λ l. x ∷ l) e)

  get_elem?-last : (ys : List A) (z : A) → get_elem? (ys ++ z ∷ []) (length ys) ≡ some z
  get_elem?-last [] z = refl
  get_elem?-last (y ∷ ys) z = get_elem?-last ys z

  get_elem?-front :
      (ys : List A) (z : A) (i : ℕ) → i < length ys → get_elem? (ys ++ z ∷ []) i ≡ get_elem? ys i
  get_elem?-front [] z i h = absurd (omega arith)
  get_elem?-front (y ∷ ys) z zero h = refl
  get_elem?-front (y ∷ ys) z (suc i) h = get_elem?-front ys z i (omega arith)

  set-front :
      (ys : List A) (z v : A) (i : ℕ)
      → i < length ys
      → set (ys ++ z ∷ []) i v ≡ set ys i v ++ z ∷ []
  set-front [] z v i h = absurd (omega arith)
  set-front (y ∷ ys) z v zero h = refl
  set-front (y ∷ ys) z v (suc i) h = ap (λ l. y ∷ l) (set-front ys z v i (omega arith))

  -- What the removal of item `x` leaves of `a`.
  pub record Removed (a : Array A) (x : A) (b : Array A) : Type 0 where
    pub rest : Perm a.items (x ∷ b.items)
    pub same_cap : b.cap ≡ a.cap
    pub same_offset : b.offset ≡ a.offset

  remove_live_at :
      (ys : List A) (z : A) (idx : ℕ) (x : A)
      → get_elem? (ys ++ z ∷ []) idx ≡ some x
      → idx < length ys + 1
      → (r : List A) × (remove_live (ys ++ z ∷ []) idx ≡ some r) × Perm (ys ++ z ∷ []) (x ∷ r)
  remove_live_at ys z idx x here below =
      let size : length (ys ++ z ∷ []) ≡ length ys + 1 = length-append ys (z ∷ []) in
      let inside : leb (length ys + 1) idx ≡ false = ground arith in
      let at_last : length ys + 1 - 1 ≡ length ys = omega arith in
      elim (Bool-cases (idx == length ys)) [
        | inl e ↦
            let same : idx ≡ length ys = ground arith in
            let found : z ≡ x = get_head (sym (get_elem?-last ys z) ∙ rw same at here) in
            (
              ys,
              rw (size, inside, at_last, e, take_exact ys (z ∷ []) (length ys) refl) refl,
              subst (λ t. Perm (ys ++ z ∷ []) (t ∷ ys)) found (perm_append_singleton z ys),
            )
        | inr e ↦
            let inner : idx < length ys = ground arith in
            (
              set ys idx z,
              rw (size, inside, at_last, e, get_elem?-last ys z, set-front ys z z idx inner)
                  (rw (size, at_last)
                    (ap some (
                      take_exact (set ys idx z) (z ∷ []) (length ys) (sym (length-set ys idx z))))),
              Perm.trans (perm_append_singleton z ys)
                  (perm-set z ys idx x (sym (get_elem?-front ys z idx inner) ∙ here)),
            )
      ]

  pub below_length : (xs : List A) (i : ℕ) (x : A) → get_elem? xs i ≡ some x → i < length xs
  below_length [] i x e = cc
  below_length (y ∷ ys) zero x e = omega arith
  below_length (y ∷ ys) (suc i) x e = omega (arith, below_length ys i x e)

  pub remove_live_lem :
      (xs : List A) (idx : ℕ) (x : A)
      → get_elem? xs idx ≡ some x
      → (r : List A) × (remove_live xs idx ≡ some r) × Perm xs (x ∷ r)
  remove_live_lem xs idx x e =
      let below = below_length xs idx x e in
      let (ys, z, split) = last_split xs (omega arith) in
      subst (λ l. (r : List A) × (remove_live l idx ≡ some r) × Perm l (x ∷ r)) (sym split)
        (remove_live_at ys z idx x (rw split at e)
          (omega (arith, ap length split, length-append ys (z ∷ []))))

  -- Removing an index in range succeeds, takes away the item that stands there and no other, and
  -- keeps the capacity.
  pub swap_remove-perm :
      (a : Array A) (idx : ℕ) (x : A)
      → get_elem? a.items idx ≡ some x
      → (b : Array A) × (swap_remove a idx ≡ (true, b)) × Removed a x b
  swap_remove-perm a idx x e =
      let (r, run, p) = remove_live_lem a.items idx x e in
      (
        record a { items = r },
        ap (with_items a) run,
        record { rest = p; same_cap = refl; same_offset = refl },
      )
