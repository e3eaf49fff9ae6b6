-- ===== src/Clients/Pairs.antt =====
-- Descriptors and metadata that stand at the same index.
use jm_bus.Common.{
  ℕ, zero, suc, ◌+◌, ◌-◌, ◌<◌, ◌≡◌, refl, ap, ◌∙◌, true, false, Bool-cases, inl, inr, ◌==◌, leb,
  some, List, [], ◌∷◌, length, get_elem?, set, take, arith, length-take, length-set,
}
use jm_bus.Arrays.{remove_live}

module _ {A B : Type 0} where
  abbrev pub zip : List A → List B → List (A × B)
  zip [] ys = []
  zip (x ∷ xs) [] = []
  zip (x ∷ xs) (y ∷ ys) = (x, y) ∷ zip xs ys

  pub length-zip :
      (xs : List A) (ys : List B) → length xs ≡ length ys → length (zip xs ys) ≡ length xs
  length-zip [] ys h = refl
  length-zip (x ∷ xs) [] h = absurd (omega arith)
  length-zip (x ∷ xs) (y ∷ ys) h = ap suc (length-zip xs ys (omega arith))

  pub get_elem?-zip :
      (xs : List A) (ys : List B) (i : ℕ) (x : A) (y : B)
      → get_elem? xs i ≡ some x
      → get_elem? ys i ≡ some y
      → get_elem? (zip xs ys) i ≡ some (x, y)
  get_elem?-zip [] ys i x y h k = cc
  get_elem?-zip (a ∷ xs) [] i x y h k = cc
  get_elem?-zip (a ∷ xs) (b ∷ ys) zero x y h k = ground arith
  get_elem?-zip (a ∷ xs) (b ∷ ys) (suc i) x y h k = get_elem?-zip xs ys i x y h k

  set-zip :
      (xs : List A) (ys : List B) (i : ℕ) (x : A) (y : B)
      → set (zip xs ys) i (x, y) ≡ zip (set xs i x) (set ys i y)
  set-zip [] ys i x y = refl
  set-zip (a ∷ xs) [] zero x y = refl
  set-zip (a ∷ xs) [] (suc i) x y = refl
  set-zip (a ∷ xs) (b ∷ ys) zero x y = refl
  set-zip (a ∷ xs) (b ∷ ys) (suc i) x y = ap (λ l. (a, b) ∷ l) (set-zip xs ys i x y)

  take-zip : (n : ℕ) (xs : List A) (ys : List B) → take n (zip xs ys) ≡ zip (take n xs) (take n ys)
  take-zip zero xs ys = refl
  take-zip (suc n) [] ys = refl
  take-zip (suc n) (a ∷ xs) [] = refl
  take-zip (suc n) (a ∷ xs) (b ∷ ys) = ap (λ l. (a, b) ∷ l) (take-zip n xs ys)

pub some_at :
    {C : Type 0} (xs : List C) (i : ℕ) → i < length xs → (x : C) × (get_elem? xs i ≡ some x)
some_at [] i h = absurd (omega arith)
some_at (x ∷ xs) zero h = (x, refl)
some_at (x ∷ xs) (suc i) h = some_at xs i (omega arith)

-- A removal in range, by its two ways.
remove_live_last :
    {C : Type 0} (xs : List C) (i : ℕ) → i + 1 ≡ length xs → remove_live xs i ≡ some (take i xs)
remove_live_last xs i h =
    let inside : leb (length xs) i ≡ false = ground arith in
    let at_last : length xs - 1 ≡ i = omega arith in
    let here : (i == i) ≡ true = ground arith in rw (inside, at_last, here) refl

remove_live_inner :
    {C : Type 0} (xs : List C) (i n : ℕ) (z : C)
    → i < n
    → n + 1 ≡ length xs
    → get_elem? xs n ≡ some z
    → remove_live xs i ≡ some (take n (set xs i z))
remove_live_inner xs i n z h k e =
    let inside : leb (length xs) i ≡ false = ground arith in
    let at_last : length xs - 1 ≡ n = omega arith in
    let there : (i == n) ≡ false = ground arith in rw (inside, at_last, there, e) (rw at_last refl)

-- Removing at one index from both lists removes the pair.
pub remove_live-zip :
    {A B : Type 0} (xs : List A) (ys : List B) (i : ℕ)
    → length xs ≡ length ys
    → i < length xs
    → (xs' : List A) × (ys' : List B) × (remove_live xs i ≡ some xs')
      × (remove_live ys i ≡ some ys')
      × (remove_live (zip xs ys) i ≡ some (zip xs' ys'))
      × (length xs' + 1 ≡ length xs)
      × (length ys' + 1 ≡ length ys)
remove_live-zip xs ys i same below =
    let n = length xs - 1 in
    let long : n + 1 ≡ length xs = omega arith in
    let zipped : length (zip xs ys) ≡ length xs = length-zip xs ys same in
    elim (Bool-cases (i == n)) [
      | inl e ↦
          let here : i + 1 ≡ length xs = ground arith in
          (
            take i xs,
            take i ys,
            remove_live_last xs i here,
            remove_live_last ys i (omega arith),
            remove_live_last (zip xs ys) i (omega arith) ∙ ap some (take-zip i xs ys),
            omega (arith, length-take i xs (omega arith)),
            omega (arith, length-take i ys (omega arith)),
          )
      | inr e ↦
          let inner : i < n = ground arith in
          let (x, at_x) = some_at xs n (omega arith) in
          let (y, at_y) = some_at ys n (omega arith) in
          (
            take n (set xs i x),
            take n (set ys i y),
            remove_live_inner xs i n x inner long at_x,
            remove_live_inner ys i n y inner (omega arith) at_y,
            remove_live_inner (zip xs ys) i n (x, y) inner (omega arith)
                  (get_elem?-zip xs ys n x y at_x at_y)
                ∙ ap some
                    (ap (take n) (set-zip xs ys i x y) ∙ take-zip n (set xs i x) (set ys i y)),
            omega (
              arith,
              length-set xs i x,
              length-take n (set xs i x) (omega (arith, length-set xs i x)),
            ),
            omega (
              arith,
              length-set ys i y,
              length-take n (set ys i y) (omega (arith, length-set ys i y)),
            ),
          )
    ]
