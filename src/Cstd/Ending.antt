-- ===== src/Cstd/Ending.antt =====
-- The calls of the array template end: `free` in a fault or not, and a loop of insertions.
use native.Mathlib.Decide.{ℕ_discrete}
use jm_bus.Common.{List, Returns, Run, Settles, Ends}
use jm_bus.Cstd.{Array, ArrayLib, Memory}
use jm_bus.Cstd.Loops.{insert_each, insert_each_lem}

module _ {W A : Type 0} where
  pub Returns-Settles : (r : Run W A) (P : A → W → Type 0) → Returns r P → Settles r P
  Returns-Settles r P (a, w, run, h) = rw run h

  pub Returns-Ends : (r : Run W A) (P : A → W → Type 0) → Returns r P → Ends r
  Returns-Ends r P (a, w, run, h) = rw run tt

module _ {W : Type 0} (lib : ArrayLib W) where
  -- Memory may fail at any time.
  pub always : Memory lib (Unit {0})
  always = record {
    init_fails = λ n w e. tt;
    insert_fails = λ a x w e. tt;
    malloc_fails = λ w e. tt;
  }

  pub free-Ends : {A : Type 0} (a : Array A) (w : W) → Ends (lib.free a w)
  free-Ends a w = elim (ℕ_discrete a.offset 0) [
    | yes start ↦ let (w', run) = lib.free_start a w start in rw run tt
    | no inside ↦ rw (lib.free_inside a w inside) tt
  ]

  pub insert_each-Ends :
      {A : Type 0} (a : Array A) (xs : List A) (w : W) → Ends (insert_each lib a xs w)
  insert_each-Ends a xs w =
      Returns-Ends (insert_each lib a xs w) _ (insert_each_lem lib always a xs w)
