-- ===== src/Cstd/Ideal.antt =====
-- An array library whose memory never runs out. A full array doubles its capacity.
use jm_bus.Common.{
  ℕ, ◌≤◌, ◌<◌, false, ◌+◌, ◌*◌, ◌≡◌, ◌≢◌, refl, true, some, [], ◌∷◌, ◌++◌, arith, if◌then◌else◌,
  ltb, ◌==◌, Run, ok, fault, bad_free,
}
use jm_bus.Cstd.{Array, ArrayLib, Plenty, len, fresh}

abbrev pub append_item : {A : Type 0} → Array A → A → Array A
append_item a x = record {
  items = a.items ++ x ∷ [];
  cap = if ltb (len a) a.cap then a.cap else a.cap * 2 + 1;
  offset = a.offset;
}

abbrev pub free_block : {W A : Type 0} → Array A → W → Run W (Unit {0})
free_block a w = if a.offset == 0 then ok tt w else fault bad_free

pub free_block-start :
    {W A : Type 0} (a : Array A) (w : W) → a.offset ≡ 0 → (w' : W) × (free_block a w ≡ ok tt w')
free_block-start a w h = (w, ground arith)

pub free_block-inside :
    {W A : Type 0} (a : Array A) (w : W) → a.offset ≢ 0 → free_block a w ≡ fault bad_free
free_block-inside a w h = ground arith

pub init-fresh :
    {W A : Type 0} (n : ℕ) (w : W) (a : Array A) → some (fresh n) ≡ some a → a ≡ fresh n
init-fresh n w a e = ground arith

pub append_item_lem :
    {W A : Type 0} (a : Array A) (x : A) (w : W)
    → true ≡ true
    → ((append_item a x).items ≡ a.items ++ x ∷ [])
      × (a.cap ≤ (append_item a x).cap)
      × (len a < a.cap → (append_item a x).cap ≡ a.cap)
      × (a.offset ≡ a.offset)
append_item_lem a x w e = (refl, ground arith, ground arith, refl)

pub insert_fails_never :
    {W A : Type 0} (a : Array A) (x : A) (w : W) → true ≡ false → append_item a x ≡ a
insert_fails_never a x w e = cc

-- Over any world, which it leaves alone.
abbrev pub ideal_over : (W : Type 0) → ArrayLib W
ideal_over W = record {
  init = λ n w. (some (fresh n), w);
  insert = λ a x w. ((true, append_item a x), w);
  malloc = λ w. (true, w);
  realloc = λ w. (true, w);
  free = free_block;
  init_lem = init-fresh;
  insert_true = append_item_lem;
  insert_false = insert_fails_never;
  free_start = free_block-start;
  free_inside = free_block-inside;
}

pub ideal_over-Plenty : (W : Type 0) → Plenty (ideal_over W)
ideal_over-Plenty W = record {
  init_fails = λ n w e. ground arith;
  insert_fails = λ a x w e. ground arith;
  malloc_fails = λ w e. ground arith;
}

abbrev pub ideal : ArrayLib (Unit {0})
ideal = ideal_over (Unit {0})

pub ideal-Plenty : Plenty ideal
ideal-Plenty = ideal_over-Plenty (Unit {0})
