-- ===== src/Cstd.antt =====
-- The array template of the library `cstd` (`array_template.h`, a dependency that is not part of the
-- repository): the struct that `generate_array_template` declares, and its functions as an interface.
pub mod Loops
pub mod Ideal
pub mod Ending
use jm_bus.Common.{
  ℕ, ◌≤◌, ◌<◌, ◌≡◌, ◌≢◌, Bool, true, false, Option, none, some, List, [], ◌∷◌, ◌++◌, length, Cmd,
  ok, fault, bad_free,
}

-- `X_array`: `items` is `X_data[0]` to `X_data[len - 1]`, and `offset` how far `X_data` stands behind
-- the start of its allocation.
pub record Array (A : Type 0) : Type 0 where
  pub items : List A
  pub cap : ℕ
  pub offset : ℕ

abbrev pub len : {A : Type 0} → Array A → ℕ
len a = length a.items

-- A new array of capacity `n`.
abbrev pub fresh : {A : Type 0} → ℕ → Array A
fresh n = record { items = []; cap = n; offset = 0 }

-- `X_array_init`, `X_array_insert` and `X_array_free`; the first two may fail to get memory, as the world decides.
pub record ArrayLib (W : Type 0) : Type 1 where
  pub init : {A : Type 0} → ℕ → W → Option (Array A) × W
  pub insert : {A : Type 0} → Array A → A → W → (Bool × Array A) × W
  -- `malloc` and `realloc` of the C library: false for a null pointer
  pub malloc : W → Bool × W
  pub realloc : W → Bool × W
  pub free : {A : Type 0} → Array A → Cmd W (Unit {0})
  -- A new array is empty, with the capacity asked for.
  pub init_lem : {A : Type 0} (n : ℕ) (w : W) (a : Array A) → (init n w).0 ≡ some a → a ≡ fresh n
  -- An insertion that succeeds appends the item; the capacity grows only if the array is full.
  pub insert_true :
      {A : Type 0} (a : Array A) (x : A) (w : W)
      → (insert a x w).0.0 ≡ true
      → ((insert a x w).0.1.items ≡ a.items ++ x ∷ [])
        × (a.cap ≤ (insert a x w).0.1.cap)
        × (len a < a.cap → (insert a x w).0.1.cap ≡ a.cap)
        × ((insert a x w).0.1.offset ≡ a.offset)
  -- One that fails leaves the array alone.
  pub insert_false :
      {A : Type 0} (a : Array A) (x : A) (w : W)
      → (insert a x w).0.0 ≡ false
      → (insert a x w).0.1 ≡ a
  -- `X_array_free` hands `X_data` to `free`, which takes the start of an allocation and nothing else.
  pub free_start :
      {A : Type 0} (a : Array A) (w : W) → a.offset ≡ 0 → (w' : W) × (free a w ≡ ok tt w')
  pub free_inside : {A : Type 0} (a : Array A) (w : W) → a.offset ≢ 0 → free a w ≡ fault bad_free

-- Where allocation fails, `Shortage` holds: `Unit` says nothing, and `⊥` that memory never runs out.
pub record Memory {W : Type 0} (lib : ArrayLib W) (Shortage : Type 0) : Type 1 where
  pub init_fails : {A : Type 0} (n : ℕ) (w : W) → (lib.init {A = A} n w).0 ≡ none → Shortage
  pub insert_fails :
      {A : Type 0} (a : Array A) (x : A) (w : W) → (lib.insert a x w).0.0 ≡ false → Shortage
  pub malloc_fails : (w : W) → (lib.malloc w).0 ≡ false → Shortage

-- No allocation fails.
abbrev pub Plenty : {W : Type 0} → ArrayLib W → Type 1
Plenty lib = Memory lib ⊥
