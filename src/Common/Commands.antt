-- ===== src/Common/Commands.antt =====
-- Commands over a world `W`: what the operating system and the allocator decide, and what they see.
-- A command ends with a value, in undefined behaviour, in `exit`, or its loop ran out of fuel.
use Prim.Native.Nat.{ℕ}
use mathlib.Core.Path.{◌≡◌}
use mathlib.Core.Option.{Option, none, some}

pub data Fault : Type 0 where
  -- a read or write outside the bytes that were written, or outside an array
  out_of_bounds : Fault
  -- the use of a variable or field that was never set
  uninitialised : Fault
  -- `free` of a pointer that no allocation returned, or of a freed block
  bad_free : Fault
  -- a null pointer dereferenced
  null_pointer : Fault
  division_by_zero : Fault

pub data Run (W : Type 0) (A : Type 0) : Type 0 where
  ok : A → W → Run W A
  fault : Fault → Run W A
  exits : ℕ → Run W A
  out_of_fuel : Run W A

abbrev pub Cmd : Type 0 → Type 0 → Type 0
Cmd W A = W → Run W A

module _ {W : Type 0} where
  abbrev pub pure : {A : Type 0} → A → Cmd W A
  pure a w = ok a w

  abbrev pub and_then : {A B : Type 0} → Run W A → (A → Cmd W B) → Run W B
  and_then (ok a w) k = k a w
  and_then (fault f) k = fault f
  and_then (exits n) k = exits n
  and_then out_of_fuel k = out_of_fuel

  infixl 5 ◌>>=◌ ◌>>◌
  abbrev pub ◌>>=◌ : {A B : Type 0} → Cmd W A → (A → Cmd W B) → Cmd W B
  ◌>>=◌ m k w = and_then (m w) k

  abbrev pub ◌>>◌ : {A B : Type 0} → Cmd W A → Cmd W B → Cmd W B
  m >> k = m >>= λ _. k

  -- An item that is read at an index; none is a read outside the array.
  abbrev pub in_bounds : {A : Type 0} → Option A → Cmd W A
  in_bounds none w = fault out_of_bounds
  in_bounds (some a) w = ok a w

  -- A call of the platform, which always returns.
  abbrev pub call : {A : Type 0} → (W → A × W) → Cmd W A
  call f w = ok (f w).0 (f w).1

  -- The run returns, in a value and a world that satisfy `P`.
  abbrev pub Returns : {A : Type 0} → Run W A → (A → W → Type 0) → Type 0
  Returns {A} r P = (a : A) × (w : W) × (r ≡ ok a w) × P a w
