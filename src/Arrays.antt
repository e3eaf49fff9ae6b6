-- ===== src/Arrays.antt =====
-- common/helpers/array.c: removal by moving the last item, and resizing.
pub mod Removal
use jm_bus.Common.{
  ℕ, ◌-◌, Bool, true, false, Option, none, some, List, get_elem?, length, set, take, if◌then◌else◌,
  leb, ◌==◌, Cmd, fault, bad_free, pure, call, ◌>>=◌,
}
use jm_bus.Cstd.{Array, ArrayLib, len}

-- The shape that the removals share, on the live items: the last item takes the place of the one
-- removed. What they leave in the dead cell behind the items is never read.
abbrev pub remove_live : {A : Type 0} → List A → ℕ → Option (List A)
remove_live xs idx =
    if leb (length xs) idx
    then none
    else if idx == length xs - 1
    then some (take (length xs - 1) xs)
    else elim (get_elem? xs (length xs - 1)) [
      | none ↦ none
      | some last ↦ some (take (length xs - 1) (set xs idx last))
    ]

abbrev pub with_items : {A : Type 0} → Array A → Option (List A) → Bool × Array A
with_items a none = (false, a)
with_items a (some xs) = (true, record a { items = xs })

abbrev pub swap_remove : {A : Type 0} → Array A → ℕ → Bool × Array A
swap_remove a idx = with_items a (remove_live a.items idx)

-- An index of -1 becomes the largest `size_t`, which is out of range.
unfoldable pub array_remove_int_item : Array ℕ → Option ℕ → Bool × Array ℕ
array_remove_int_item arr none = (false, arr)
array_remove_int_item arr (some idx) = swap_remove arr idx

-- `array_remove_pollfd_item` and `array_remove_client_metadata_item`
abbrev pub array_remove_item : {A : Type 0} → Array A → ℕ → Bool × Array A
array_remove_item = swap_remove

-- `array_pollfd_resize` and `array_client_metadata_resize`: `free` is given the pointer that a
-- successful `realloc` has taken.
unfoldable pub array_resize :
    {W : Type 0} → ArrayLib W → {A : Type 0} → Array A → Cmd W (Bool × Array A)
array_resize lib arr = do
  moved ← call lib.realloc
  if moved then (λ _. fault bad_free) else pure (false, arr)
