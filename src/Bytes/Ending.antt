-- ===== src/Bytes/Ending.antt =====
-- The loop of `read_byte_array` in common/helpers/bytes.c has as many rounds as the array has cells.
use jm_bus.Common.{
  ℕ, zero, suc, ◌+◌, ◌≤◌, ◌≡◌, ap, inl, inr, true, false, List, [], ◌∷◌, length, arith, ltb,
  Bool-cases, length-append, Ends,
}
use jm_bus.Cstd.{Array, ArrayLib, len}
use jm_bus.Bytes.{read_loop, read_byte_array}

module _ {W : Type 0} (lib : ArrayLib W) where
  read_loop-Ends :
      (left i : ℕ) (buf : List ℕ) (arr : Array ℕ) (w : W)
      → i + left ≡ arr.cap
      → len arr ≤ i
      → Ends (read_loop lib (suc left) i buf arr w)
  unfolding read_loop
  read_loop-Ends zero i buf arr w all few =
      let done : ltb i arr.cap ≡ false = ground arith in rw done tt
  read_loop-Ends (suc left) i [] arr w all few =
      let more : ltb i arr.cap ≡ true = ground arith in rw more tt
  read_loop-Ends (suc left) i (b ∷ buf) arr w all few =
      let more : ltb i arr.cap ≡ true = ground arith in
      let arr' = (lib.insert arr b w).0.1 in
      let w' = (lib.insert arr b w).1 in
      elim (Bool-cases (lib.insert arr b w).0.0) [
        | inl good ↦
            let (items, cap, steady, offset) = lib.insert_true arr b w good in
            let same : arr'.cap ≡ arr.cap = steady (omega arith) in
            let grown : len arr' ≡ len arr + 1 =
              omega (arith, ap length items, length-append arr.items (b ∷ [])) in
            rw more (read_loop-Ends left (i + 1) buf arr' w' (omega arith) (omega arith))
        | inr bad ↦
            let same : arr' ≡ arr = lib.insert_false arr b w bad in
            rw more (
              read_loop-Ends left (i + 1) buf arr' w' (omega (arith, ap (λ a. a.cap) same))
                (omega (arith, ap (λ a. len a) same)))
      ]

  pub read_byte_array-Ends :
      (buf : List ℕ) (arr : Array ℕ) (w : W) → arr.items ≡ [] → Ends (read_byte_array lib buf arr w)
  unfolding read_byte_array
  read_byte_array-Ends buf arr w empty =
      read_loop-Ends arr.cap 0 buf arr w (omega arith) (omega (arith, ap length empty))
