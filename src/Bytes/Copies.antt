-- ===== src/Bytes/Copies.antt =====
-- The copying functions of common/helpers/bytes.c, while memory lasts.
use jm_bus.Common.{
  ℕ, zero, suc, ◌+◌, ◌-◌, ◌≤◌, ◌<◌, ◌≡◌, refl, sym, ap, ◌∙◌, inl, inr, some, List, [], ◌∷◌, ◌++◌,
  length, take, arith, ltb, Bool-cases, append-nil, append_assoc, length-append, fault,
  out_of_bounds, Returns,
}
use jm_bus.Cstd.{Array, ArrayLib, Plenty, len, fresh}
use jm_bus.Cstd.Loops.{insert_each_all, inserts, init-fresh}
use jm_bus.Bytes.{read_loop, read_byte_array, str_to_byte_array}

take_none : (n i : ℕ) (xs : List ℕ) → n ≤ i → take (n - i) xs ≡ []
take_none n i xs h = let e : n - i ≡ 0 = omega arith in rw e

take_more : (n i b : ℕ) (xs : List ℕ) → i < n → take (n - i) (b ∷ xs) ≡ b ∷ take (n - (i + 1)) xs
take_more n i b xs h = let e : n - i ≡ suc (n - (i + 1)) = omega arith in rw e

module _ {W : Type 0} (lib : ArrayLib W) (plenty : Plenty lib) where
  read_loop_lem :
      (fuel i : ℕ) (buf : List ℕ) (arr : Array ℕ) (w : W)
      → i ≡ len arr
      → i ≤ arr.cap
      → arr.cap < fuel + i
      → arr.cap ≤ i + length buf
      → Returns
          (read_loop lib fuel i buf arr w)
          λ b _. (b.items ≡ arr.items ++ take (arr.cap - i) buf) × (b.offset ≡ arr.offset)
  unfolding read_loop
  read_loop_lem zero i buf arr w at fits fuel room = absurd (omega arith)
  read_loop_lem (suc fuel) i [] arr w at fits enough room = (
    arr,
    w,
    ground arith,
    (
      sym (append-nil _) ∙ ap (λ t. arr.items ++ t) (sym (take_none arr.cap i [] (omega arith))),
      refl,
    ),
  )
  read_loop_lem (suc fuel) i (b ∷ rest) arr w at fits enough room =
      elim (Bool-cases (ltb i arr.cap)) [
        | inr full ↦ (
          arr,
          w,
          rw full,
          (
            sym (append-nil _)
                ∙ ap (λ t. arr.items ++ t) (sym (take_none arr.cap i (b ∷ rest) (ground arith))),
            refl,
          ),
        )
        | inl more ↦
            let (items, cap, steady, offset) =
              lib.insert_true arr b w (inserts lib plenty arr b w) in
            let grown : len (lib.insert arr b w).0.1 ≡ i + 1 =
              omega (arith, ap length items, length-append arr.items (b ∷ [])) in
            let same : (lib.insert arr b w).0.1.cap ≡ arr.cap = ground (arith, steady) in
            let (r, w', run, (copied, based)) =
              read_loop_lem fuel (i + 1) rest (lib.insert arr b w).0.1 (lib.insert arr b w).1
                (sym grown) (ground arith) (omega arith) (omega arith) in
            (
              r,
              w',
              rw more run,
              (
                copied
                    ∙ rw (items, same, append_assoc)
                        (ap (λ t. arr.items ++ t)
                          (sym (take_more arr.cap i b rest (ground arith)))),
                based ∙ offset,
              ),
            )
      ]

  read_loop_short :
      (fuel i : ℕ) (buf : List ℕ) (arr : Array ℕ) (w : W)
      → i ≡ len arr
      → arr.cap < fuel + i
      → i + length buf < arr.cap
      → read_loop lib fuel i buf arr w ≡ fault out_of_bounds
  unfolding read_loop
  read_loop_short zero i buf arr w at enough short = absurd (omega arith)
  read_loop_short (suc fuel) i [] arr w at enough short = ground arith
  read_loop_short (suc fuel) i (b ∷ rest) arr w at enough short =
      let (items, cap, steady, offset) = lib.insert_true arr b w (inserts lib plenty arr b w) in
      let arr' = (lib.insert arr b w).0.1 in
      ground (
        arith,
        read_loop_short fuel (i + 1) rest arr' (lib.insert arr b w).1,
        ap length items,
        length-append arr.items (b ∷ []),
        steady,
      )

  -- While memory lasts, `read_byte_array` fills an empty array up to its capacity from a buffer
  -- that holds as much.
  pub read_byte_array-take :
      (buf : List ℕ) (arr : Array ℕ) (w : W)
      → arr.items ≡ []
      → arr.cap ≤ length buf
      → Returns
          (read_byte_array lib buf arr w)
          λ b _. (b.items ≡ take arr.cap buf) × (b.offset ≡ arr.offset)
  unfolding read_byte_array
  read_byte_array-take buf arr w empty room =
      let (b, w', run, (copied, based)) =
        read_loop_lem (suc arr.cap) 0 buf arr w (sym (ap length empty)) (omega arith) (omega arith)
          (omega arith) in
      (b, w', run, (copied ∙ rw empty (ap (λ n. take n buf) (omega arith)), based))

  -- While memory lasts, `read_byte_array` into an empty array reads past the end of a buffer that
  -- holds less than its capacity.
  pub read_byte_array_short :
      (buf : List ℕ) (arr : Array ℕ) (w : W)
      → arr.items ≡ []
      → length buf < arr.cap
      → read_byte_array lib buf arr w ≡ fault out_of_bounds
  unfolding read_byte_array
  read_byte_array_short buf arr w empty short =
      read_loop_short (suc arr.cap) 0 buf arr w (sym (ap length empty)) (omega arith) (omega arith)

  pub str_to_byte_array_lem :
      (str : List ℕ) (w : W)
      → Returns
          (str_to_byte_array lib str w)
          λ r _. (a : Array ℕ) × (r ≡ some a) × (a.items ≡ str) × (a.offset ≡ 0)
  unfolding str_to_byte_array
  str_to_byte_array_lem str w =
      let (b, w', run, i) =
        insert_each_all lib plenty (fresh (length str)) str (lib.init {A = ℕ} (length str) w).1 in
      (
        some b,
        w',
        rw (init-fresh lib plenty (length str) w) (rw run refl),
        (b, refl, i.appended, i.based),
      )
