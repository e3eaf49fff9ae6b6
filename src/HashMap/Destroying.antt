-- ===== src/HashMap/Destroying.antt =====
-- `hash_map_destroy`: the end of a map whose arrays begin at their allocations.
use jm_bus.Common.{◌≡◌, refl, inl, inr, ◌==◌, Bool-cases, List, [], ◌∷◌, ok}
use jm_bus.Cstd.{Array, ArrayLib, len}
use jm_bus.HashMap.{
  Entry, Row, null_row, row, HashMap, free_entries, free_row, free_rows, hash_map_destroy,
}

-- No value of the entries was advanced.
abbrev pub ValuesStart : List Entry → Type 0
ValuesStart [] = Unit {0}
ValuesStart (e ∷ es) = (e.value.offset ≡ 0) × ValuesStart es

-- No array of the rows was advanced.
abbrev pub RowsStart : List Row → Type 0
RowsStart [] = Unit {0}
RowsStart (null_row ∷ rs) = RowsStart rs
RowsStart (row r ∷ rs) = (r.offset ≡ 0) × (ValuesStart r.items × RowsStart rs)

module _ {W : Type 0} (lib : ArrayLib W) where
  free_entries-returns :
      (es : List Entry) (w : W) → ValuesStart es → (w' : W) × (free_entries lib es w ≡ ok tt w')
  unfolding free_entries
  free_entries-returns [] w h = (w, refl)
  free_entries-returns (e ∷ es) w (start, rest) =
      let (w₁, freed) = lib.free_start e.value w start in
      let (w₂, run) = free_entries-returns es w₁ rest in (w₂, rw freed run)

  free_row-returns :
      (r : Array Entry) (w : W)
      → r.offset ≡ 0
      → ValuesStart r.items
      → (w' : W) × (free_row lib (row r) w ≡ ok tt w')
  unfolding free_row
  free_row-returns r w start values = elim (Bool-cases (len r == 0)) [
    | inl empty ↦ (w, rw empty refl)
    | inr filled ↦
        let (w₁, entries) = free_entries-returns r.items w values in
        let (w₂, freed) = lib.free_start r w₁ start in (w₂, rw (filled, entries) freed)
  ]

  free_row_null : (w : W) → free_row lib null_row w ≡ ok tt w
  unfolding free_row
  free_row_null w = refl

  free_rows-returns :
      (rs : List Row) (w : W) → RowsStart rs → (w' : W) × (free_rows lib rs w ≡ ok tt w')
  unfolding free_rows
  free_rows-returns [] w h = (w, refl)
  free_rows-returns (null_row ∷ rs) w h =
      let (w', run) = free_rows-returns rs w h in (w', rw (free_row_null w) run)
  free_rows-returns (row r ∷ rs) w (start, (values, rest)) =
      let (w₁, freed) = free_row-returns r w start values in
      let (w₂, run) = free_rows-returns rs w₁ rest in (w₂, rw freed run)

  -- `hash_map_destroy` of a map in which no array of a row and no value was advanced returns
  -- without a fault.
  pub hash_map_destroy-returns :
      (hm : HashMap) (w : W) → RowsStart hm.rows → (w' : W) × (hash_map_destroy lib hm w ≡ ok tt w')
  unfolding hash_map_destroy
  hash_map_destroy-returns hm w h =
      let (w₁, rows) = free_rows-returns hm.rows w h in
      let (w₂, freed) =
        lib.free_start (record { items = hm.rows; cap = hm.cap; offset = 0 }) w₁ refl in
      (w₂, rw rows freed)
