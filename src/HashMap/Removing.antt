-- ===== src/HashMap/Removing.antt =====
-- `hash_map_remove` and `hash_map_remove_value` of common/structures/hash_map.c.
use mathlib.Core.List.{Perm}
use jm_bus.Common.{
  ℕ, suc, ◌%◌, ◌≡◌, ◌≢◌, ◌⊎◌, ◌∙◌, refl, sym, ap, inl, inr, true, false, ◌==◌, none, some, List, [],
  ◌∷◌, get_elem?, arith, ok, Bool-cases, Option-cases,
}
use jm_bus.Cstd.{Array, ArrayLib}
use jm_bus.Arrays.{array_remove_int_item}
use jm_bus.Arrays.Removal.{swap_remove-perm}
use jm_bus.Bytes.{sign_extend}
use jm_bus.Strings.{hash_from_str}
use jm_bus.HashMap.{
  Entry, Row, null_row, row, HashMap, find_entry, find_index, key_matches, hash_map_get,
  hash_map_remove_entry, set_value, index_of, put_row, remove_match, remove_in_row, hash_map_remove,
  remove_found, remove_value_in_row, hash_map_remove_value,
}
use jm_bus.HashMap.Matching.{find-set_value_self}
use jm_bus.HashMap.Contents.{
  IsValid, bucket, items_of, entries_at, hash_map_get_lem, get_elem?-below, sockets, mod_cap_lem,
  get_elem?-set, bucket-lt,
}

-- The row in which `hash_map_remove` looks.
abbrev pub int_bucket : HashMap → List ℕ → ℕ
int_bucket hm key = sign_extend (hash_from_str key) % hm.cap

pub index_of-some :
    (value : ℕ) (xs : List ℕ) (i : ℕ) → index_of value xs ≡ some i → get_elem? xs i ≡ some value
unfolding index_of
index_of-some value [] i e = cc
index_of-some value (x ∷ xs) i e = elim (Bool-cases (x == value)) [
  | inl same ↦ let at : i ≡ 0 = ground arith in rw at (ground arith)
  | inr other ↦ elim (Option-cases (index_of value xs)) [
    | inl gone ↦ absurd (ground arith)
    | inr (j, found) ↦ let at : i ≡ suc j = ground arith in rw at (index_of-some value xs j found)
  ]
]

find_entry-find_index :
    (key : List ℕ) (es : List Entry) (e : Entry)
    → find_entry key es ≡ some e
    → (i : ℕ) × (find_index key es ≡ some i) × (get_elem? es i ≡ some e)
unfolding find_entry find_index
find_entry-find_index key [] e found = cc
find_entry-find_index key (x ∷ es) e found = elim (Bool-cases (key_matches key x)) [
  | inl same ↦ (0, rw same refl, ground arith)
  | inr other ↦
      let (i, at, here) = find_entry-find_index key es e (ground arith) in
      (suc i, rw (other, at) refl, here)
]

module _ {W : Type 0} (lib : ArrayLib W) where
  remove_in_row_misses :
      (hm : HashMap) (idx : ℕ) (key : List ℕ) (cell : Row) (w : W)
      → find_entry key (items_of (some cell)) ≡ none
      → remove_in_row lib hm idx key (some cell) w ≡ ok (false, hm) w
  unfolding remove_in_row
  remove_in_row_misses hm idx key null_row w absent = refl
  remove_in_row_misses hm idx key (row r) w absent = rw absent (unfold remove_match in refl)

  -- The entry found leaves its row.
  remove_in_row_hits :
      (hm : HashMap) (idx : ℕ) (key : List ℕ) (r : Array Entry) (e : Entry) (w : W)
      → find_entry key r.items ≡ some e
      → e.value.offset ≡ 0
      → (r' : Array Entry) × (w' : W) × (remove_in_row lib hm idx key (some (row r)) w
          ≡ ok (true, put_row hm idx r') w')
        × Perm r.items (e ∷ r'.items)
  unfolding remove_in_row remove_match hash_map_remove_entry
  remove_in_row_hits hm idx key r e w found start =
      let (i, at, here) = find_entry-find_index key r.items e found in
      let (r', run, removed) = swap_remove-perm r i e here in
      let (w', freed) = lib.free_start e.value w start in
      (r', w', rw (found, freed, at, run) refl, removed.rest)

  -- `hash_map_remove` of a key that is found in a valid map, in an entry whose sockets were never
  -- advanced, where the row of the hash as an `int` is the key's own or has no entry for the key.
  -- If it is the key's own row, the result is true, the entry found is taken out of it, and the
  -- others stay there in some order. If not, it is false, the map stays as it is, and
  -- `hash_map_get` still finds the key.
  pub hash_map_remove_by_row :
      (hm : HashMap) (key : List ℕ) (r : Array Entry) (e : Entry) (w : W)
      → IsValid hm
      → get_elem? hm.rows (bucket hm key) ≡ some (row r)
      → find_entry key r.items ≡ some e
      → e.value.offset ≡ 0
      → (int_bucket hm key ≡ bucket hm key)
        ⊎ (find_entry key (items_of (get_elem? hm.rows (int_bucket hm key))) ≡ none)
      → ((int_bucket hm key ≡ bucket hm key)
          × ((hm' : HashMap) × (w' : W) × (hash_map_remove lib hm key w ≡ ok (true, hm') w')
              × Perm (entries_at hm key) (e ∷ entries_at hm' key)))
        ⊎ ((int_bucket hm key ≢ bucket hm key)
            × (hash_map_remove lib hm key w ≡ ok (false, hm) w)
            × (hash_map_get hm key w ≡ ok (some e.value) w))
  unfolding hash_map_remove
  hash_map_remove_by_row hm key r e w v here found start (inl same) =
      let (r', w', run, rest) = remove_in_row_hits hm (bucket hm key) key r e w found start in
      let below = bucket-lt hm key v in
      inl (
        same,
        (
          put_row hm (bucket hm key) r',
          w',
          rw (mod_cap_lem (sign_extend (hash_from_str key)) hm.cap w v.positive, same, here) run,
          rw (here, (get_elem?-set hm.rows (bucket hm key) (bucket hm key) (row r') below).0 refl)
              rest,
        ),
      )
  hash_map_remove_by_row hm key r e w v here found start (inr absent) =
      let (cell, there) =
        get_elem?-below hm.rows (int_bucket hm key) (grind (arith, v.full, v.positive)) in
      inr (
        (λ same.
            let alike = ap (λ i. find_entry key (items_of (get_elem? hm.rows i))) same in
            let present : find_entry key (items_of (get_elem? hm.rows (bucket hm key))) ≡ some e =
              rw here found in
            cc),
        rw (mod_cap_lem (sign_extend (hash_from_str key)) hm.cap w v.positive, there)
            (remove_in_row_misses hm (int_bucket hm key) key cell w
              (ap (λ o. find_entry key (items_of o)) (sym there) ∙ absent)),
        hash_map_get_lem hm key w v ∙ rw (here, found) refl,
      )

module _ {W : Type 0} where
  -- `hash_map_remove_value` in a valid map, of a socket that the entry found under the key lists,
  -- takes the socket from that list once, and leaves the others there in some order.
  pub hash_map_remove_value-perm :
      (hm : HashMap) (key : List ℕ) (value i : ℕ) (r : Array Entry) (e : Entry) (w : W)
      → IsValid hm
      → get_elem? hm.rows (bucket hm key) ≡ some (row r)
      → find_entry key r.items ≡ some e
      → index_of value e.value.items ≡ some i
      → (hm' : HashMap) × (hash_map_remove_value hm key value w ≡ ok (true, hm') w)
        × Perm (sockets hm key) (value ∷ sockets hm' key)
  unfolding hash_map_remove_value
  hash_map_remove_value-perm hm key value i r e w v here found listed =
      let (b, run, removed) =
        swap_remove-perm e.value i value (index_of-some value e.value.items i listed) in
      let below = bucket-lt hm key v in
      let r' : Array Entry = record r { items = set_value key b r.items } in
      (
        put_row hm (bucket hm key) r',
        rw (mod_cap_lem (hash_from_str key) hm.cap w v.positive, here)
            (unfold remove_value_in_row remove_found array_remove_int_item in
              rw (found, listed, run) refl),
        rw
            (
              here,
              found,
              (get_elem?-set hm.rows (bucket hm key) (bucket hm key) (row r') below).0 refl,
              find-set_value_self key b r.items e found,
            )
            removed.rest,
      )
