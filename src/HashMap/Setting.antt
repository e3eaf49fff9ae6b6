-- ===== src/HashMap/Setting.antt =====
-- `hash_map_set` against the contents of the map, while memory lasts.
use jm_bus.Common.{
  ℕ, ◌≡◌, ◌≢◌, refl, ◌∙◌, inl, inr, true, false, none, some, List, [], ◌∷◌, ◌++◌, arith, ◌==◌, ok,
  length-set, Bool-cases, Option-cases,
}
use jm_bus.Cstd.{Array, ArrayLib, Plenty, fresh}
use jm_bus.Cstd.Loops.{init-fresh, inserts}
use jm_bus.Strings.{hash_from_str}
use jm_bus.HashMap.{
  Entry, Row, null_row, row, HashMap, find_entry, set_value, put_row, hash_map_add_new_entry,
  set_found, set_in_row, hash_map_set,
}
use jm_bus.HashMap.Matching.{
  starts, starts_refl, find-set_value_self, find-set_value_other, find-append_new,
  find-append_other,
}
use jm_bus.HashMap.Contents.{
  get_elem?-below, IsValid, bucket, entries_at, items_of, sockets_of, sockets, get_elem?-set,
  bucket-lt, mod_cap_lem,
}

-- Neither key is the start of the other.
abbrev pub Apart : List ℕ → List ℕ → Type 0
Apart q key = (starts q key ≡ false) × (starts key q ≡ false)

-- What a row answers after `value` has been added under `key`.
abbrev pub Added : List ℕ → ℕ → List Entry → List Entry → Type 0
Added key value old new =
    (sockets_of (find_entry key new) ≡ sockets_of (find_entry key old) ++ value ∷ [])
    × ((q : List ℕ) → Apart q key → find_entry q new ≡ find_entry q old)

module _ {W : Type 0} (lib : ArrayLib W) (plenty : Plenty lib) where
  pub mallocs : (w : W) → (lib.malloc w).0 ≡ true
  mallocs w = elim (Bool-cases (lib.malloc w).0) [
    | inl e ↦ e
    | inr e ↦ absurd (plenty.malloc_fails w e)
  ]

  add_new_entry-Added :
      (r : Array Entry) (key : List ℕ) (value : ℕ) (w : W)
      → find_entry key r.items ≡ none
      → (r' : Array Entry) × (w' : W) × (hash_map_add_new_entry lib r key value w
          ≡ ok (true, r') w')
        × Added key value r.items r'.items
  unfolding hash_map_add_new_entry
  add_new_entry-Added r key value w absent =
      let w₁ = (lib.malloc w).1 in
      let w₂ = (lib.malloc w₁).1 in
      let w₃ = (lib.init {A = ℕ} 3 w₂).1 in
      let values = (lib.insert (fresh 3) value w₃).0.1 in
      let w₄ = (lib.insert (fresh 3) value w₃).1 in
      let entry : Entry = record { key = key; value = values } in
      let r' = (lib.insert r entry w₄).0.1 in
      let stored : values.items ≡ value ∷ [] =
        (lib.insert_true (fresh 3) value w₃ (inserts lib plenty _ value w₃)).0 in
      let grown : r'.items ≡ r.items ++ entry ∷ [] =
        (lib.insert_true r entry w₄ (inserts lib plenty r entry w₄)).0 in
      (
        r',
        (lib.insert r entry w₄).1,
        rw
            (
              mallocs w,
              mallocs w₁,
              init-fresh lib plenty 3 w₂,
              inserts lib plenty (fresh 3) value w₃,
              inserts lib plenty r entry w₄,
            )
            refl,
        (
          rw (grown, find-append_new key r.items entry absent, starts_refl key, absent) stored,
          λ q apart. rw grown (find-append_other q r.items entry apart.0),
        ),
      )

  set_found-Added :
      (r : Array Entry) (key : List ℕ) (value : ℕ) (w : W)
      → (r' : Array Entry) × (w' : W) × (set_found lib r key value (find_entry key r.items) w
          ≡ ok (true, r') w')
        × Added key value r.items r'.items
  set_found-Added r key value w = elim (Option-cases (find_entry key r.items)) [
    | inl absent ↦
        let (r', w', run, added) = add_new_entry-Added r key value w absent in
        (r', w', rw absent (unfold set_found in run), added)
    | inr (e, found) ↦
        let values = (lib.insert e.value value w).0.1 in
        let good = inserts lib plenty e.value value w in
        (
          record r { items = set_value key values r.items },
          (lib.insert e.value value w).1,
          rw found (unfold set_found in rw good refl),
          (
            rw (find-set_value_self key values r.items e found, found)
                (lib.insert_true e.value value w good).0,
            λ q apart. find-set_value_other key q values r.items apart.0 apart.1,
          ),
        )
  ]

  -- Behind the index: the row there gets the value, and no other row changes.
  set_in_row-Added :
      (hm : HashMap) (idx : ℕ) (key : List ℕ) (value : ℕ) (cell : Row) (w : W)
      → (r' : Array Entry) × (w' : W) × (set_in_row lib hm idx key value (some cell) w
          ≡ ok (true, put_row hm idx r') w')
        × Added key value (items_of (some cell)) r'.items
  unfolding set_in_row
  set_in_row-Added hm idx key value null_row w =
      let w₁ = (lib.init {A = Entry} 10 w).1 in
      let (r', w', run, added) =
        add_new_entry-Added (fresh 10) key value w₁ (unfold find_entry in refl) in
      (r', w', rw (init-fresh lib plenty 10 w, run) refl, added)
  set_in_row-Added hm idx key value (row r) w =
      let (r', w', run, added) = set_found-Added r key value w in (r', w', rw run refl, added)

  -- While memory lasts, `hash_map_set` succeeds on a valid map and keeps it valid. The sockets
  -- under the key are then the old ones with the new one behind them; a key that is neither a
  -- start of this key nor begins with it finds what it found before.
  pub hash_map_set-sockets :
      (hm : HashMap) (key : List ℕ) (value : ℕ) (w : W)
      → IsValid hm
      → (hm' : HashMap) × (w' : W) × (hash_map_set lib hm key value w ≡ ok (true, hm') w')
        × IsValid hm'
        × (sockets hm' key ≡ sockets hm key ++ value ∷ [])
        × ((q : List ℕ)
            → Apart q key
            → find_entry q (entries_at hm' q) ≡ find_entry q (entries_at hm q))
  unfolding hash_map_set
  hash_map_set-sockets hm key value w v =
      let i = bucket hm key in
      let below = bucket-lt hm key v in
      let (cell, here) = get_elem?-below hm.rows i below in
      let (r', w', run, (added, others)) = set_in_row-Added hm i key value cell w in
      let hm' = put_row hm i r' in
      let valid : IsValid hm' = record {
        positive = v.positive;
        full = length-set hm.rows i (row r') ∙ v.full;
      } in
      (
        hm',
        w',
        rw (mod_cap_lem (hash_from_str key) hm.cap w v.positive, here) run,
        valid,
        rw ((get_elem?-set hm.rows i i (row r') below).0 refl, here) added,
        λ q apart. elim (Bool-cases (i == bucket hm q)) [
          | inl e ↦
              let same : i ≡ bucket hm q = ground arith in
              rw ((get_elem?-set hm.rows i (bucket hm q) (row r') below).0 same, ← same, here)
                (others q apart)
          | inr e ↦
              let other : i ≢ bucket hm q = ground arith in
              rw ((get_elem?-set hm.rows i (bucket hm q) (row r') below).1 other) refl
        ],
      )
