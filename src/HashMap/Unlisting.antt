-- ===== src/HashMap/Unlisting.antt =====
-- What `hash_map_remove_value` of common/structures/hash_map.c leaves of a map, found or not.
use jm_bus.Common.{
  ◌<◌, ℕ, ◌+◌, ◌-◌, ◌≡◌, ◌≢◌, refl, ◌∙◌, inl, inr, Bool, true, false, none, some, List, [], ◌∷◌,
  get_elem?, arith, if◌then◌else◌, ◌==◌, Bool-cases, Option-cases, ok, length-set, count_if,
  count_if-perm,
}
use jm_bus.Arrays.{array_remove_int_item}
use jm_bus.Arrays.Removal.{swap_remove-perm}
use jm_bus.Cstd.{Array}
use jm_bus.HashMap.{
  Entry, Row, null_row, row, HashMap, find_entry, set_value, index_of, remove_found,
  remove_value_in_row, mod_cap, hash_map_remove_value,
}
use jm_bus.HashMap.Contents.{
  get_elem?-below, IsValid, bucket, entries_at, sockets, mod_cap_lem, get_elem?-set, bucket-lt,
}
use jm_bus.HashMap.Matching.{find-set_value_self, find-set_value_other}
use jm_bus.HashMap.Removing.{index_of-some}
use jm_bus.HashMap.Setting.{Apart}
use jm_bus.Strings.{hash_from_str}

abbrev pub listed : ℕ → List ℕ → ℕ
listed u socks = count_if (λ x. x == u) socks

not_listed : (u : ℕ) (xs : List ℕ) → index_of u xs ≡ none → listed u xs ≡ 0
unfolding index_of
not_listed u [] e = refl
not_listed u (x ∷ xs) e = elim (Bool-cases (x == u)) [
  | inl here ↦ ground arith
  | inr other ↦ elim (Option-cases (index_of u xs)) [
    | inl missing ↦ rw other (omega (arith, not_listed u xs missing))
    | inr (i, found) ↦ ground arith
  ]
]

remove_item-listed :
    (a : Array ℕ) (v u : ℕ)
    → listed u (array_remove_int_item a (index_of v a.items)).1.items
      ≡ (if v == u then listed u a.items - 1 else listed u a.items)
unfolding array_remove_int_item
remove_item-listed a v u = elim (Option-cases (index_of v a.items)) [
  | inl missing ↦ rw missing (elim (Bool-cases (v == u)) [
    | inl same ↦
        let e : v ≡ u = ground arith in
        let gone : listed u a.items ≡ 0 = not_listed u a.items (rw e at missing) in
        rw (same, gone) refl
    | inr other ↦ rw other refl
  ])
  | inr (i, found) ↦
      let (b, run, removed) = swap_remove-perm a i v (index_of-some v a.items i found) in
      let split : listed u a.items ≡ (if v == u then 1 else 0) + listed u b.items =
        count_if-perm (λ x. x == u) a.items (v ∷ b.items) removed.rest in
      rw (found, run) (ground arith)
]

-- An item that is there is removed.
remove_item_done :
    (a : Array ℕ) (v : ℕ)
    → 0 < listed v a.items
    → (array_remove_int_item a (index_of v a.items)).0 ≡ true
unfolding array_remove_int_item
remove_item_done a v some_listed = elim (Option-cases (index_of v a.items)) [
  | inl missing ↦ absurd (omega (arith, some_listed, not_listed v a.items missing))
  | inr (i, found) ↦
      let (b, run, removed) = swap_remove-perm a i v (index_of-some v a.items i found) in
      rw (found, run) refl
]

-- What the removal of a value leaves of a map, whether it was there or not.
pub record Unlisted (hm : HashMap) (key : List ℕ) (v : ℕ) (hm' : HashMap) : Type 0 where
  pub valid : IsValid hm'
  pub here :
      (u : ℕ)
      → listed u (sockets hm' key)
        ≡ (if v == u then listed u (sockets hm key) - 1 else listed u (sockets hm key))
  pub others :
      (q : List ℕ) → Apart q key → find_entry q (entries_at hm' q) ≡ find_entry q (entries_at hm q)

unchanged :
    (hm : HashMap) (key : List ℕ) (v : ℕ)
    → IsValid hm
    → find_entry key (entries_at hm key) ≡ none
    → Unlisted hm key v hm
unchanged hm key v valid missing = record {
  valid = valid;
  here = λ u. rw missing (ground arith);
  others = λ q apart. refl;
}

-- Removal at the entry found under the key.
remove_found-Unlisted :
    (hm : HashMap) (key : List ℕ) (v : ℕ) (r : Array Entry) (e : Entry)
    → IsValid hm
    → get_elem? hm.rows (bucket hm key) ≡ some (row r)
    → find_entry key r.items ≡ some e
    → Unlisted hm key v (remove_found hm (bucket hm key) r key v (some e)).1
unfolding remove_found
remove_found-Unlisted hm key v r e valid at_row found =
    let i = bucket hm key in
    let below = bucket-lt hm key valid in
    let values = (array_remove_int_item e.value (index_of v e.value.items)).1 in
    let r' : Array Entry = record r { items = set_value key values r.items } in
    record {
      valid = record {
        positive = valid.positive;
        full = length-set hm.rows i (row r') ∙ valid.full;
      };
      here = λ u.
          rw
            (
              (get_elem?-set hm.rows i i (row r') below).0 refl,
              at_row,
              find-set_value_self key values r.items e found,
              found,
            )
            (remove_item-listed e.value v u);
      others = λ q apart. elim (Bool-cases (i == bucket hm q)) [
        | inl same ↦
            let here : i ≡ bucket hm q = ground arith in
            rw ((get_elem?-set hm.rows i (bucket hm q) (row r') below).0 here, ← here, at_row)
              (find-set_value_other key q values r.items apart.0 apart.1)
        | inr far ↦
            let other : i ≢ bucket hm q = ground arith in
            rw ((get_elem?-set hm.rows i (bucket hm q) (row r') below).1 other) refl
      ];
    }

module _ {W : Type 0} where
  pub hash_map_remove_value-Unlisted :
      (hm : HashMap) (key : List ℕ) (v : ℕ) (w : W)
      → IsValid hm
      → (b : Bool) × (hm' : HashMap) × (hash_map_remove_value hm key v w ≡ ok (b, hm') w)
        × Unlisted hm key v hm'
        × (0 < listed v (sockets hm key) → b ≡ true)
  unfolding hash_map_remove_value
  hash_map_remove_value-Unlisted hm key v w valid =
      let (cell, at_cell) = get_elem?-below hm.rows (bucket hm key) (bucket-lt hm key valid) in
      let modded = mod_cap_lem (hash_from_str key) hm.cap w valid.positive in
      by_cell cell at_cell modded
    where
      by_cell :
          (cell : Row)
          → get_elem? hm.rows (bucket hm key) ≡ some cell
          → mod_cap (hash_from_str key) hm.cap w ≡ ok (bucket hm key) w
          → (b : Bool) × (hm' : HashMap) × (hash_map_remove_value hm key v w ≡ ok (b, hm') w)
            × Unlisted hm key v hm'
            × (0 < listed v (sockets hm key) → b ≡ true)
      by_cell null_row at_cell modded = (
        false,
        hm,
        rw (modded, at_cell) (unfold remove_value_in_row in refl),
        unchanged hm key v valid (rw at_cell (unfold find_entry in refl)),
        λ some_listed.
            let missing : find_entry key (entries_at hm key) ≡ none =
              rw at_cell (unfold find_entry in refl) in
            let empty : 0 < 0 = rw missing at some_listed in absurd (omega arith),
      )
      by_cell (row r) at_cell modded = elim (Option-cases (find_entry key r.items)) [
        | inl missing ↦ (
          true,
          hm,
          rw (modded, at_cell) (unfold remove_value_in_row remove_found in rw missing refl),
          unchanged hm key v valid (rw (at_cell, missing) refl),
          λ _. refl,
        )
        | inr (e, found) ↦
            let out = remove_found hm (bucket hm key) r key v (some e) in
            (
              out.0,
              out.1,
              rw (modded, at_cell) (unfold remove_value_in_row in rw found refl),
              remove_found-Unlisted hm key v r e valid at_cell found,
              λ some_listed.
                  unfold remove_found in
                  remove_item_done e.value v (rw (at_cell, found) at some_listed),
            )
      ]
