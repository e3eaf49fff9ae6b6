-- ===== src/HashMap.antt =====
-- common/structures/hash_map.c: topics to the sockets subscribed. Its mutex makes each function one step.
pub mod Matching
pub mod Contents
pub mod Setting
pub mod Removing
pub mod Destroying
pub mod Unlisting
pub mod Subscriptions
use jm_bus.Common.{
  ℕ, zero, suc, ◌+◌, ◌-◌, ◌*◌, ◌%◌, ◌^◌, Bool, true, false, Option, none, some, List, [], ◌∷◌,
  length, get_elem?, set, if◌then◌else◌, ◌==◌, Cmd, fault, null_pointer, division_by_zero,
  out_of_bounds, pure, call, ◌>>=◌, ◌>>◌,
}
use jm_bus.Cstd.{Array, ArrayLib, len}
use jm_bus.Arrays.{swap_remove, array_remove_int_item}
use jm_bus.Bytes.{sign_extend}
use jm_bus.Strings.{hash_from_str, strncmp_zero}

pub record Entry : Type 0 where
  pub key : List ℕ
  pub value : Array ℕ

-- A `map_entry_array` whose `map_entry_data` is null, or holds entries.
pub data Row : Type 0 where
  null_row : Row
  row : Array Entry → Row

-- `rows` are the cells of `entries`; there are `cap` of them.
pub record HashMap : Type 0 where
  pub rows : List Row
  pub cap : ℕ

-- `strncmp(entry->key, key, key_len) == 0`
abbrev pub key_matches : List ℕ → Entry → Bool
key_matches key e = strncmp_zero e.key key (length key)

-- The loop over a row up to its first match.
unfoldable pub find_entry : List ℕ → List Entry → Option Entry
find_entry key [] = none
find_entry key (e ∷ es) = if key_matches key e then some e else find_entry key es

-- The index of the first match.
unfoldable pub find_index : List ℕ → List Entry → Option ℕ
find_index key [] = none
find_index key (e ∷ es) =
    if key_matches key e
    then some 0
    else elim (find_index key es) [ none ↦ none | some i ↦ some (suc i) ]

-- A write to `value` of the first match.
unfoldable pub set_value : List ℕ → Array ℕ → List Entry → List Entry
set_value key v [] = []
set_value key v (e ∷ es) =
    if key_matches key e then record e { value = v } ∷ es else e ∷ set_value key v es

-- The index of the first item that is `value`.
unfoldable pub index_of : ℕ → List ℕ → Option ℕ
index_of value [] = none
index_of value (x ∷ xs) =
    if x == value then some 0 else elim (index_of value xs) [ none ↦ none | some i ↦ some (suc i) ]

-- `*out = entry->value` for the entry found
abbrev pub value_of : Option Entry → Option (Array ℕ)
value_of none = none
value_of (some e) = some e.value

-- What `hash_map_get` returns of a row: none for an index out of range and for a null row.
unfoldable pub get_in_row : List ℕ → Option Row → Option (Array ℕ)
get_in_row key none = none
get_in_row key (some null_row) = none
get_in_row key (some (row r)) = value_of (find_entry key r.items)

abbrev pub put_row : HashMap → ℕ → Array Entry → HashMap
put_row hm idx r = record hm { rows = set hm.rows idx (row r) }

module _ {W : Type 0} where
  -- `mod`
  unfoldable pub mod_cap : ℕ → ℕ → Cmd W ℕ
  mod_cap hash cap = if cap == 0 then (λ _. fault division_by_zero) else pure (hash % cap)

  -- The array found, where the result is true.
  unfoldable pub hash_map_get : HashMap → List ℕ → Cmd W (Option (Array ℕ))
  unfolding mod_cap
  hash_map_get hm key = do
    idx ← mod_cap (hash_from_str key) hm.cap
    pure (get_in_row key (get_elem? hm.rows idx))

module _ {W : Type 0} (lib : ArrayLib W) where
  -- The two results of `malloc` are used unchecked.
  unfoldable pub hash_map_add_new_entry : Array Entry → List ℕ → ℕ → Cmd W (Bool × Array Entry)
  hash_map_add_new_entry r key value = do
    entry ← call lib.malloc
    copy ← call lib.malloc
    if entry
        then (if copy
            then (do
              made ← call (lib.init {A = ℕ} 3)
              elim made [
                | none ↦ pure (false, r)
                | some values ↦ do
                  (inserted, values') ← call (lib.insert values value)
                  if inserted
                      then (do
                        (added, r') ← call (lib.insert r (record { key = key; value = values' }))
                        if added then pure (true, r') else (lib.free values' >> pure (false, r')))
                      else (lib.free values' >> pure (false, r))
              ])
            else (λ _. fault null_pointer))
        else (λ _. fault null_pointer)

  -- `initial`: the cells as `map_array_init` leaves them.
  unfoldable pub hash_map_create : ℕ → (ℕ → List Row) → Cmd W (Option HashMap)
  hash_map_create n initial = do
    allocated ← call lib.malloc
    if allocated
        then (do
          made ← call (lib.init {A = Row} n)
          elim made [
            | none ↦ pure none
            | some entries ↦ pure (some (record { rows = initial entries.cap; cap = entries.cap }))
          ])
        else pure none

  -- The value joins the entry found, or a new entry the row.
  unfoldable pub set_found : Array Entry → List ℕ → ℕ → Option Entry → Cmd W (Bool × Array Entry)
  set_found r key value none = hash_map_add_new_entry r key value
  set_found r key value (some e) = do
    (inserted, values) ← call (lib.insert e.value value)
    pure (inserted, record r { items = set_value key values r.items })

  -- `hash_map_set` behind the index: false for an index out of range, a new row where it is null.
  unfoldable pub set_in_row : HashMap → ℕ → List ℕ → ℕ → Option Row → Cmd W (Bool × HashMap)
  set_in_row hm idx key value none = pure (false, hm)
  set_in_row hm idx key value (some null_row) = do
    made ← call (lib.init {A = Entry} 10)
    elim made [
      | none ↦ pure (false, hm)
      | some r ↦ do (done, r') ← hash_map_add_new_entry r key value; pure (done, put_row hm idx r')
    ]
  set_in_row hm idx key value (some (row r)) = do
    (done, r') ← set_found r key value (find_entry key r.items)
    pure (done, put_row hm idx r')

  unfoldable pub hash_map_set : HashMap → List ℕ → ℕ → Cmd W (Bool × HashMap)
  hash_map_set hm key value = do
    idx ← mod_cap (hash_from_str key) hm.cap
    set_in_row hm idx key value (get_elem? hm.rows idx)

  unfoldable pub hash_map_remove_entry : Array Entry → ℕ → Bool × Array Entry
  hash_map_remove_entry = swap_remove

  -- The entries of a row: each key, value and entry is freed.
  unfoldable pub free_entries : List Entry → Cmd W (Unit {0})
  free_entries [] = pure tt
  free_entries (e ∷ es) = do lib.free e.value; free_entries es

  -- A row without entries is not freed.
  unfoldable pub free_row : Row → Cmd W (Unit {0})
  free_row null_row = pure tt
  free_row (row r) = if len r == 0 then pure tt else (do free_entries r.items; lib.free r)

  unfoldable pub free_rows : List Row → Cmd W (Unit {0})
  free_rows [] = pure tt
  free_rows (r ∷ rs) = do free_row r; free_rows rs

  unfoldable pub hash_map_destroy : HashMap → Cmd W (Unit {0})
  unfolding free_entries free_row free_rows
  hash_map_destroy hm = do
    free_rows hm.rows
    lib.free (record { items = hm.rows; cap = hm.cap; offset = 0 })

  -- `hash_map_remove` at the entry found, which is freed and leaves its row.
  unfoldable pub remove_match :
      HashMap → ℕ → Array Entry → List ℕ → Option Entry → Cmd W (Bool × HashMap)
  unfolding hash_map_remove_entry
  remove_match hm idx r key none = pure (false, hm)
  remove_match hm idx r key (some e) = do
    lib.free e.value
    elim (find_index key r.items) [
      | none ↦ pure (false, hm)
      | some i ↦ pure (true, put_row hm idx (hash_map_remove_entry r i).1)
    ]

  -- `hash_map_remove` behind the index; it has no test for an index out of range.
  unfoldable pub remove_in_row : HashMap → ℕ → List ℕ → Option Row → Cmd W (Bool × HashMap)
  remove_in_row hm idx key none = λ _. fault out_of_bounds
  remove_in_row hm idx key (some null_row) = pure (false, hm)
  remove_in_row hm idx key (some (row r)) = remove_match hm idx r key (find_entry key r.items)

  -- `int hash` and `int idx`: the hash goes through `int` before it is reduced.
  unfoldable pub hash_map_remove : HashMap → List ℕ → Cmd W (Bool × HashMap)
  hash_map_remove hm key = do
    idx ← mod_cap (sign_extend (hash_from_str key)) hm.cap
    remove_in_row hm idx key (get_elem? hm.rows idx)

-- `hash_map_remove_value` at the entry found: true if there is none.
unfoldable pub remove_found : HashMap → ℕ → Array Entry → List ℕ → ℕ → Option Entry → Bool × HashMap
unfolding array_remove_int_item
remove_found hm idx r key value none = (true, hm)
remove_found hm idx r key value (some e) =
    let (removed, values) = array_remove_int_item e.value (index_of value e.value.items) in
    (removed, put_row hm idx (record r { items = set_value key values r.items }))

module _ {W : Type 0} where
  unfoldable pub remove_value_in_row :
      HashMap → ℕ → List ℕ → ℕ → Option Row → Cmd W (Bool × HashMap)
  unfolding remove_found
  remove_value_in_row hm idx key value none = λ _. fault out_of_bounds
  remove_value_in_row hm idx key value (some null_row) = pure (false, hm)
  remove_value_in_row hm idx key value (some (row r)) =
      pure (remove_found hm idx r key value (find_entry key r.items))

  unfoldable pub hash_map_remove_value : HashMap → List ℕ → ℕ → Cmd W (Bool × HashMap)
  hash_map_remove_value hm key value = do
    idx ← mod_cap (hash_from_str key) hm.cap
    remove_value_in_row hm idx key value (get_elem? hm.rows idx)
