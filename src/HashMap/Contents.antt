-- ===== src/HashMap/Contents.antt =====
-- What a map holds under a key, and what `hash_map_get` returns of it.
use jm_bus.Common.{
  ℕ, zero, suc, ◌%◌, ◌<◌, ◌≡◌, ◌≢◌, refl, ap, ◌∙◌, ◌++◌, Option, none, some, List, [], ◌∷◌, length,
  get_elem?, set, arith, ok,
}
use jm_bus.Strings.{hash_from_str}
use jm_bus.Cstd.{Array}
use jm_bus.HashMap.Matching.{find-longer_key}
use jm_bus.HashMap.{
  Entry, Row, null_row, row, HashMap, find_entry, value_of, get_in_row, mod_cap, hash_map_get,
}

pub record IsValid (hm : HashMap) : Type 0 where
  pub positive : 0 < hm.cap
  pub full : length hm.rows ≡ hm.cap

abbrev pub bucket : HashMap → List ℕ → ℕ
bucket hm key = hash_from_str key % hm.cap

abbrev pub items_of : Option Row → List Entry
items_of none = []
items_of (some null_row) = []
items_of (some (row r)) = r.items

-- The row that a key belongs to.
abbrev pub entries_at : HashMap → List ℕ → List Entry
entries_at hm key = items_of (get_elem? hm.rows (bucket hm key))

abbrev pub sockets_of : Option Entry → List ℕ
sockets_of none = []
sockets_of (some e) = e.value.items

-- The sockets found under a key; none if there is no entry.
abbrev pub sockets : HashMap → List ℕ → List ℕ
sockets hm key = sockets_of (find_entry key (entries_at hm key))

pub get_elem?-set :
    {A : Type 0} (xs : List A) (i j : ℕ) (v : A)
    → i < length xs
    → ((i ≡ j) → get_elem? (set xs i v) j ≡ some v)
      × (i ≢ j → get_elem? (set xs i v) j ≡ get_elem? xs j)
get_elem?-set [] i j v h = absurd (omega arith)
get_elem?-set (x ∷ xs) zero zero v h = ((λ _. refl), λ n. absurd (n refl))
get_elem?-set (x ∷ xs) zero (suc j) v h = ((λ e. absurd (omega arith)), λ _. refl)
get_elem?-set (x ∷ xs) (suc i) zero v h = ((λ e. absurd (omega arith)), λ _. refl)
get_elem?-set (x ∷ xs) (suc i) (suc j) v h =
    let (here, there) = get_elem?-set xs i j v (omega arith) in
    ((λ e. here (omega arith)), λ n. there (λ e. n (ap suc e)))

pub get_elem?-below :
    {A : Type 0} (xs : List A) (i : ℕ) → i < length xs → (x : A) × (get_elem? xs i ≡ some x)
get_elem?-below [] i h = absurd (omega arith)
get_elem?-below (x ∷ xs) zero h = (x, refl)
get_elem?-below (x ∷ xs) (suc i) h = get_elem?-below xs i (omega arith)

pub bucket-lt : (hm : HashMap) (key : List ℕ) → IsValid hm → bucket hm key < length hm.rows
bucket-lt hm key v = grind (arith, v.full, v.positive)

module _ {W : Type 0} where
  pub mod_cap_lem : (hash cap : ℕ) (w : W) → 0 < cap → mod_cap hash cap w ≡ ok (hash % cap) w
  unfolding mod_cap
  mod_cap_lem hash cap w h = ground arith

get_in_row-items :
    (key : List ℕ) (r : Option Row) → get_in_row key r ≡ value_of (find_entry key (items_of r))
unfolding get_in_row find_entry
get_in_row-items key none = refl
get_in_row-items key (some null_row) = refl
get_in_row-items key (some (row r)) = refl

module _ {W : Type 0} where
  -- In a valid map, `hash_map_get` returns the value of the first entry of the key's row whose key
  -- starts with the one looked for, or nothing if there is none.
  pub hash_map_get_lem :
      (hm : HashMap) (key : List ℕ) (w : W)
      → IsValid hm
      → hash_map_get hm key w ≡ ok (value_of (find_entry key (entries_at hm key))) w
  unfolding hash_map_get
  hash_map_get_lem hm key w v =
      rw (mod_cap_lem (hash_from_str key) hm.cap w v.positive)
        (ap (λ o. ok o w) (get_in_row-items key (get_elem? hm.rows (bucket hm key))))

  -- In a valid map, where the first entry of the key's row has a key that begins with it, and may
  -- be longer, `hash_map_get` returns the value of that entry.
  pub hash_map_get_longer_key :
      (hm : HashMap) (key more : List ℕ) (r : Array Entry) (e : Entry) (es : List Entry) (w : W)
      → IsValid hm
      → get_elem? hm.rows (bucket hm key) ≡ some (row r)
      → r.items ≡ e ∷ es
      → e.key ≡ key ++ more
      → hash_map_get hm key w ≡ ok (some e.value) w
  hash_map_get_longer_key hm key more r e es w valid at_row first longer =
      let items : entries_at hm key ≡ e ∷ es = ap items_of at_row ∙ first in
      hash_map_get_lem hm key w valid
      ∙ ap (λ o. ok (value_of o) w)
          (ap (λ l. find_entry key l) items ∙ find-longer_key key more e es longer)
