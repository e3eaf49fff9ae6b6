-- ===== src/HashMap/Matching.antt =====
-- Which entries a key matches: the comparison in common/structures/hash_map.c.
use jm_bus.Common.{
  ℕ, ◌≡◌, refl, ap, ◌∙◌, Bool, true, false, if◌then◌else◌, none, some, List, [], ◌∷◌, ◌++◌, length,
  arith,
}
use jm_bus.Cstd.{Array}
use jm_bus.Strings.{strncmp_zero}
use jm_bus.HashMap.{Entry, key_matches, find_entry, set_value}

-- `k` is the start of `s`.
abbrev pub starts : List ℕ → List ℕ → Bool
starts k s = strncmp_zero s k (length k)

pub starts_refl : (k : List ℕ) → starts k k ≡ true
starts_refl [] = refl
starts_refl (x ∷ k) = ground (arith, starts_refl k)

pub starts-append : (k s : List ℕ) → starts k (k ++ s) ≡ true
starts-append [] s = refl
starts-append (x ∷ k) s = ground (arith, starts-append k s)

-- Two starts of one string: one is the start of the other.
pub starts_compare :
    (k q s : List ℕ)
    → starts k s ≡ true
    → starts q k ≡ false
    → starts k q ≡ false
    → starts q s ≡ false
starts_compare [] [] s hk hqk hkq = cc
starts_compare [] (y ∷ q) s hk hqk hkq = cc
starts_compare (x ∷ k) [] s hk hqk hkq = cc
starts_compare (x ∷ k) (y ∷ q) [] hk hqk hkq = refl
starts_compare (x ∷ k) (y ∷ q) (z ∷ s) hk hqk hkq = ground (arith, starts_compare k q s)

module _ (key : List ℕ) where
  pub find-set_value_self :
      (v : Array ℕ) (es : List Entry) (e : Entry)
      → find_entry key es ≡ some e
      → find_entry key (set_value key v es) ≡ some (record e { value = v })
  unfolding find_entry set_value
  find-set_value_self v [] e h = cc
  find-set_value_self v (x ∷ es) e h = ground (arith, find-set_value_self v es e)

  pub find-set_value_other :
      (q : List ℕ) (v : Array ℕ) (es : List Entry)
      → starts q key ≡ false
      → starts key q ≡ false
      → find_entry q (set_value key v es) ≡ find_entry q es
  unfolding find_entry set_value
  find-set_value_other q v [] a b = refl
  find-set_value_other q v (x ∷ es) a b =
      ground (arith, find-set_value_other q v es a b, starts_compare key q x.key)

  pub find-append_found :
      (es : List Entry) (n e : Entry)
      → find_entry key es ≡ some e
      → find_entry key (es ++ n ∷ []) ≡ some e
  unfolding find_entry
  find-append_found [] n e h = cc
  find-append_found (x ∷ es) n e h = ground (arith, find-append_found es n e)

  pub find-append_new :
      (es : List Entry) (n : Entry)
      → find_entry key es ≡ none
      → find_entry key (es ++ n ∷ []) ≡ (if key_matches key n then some n else none)
  unfolding find_entry
  find-append_new [] n h = refl
  find-append_new (x ∷ es) n h = ground (arith, find-append_new es n)

  pub find-append_other :
      (es : List Entry) (n : Entry)
      → key_matches key n ≡ false
      → find_entry key (es ++ n ∷ []) ≡ find_entry key es
  unfolding find_entry
  find-append_other [] n h = ground arith
  find-append_other (x ∷ es) n h = ground (arith, find-append_other es n h)

pub find-longer_key :
    (key more : List ℕ) (e : Entry) (es : List Entry)
    → e.key ≡ key ++ more
    → find_entry key (e ∷ es) ≡ some e
unfolding find_entry
find-longer_key key more e es longer =
    let matched : key_matches key e ≡ true =
      ap (λ k. starts key k) longer ∙ starts-append key more in
    rw matched refl
