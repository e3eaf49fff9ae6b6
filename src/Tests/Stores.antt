-- ===== src/Tests/Stores.antt =====
-- The theorems on the map, the arrays and the client list at concrete values.
use mathlib.Core.List.{Perm}
use jm_bus.Common.{
  get_elem?, some, ap, ℕ, ◌+◌, ◌≡◌, ◌≢◌, ◌⊎◌, inr, refl, true, false, List, [], ◌∷◌, ◌++◌, arith,
  ok, fault, exits, bad_free,
}
use jm_bus.Cstd.{Array, len}
use jm_bus.Cstd.Ideal.{ideal, ideal-Plenty}
use jm_bus.Clients.{index_of_fd, ClientList, client_list_add, client_list_remove}
use jm_bus.Clients.{client_list_get, client_list_get_idx}
use jm_bus.Clients.Finding.{get_by_found, client_list_get-client_list_get_idx}
use jm_bus.HashMap.Contents.{hash_map_get_longer_key}
use jm_bus.Clients.Adding.{InStep, polled, client_list_add_parts}
use jm_bus.Clients.Removing.{pairs, client_list_remove-pairs, client_list_remove_fatal}
use jm_bus.HashMap.{
  Entry, null_row, row, HashMap, index_of, find_entry, hash_map_get, hash_map_set, hash_map_remove,
  hash_map_remove_value,
}
use jm_bus.HashMap.Contents.{bucket, IsValid, entries_at, sockets}
use jm_bus.HashMap.Removing.{int_bucket, hash_map_remove_by_row, hash_map_remove_value-perm}
use jm_bus.HashMap.Setting.{Apart, hash_map_set-sockets}
use jm_bus.Strings.{hash_from_str}
use jm_bus.Tests.Fixtures.{scarce, topic_ab, text_c, array_of}
use jm_bus.Tests.States.{
  entry_ab, row_ab, map_ab, map_ab-IsValid, metadata_5, two_clients, wide_clients,
}

only_bucket : bucket map_ab topic_ab ≡ 0
only_bucket = omega arith

hash_map_set-sockets_example :
    (hm' : HashMap) × (w' : Unit {0}) × (hash_map_set ideal map_ab text_c 9 tt ≡ ok (true, hm') w')
    × IsValid hm'
    × (sockets hm' text_c ≡ sockets map_ab text_c ++ 9 ∷ [])
    × ((q : List ℕ)
        → Apart q text_c
        → find_entry q (entries_at hm' q) ≡ find_entry q (entries_at map_ab q))
hash_map_set-sockets_example =
    hash_map_set-sockets ideal ideal-Plenty map_ab text_c 9 tt map_ab-IsValid

-- "abcd" belongs to the second row of three and stands there; its hash as an `int` leads to the first.
abbrev text_abcd : List ℕ
text_abcd = 97 ∷ 98 ∷ 99 ∷ 100 ∷ []

abbrev entry_abcd : Entry
entry_abcd = record { key = text_abcd; value = array_of 3 (5 ∷ []) }

abbrev row_abcd : Array Entry
row_abcd = array_of 10 (entry_abcd ∷ [])

abbrev map_abcd : HashMap
map_abcd = record { rows = null_row ∷ row row_abcd ∷ null_row ∷ []; cap = 3 }

map_abcd-IsValid : IsValid map_abcd
map_abcd-IsValid = record { positive = omega arith; full = refl }

hash_map_remove_by_row_example :
    ((int_bucket map_abcd text_abcd ≡ bucket map_abcd text_abcd)
      × ((hm' : HashMap) × (w' : Unit {0}) × (hash_map_remove ideal map_abcd text_abcd tt
            ≡ ok (true, hm') w')
          × Perm (entries_at map_abcd text_abcd) (entry_abcd ∷ entries_at hm' text_abcd)))
    ⊎ ((int_bucket map_abcd text_abcd ≢ bucket map_abcd text_abcd)
        × (hash_map_remove ideal map_abcd text_abcd tt ≡ ok (false, map_abcd) tt)
        × (hash_map_get map_abcd text_abcd tt ≡ ok (some (array_of 3 (5 ∷ []))) tt))
hash_map_remove_by_row_example =
    hash_map_remove_by_row ideal map_abcd text_abcd row_abcd entry_abcd tt map_abcd-IsValid
      (unfold hash_from_str in refl) (unfold find_entry in refl) refl
      (inr (unfold hash_from_str find_entry in refl))

hash_map_remove_value-perm_example :
    (hm' : HashMap) × (hash_map_remove_value map_ab topic_ab 6 tt ≡ ok (true, hm') tt)
    × Perm (sockets map_ab topic_ab) (6 ∷ sockets hm' topic_ab)
hash_map_remove_value-perm_example =
    hash_map_remove_value-perm map_ab topic_ab 6 1 row_ab entry_ab tt map_ab-IsValid
      (ap (λ i. get_elem? map_ab.rows i) only_bucket) (unfold find_entry in refl)
      (unfold index_of in refl)

client_list_add_parts_example :
    (cl' : ClientList) × (w' : Unit {0}) × (client_list_add scarce two_clients 9 tt
      ≡ ok (false, cl') w')
    × (len cl'.fds ≡ len cl'.metadata + 1)
client_list_add_parts_example = client_list_add_parts scarce two_clients 9 tt refl refl refl

client_list_remove-pairs_example :
    (cl' : ClientList) × (w' : Unit {0}) × (client_list_remove ideal two_clients 5 tt
      ≡ ok (true, cl') w')
    × InStep cl'
    × Perm (pairs two_clients) ((polled 5, metadata_5) ∷ pairs cl')
client_list_remove-pairs_example =
    client_list_remove-pairs ideal two_clients 5 0 (polled 5) metadata_5 tt refl (omega arith)
      (omega arith) (unfold index_of_fd in refl) refl refl refl

client_list_remove_fatal_example :
    (client_list_remove ideal wide_clients 5 tt ≡ fault bad_free)
    ⊎ (client_list_remove ideal wide_clients 5 tt ≡ exits 1)
client_list_remove_fatal_example =
    client_list_remove_fatal ideal wide_clients 5 0 metadata_5 tt refl (omega arith)
      (unfold index_of_fd in refl) refl refl

-- "a" finds what was put under "ab".
hash_map_get_longer_key_example : hash_map_get map_ab (97 ∷ []) tt ≡ ok (some entry_ab.value) tt
hash_map_get_longer_key_example =
    hash_map_get_longer_key map_ab (97 ∷ []) (98 ∷ []) row_ab entry_ab [] tt map_ab-IsValid
      (ap (λ i. get_elem? map_ab.rows i) first_bucket) refl refl
  where
    first_bucket : bucket map_ab (97 ∷ []) ≡ 0
    first_bucket = omega arith

client_list_get-client_list_get_idx_example :
    client_list_get two_clients 8 ≡ get_by_found two_clients (client_list_get_idx two_clients 8)
client_list_get-client_list_get_idx_example = client_list_get-client_list_get_idx two_clients 8
