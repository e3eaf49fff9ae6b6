-- ===== src/Clients/Finding.antt =====
-- The three look-ups of common/handlers/client_list.c, side by side.
use jm_bus.Common.{
  ℕ, ◌≡◌, ◌==◌, refl, inl, inr, Option, none, some, List, [], ◌∷◌, Bool-cases, Option-cases,
}
use jm_bus.Clients.{
  PollFd, ClientList, index_of_fd, client_list_get, client_list_get_idx, client_list_get_by_idx,
}

-- `client_list_get_by_idx` at an index that a search has found.
abbrev pub get_by_found : ClientList → Option ℕ → Option PollFd
unfolding client_list_get_by_idx
get_by_found cl none = none
get_by_found cl (some idx) = client_list_get_by_idx cl idx

abbrev with_fds : ClientList → List PollFd → ClientList
with_fds cl ps = record cl { fds = record (cl.fds) { items = ps } }

get_items :
    (cl : ClientList) (ps : List PollFd) (sock : ℕ)
    → client_list_get (with_fds cl ps) sock ≡ get_by_found (with_fds cl ps) (index_of_fd sock ps)
unfolding client_list_get get_by_found index_of_fd
get_items cl [] sock = refl
get_items cl (p ∷ ps) sock = elim (Bool-cases (p.fd == sock)) [
  | inl here ↦ rw here refl
  | inr other ↦ elim (Option-cases (index_of_fd sock ps)) [
    | inl missing ↦ rw (other, get_items cl ps sock, missing) refl
    | inr (i, found) ↦ rw (other, get_items cl ps sock, found) refl
  ]
]

-- `client_list_get` returns what `client_list_get_by_idx` returns at the index that
-- `client_list_get_idx` finds, and nothing where that finds none.
pub client_list_get-client_list_get_idx :
    (cl : ClientList) (sock : ℕ)
    → client_list_get cl sock ≡ get_by_found cl (client_list_get_idx cl sock)
unfolding client_list_get_idx
client_list_get-client_list_get_idx cl sock = get_items cl cl.fds.items sock
