-- ===== src/Clients.antt =====
-- common/handlers/client_list.c and the structs of common/types/client.h. The mutex of the list makes
-- each function one step.
pub mod Pairs
pub mod Finding
pub mod Adding
pub mod Removing
pub mod Keeping
pub mod Leaving
use jm_bus.Common.{
  ℕ, zero, suc, ◌+◌, ◌-◌, Bool, true, false, ◌&&◌, Option, none, some, List, [], ◌∷◌, length,
  get_elem?, if◌then◌else◌, ltb, leb, ◌==◌, Cmd, fault, exits, out_of_bounds, pure, call, ◌>>=◌,
  ◌>>◌,
}
use jm_bus.Arrays.{array_remove_item, array_resize}
use jm_bus.Cstd.{Array, ArrayLib, len}
use jm_bus.Sockets.{Sockets}

-- `struct pollfd`
pub record PollFd : Type 0 where
  pub fd : ℕ
  pub events : ℕ
  pub revents : ℕ

abbrev pub pollin : ℕ
pollin = 1

pub record ClientMetadata : Type 0 where
  pub topics : Array (List ℕ)

pub record ClientList : Type 0 where
  pub fds : Array PollFd
  pub metadata : Array ClientMetadata

-- The loop for the first item with the socket.
unfoldable pub index_of_fd : ℕ → List PollFd → Option ℕ
index_of_fd sock [] = none
index_of_fd sock (p ∷ ps) =
    if p.fd == sock
    then some 0
    else elim (index_of_fd sock ps) [ none ↦ none | some i ↦ some (suc i) ]

-- `client_list_get_idx`; -1 is none
unfoldable pub client_list_get_idx : ClientList → ℕ → Option ℕ
client_list_get_idx cl sock = index_of_fd sock cl.fds.items

-- `client_list_get_by_idx`: `*fd` where the result is true
unfoldable pub client_list_get_by_idx : ClientList → ℕ → Option PollFd
client_list_get_by_idx cl idx = get_elem? cl.fds.items idx

-- `client_list_get`: `*fd` where the result is true
unfoldable pub client_list_get : ClientList → ℕ → Option PollFd
client_list_get cl sock = find cl.fds.items
  where
    find : List PollFd → Option PollFd
    find [] = none
    find (p ∷ ps) = if p.fd == sock then some p else find ps

module _ {W : Type 0} (lib : ArrayLib W) where
  unfoldable pub client_list_init : Cmd W (Option ClientList)
  client_list_init = do
    fds ← call (lib.init {A = PollFd} 100)
    elim fds [
      | none ↦ pure none
      | some fds' ↦ do
        metadata ← call (lib.init {A = ClientMetadata} 100)
        elim metadata [
          | none ↦ pure none
          | some metadata' ↦ pure (some (record { fds = fds'; metadata = metadata' }))
        ]
    ]

  unfoldable pub client_metadata_init : Cmd W (Option ClientMetadata)
  client_metadata_init = do
    topics ← call (lib.init {A = List ℕ} 2)
    elim topics [ none ↦ pure none | some topics' ↦ pure (some (record { topics = topics' })) ]

  -- The strings are freed, and then their array.
  unfoldable pub client_metadata_free : ClientMetadata → Cmd W (Unit {0})
  client_metadata_free metadata = lib.free metadata.topics

  unfoldable pub client_list_add : ClientList → ℕ → Cmd W (Bool × ClientList)
  unfolding client_metadata_init
  client_list_add cl sock = do
    (inserted, fds') ← call (lib.insert cl.fds (record { fd = sock; events = pollin; revents = 0 }))
    if inserted
        then (do
          made ← client_metadata_init
          elim made [
            | none ↦ pure (false, record cl { fds = fds' })
            | some metadata ↦ do
              (stored, metadata') ← call (lib.insert cl.metadata metadata)
              pure (stored, record { fds = fds'; metadata = metadata' })
          ])
        else pure (false, record cl { fds = fds' })

  -- `client_list_remove_by_idx` and `client_metadata_array_remove`: beyond a gap of 100 the array is
  -- resized, and a failure of that is the result.
  unfoldable pub remove_and_shrink : {A : Type 0} → Array A → ℕ → Cmd W (Bool × Array A)
  remove_and_shrink arr idx = do
    let (removed, arr') = array_remove_item arr idx
    if ltb 100 (arr'.cap - len arr')
        then (do (resized, arr'') ← array_resize lib arr'; pure (removed && resized, arr''))
        else pure (removed, arr')

  -- At the index found: both arrays lose it, or the program exits.
  unfoldable pub remove_at : ClientList → ℕ → Cmd W (Bool × ClientList)
  remove_at cl idx = do
    (fds_result, fds') ← remove_and_shrink cl.fds idx
    elim (get_elem? cl.metadata.items idx) [
      | none ↦ λ _. fault out_of_bounds
      | some md ↦ do
        client_metadata_free md
        (metadata_result, metadata') ← remove_and_shrink cl.metadata idx
        if fds_result && metadata_result
            then pure (true, record { fds = fds'; metadata = metadata' })
            else (λ _. exits 1)
    ]

  -- True also where no client has the socket.
  unfoldable pub remove_found : ClientList → Option ℕ → Cmd W (Bool × ClientList)
  remove_found cl none = pure (true, cl)
  remove_found cl (some idx) = remove_at cl idx

  unfoldable pub client_list_remove : ClientList → ℕ → Cmd W (Bool × ClientList)
  client_list_remove cl sock = remove_found cl (index_of_fd sock cl.fds.items)

  -- Every descriptor of the list is closed.
  unfoldable pub close_each : Sockets W → List PollFd → Cmd W (Unit {0})
  close_each os [] = pure tt
  close_each os (p ∷ ps) = do call (os.close p.fd); close_each os ps

  unfoldable pub client_list_close_connections : Sockets W → ClientList → Cmd W Bool
  unfolding close_each
  client_list_close_connections os cl = do close_each os cl.fds.items; pure true

  unfoldable pub client_list_free : ClientList → Cmd W (Unit {0})
  client_list_free cl = do lib.free cl.fds; lib.free cl.metadata
