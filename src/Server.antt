-- ===== src/Server.antt =====
-- common/types/state.h and common/handlers/server_states.c: clients, topics and the pool together.
pub mod Subscribing
pub mod SetUp
pub mod Ending
pub mod Keeping
pub mod Pooled
pub mod Agreement
use jm_bus.Common.{
  ℕ, zero, suc, ◌+◌, Bool, true, false, Option, none, some, List, [], ◌∷◌, length, get_elem?, set,
  if◌then◌else◌, ◌==◌, Cmd, fault, out_of_bounds, null_pointer, in_bounds, pure, call, ◌>>=◌, ◌>>◌,
}
use jm_bus.Clients.{
  PollFd, ClientMetadata, ClientList, index_of_fd, client_list_get_idx, client_list_init,
  client_list_add, client_list_remove, client_list_close_connections, client_list_free,
}
use jm_bus.Cstd.{Array, ArrayLib}
use jm_bus.HashMap.{HashMap, Row, hash_map_create, hash_map_set, hash_map_remove_value}
use jm_bus.ServerInfo.{ServerInfo}
use jm_bus.Sockets.{Sockets}
use jm_bus.Strings.{strncmp_zero}
use jm_bus.ThreadPool.{Pool, thread_pool_create}

-- `struct server_state`; `running` is never reset.
pub record ServerState : Type 0 where
  pub clients : ClientList
  pub server : ServerInfo
  pub topics : HashMap
  pub pool : Pool
  pub running : Bool

-- `strncmp(md_topic, topic, topic_len) == 0` for one of the client's topics
unfoldable pub subscribed : List ℕ → List (List ℕ) → Bool
subscribed topic [] = false
subscribed topic (t ∷ ts) =
    if strncmp_zero t topic (length topic) then true else subscribed topic ts

abbrev pub put_metadata : ServerState → ℕ → ClientMetadata → ServerState
put_metadata s idx md = record s {
  clients = record (s.clients) {
    metadata = record (s.clients.metadata) { items = set s.clients.metadata.items idx md };
  };
}

module _ {W : Type 0} (lib : ArrayLib W) where
  -- The topic is copied to the client's list and put in the map. The copy's `malloc` is unchecked.
  unfoldable pub add_topic :
      ServerState → ℕ → ClientMetadata → List ℕ → ℕ → Cmd W (Bool × ServerState)
  add_topic s idx md topic sock = do
    copied ← call lib.malloc
    if copied
        then (do
          (inserted, topics') ← call (lib.insert md.topics topic)
          let s' = put_metadata s idx (record { topics = topics' })
          if inserted
              then (do
                (done, map') ← hash_map_set lib s'.topics topic sock
                pure (done, record s' { topics = map' }))
              else pure (false, s'))
        else (λ _. fault null_pointer)

  -- At the client's metadata; there is none at an index of -1.
  unfoldable pub add_topic_at : ServerState → Option ℕ → List ℕ → ℕ → Cmd W (Bool × ServerState)
  add_topic_at s none topic sock = λ _. fault out_of_bounds
  add_topic_at s (some idx) topic sock = do
    md ← in_bounds (get_elem? s.clients.metadata.items idx)
    if subscribed topic md.topics.items then pure (true, s) else add_topic s idx md topic sock

  unfoldable pub server_state_add_client_topic :
      ServerState → List ℕ → ℕ → Cmd W (Bool × ServerState)
  server_state_add_client_topic s topic sock =
      add_topic_at s (client_list_get_idx s.clients sock) topic sock

  unfoldable pub server_state_add_client : ServerState → ℕ → Cmd W (Bool × ServerState)
  server_state_add_client s sock = do
    (done, clients') ← client_list_add lib s.clients sock
    pure (done, record s { clients = clients' })

module _ {W : Type 0} where
  -- The socket leaves each topic's list, up to the first that fails.
  unfoldable pub forget_topics : HashMap → List (List ℕ) → ℕ → Cmd W (Bool × HashMap)
  forget_topics map [] sock = pure (true, map)
  forget_topics map (t ∷ ts) sock = do
    (done, map') ← hash_map_remove_value map t sock
    let rest = forget_topics map' ts sock
    if done then rest else pure (false, map')

module _ {W : Type 0} (os : Sockets W) (lib : ArrayLib W) where
  -- Behind the search for the client.
  unfoldable pub remove_client_at : ServerState → Option ℕ → ℕ → Cmd W (Bool × ServerState)
  remove_client_at s none sock = pure (false, s)
  remove_client_at s (some idx) sock = do
    md ← in_bounds (get_elem? s.clients.metadata.items idx)
    (forgotten, map') ← forget_topics s.topics md.topics.items sock
    let s' = record s { topics = map' }
    if forgotten
        then (do
          call (os.close sock)
          (removed, clients') ← client_list_remove lib s'.clients sock
          pure (removed, record s' { clients = clients' }))
        else pure (false, s')

  unfoldable pub server_state_remove_client : ServerState → ℕ → Cmd W (Bool × ServerState)
  server_state_remove_client s sock = remove_client_at s (index_of_fd sock s.clients.fds.items) sock
