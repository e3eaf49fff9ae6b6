-- ===== src/Server/SetUp.antt =====
-- `server_state_init` and `server_state_free` of common/handlers/server_states.c.
use jm_bus.Common.{ℕ, Bool, true, Option, none, some, List, if◌then◌else◌, Cmd, pure, ◌>>=◌, ◌>>◌}
use jm_bus.Clients.{
  client_list_init, client_list_add, client_list_close_connections, client_list_free,
}
use jm_bus.Cstd.{ArrayLib}
use jm_bus.HashMap.{Row, hash_map_create, hash_map_destroy}
use jm_bus.Network.{Address, Network, addr_or_default, sock_stream}
use jm_bus.Server.{ServerState}
use jm_bus.ServerInfo.{
  ServerInfo, server_handler_init, server_handler_bind_and_listen, server_handler_close,
}
use jm_bus.Sockets.{Sockets}
use jm_bus.ThreadPool.{Threads, thread_pool_create, thread_pool_destroy}

module _ {W : Type 0} (net : Network W) (lib : ArrayLib W) (threads : Threads W) where
  -- From `client_list_init` on, with the server listening.
  unfoldable pub init_parts : (ℕ → List Row) → ServerInfo → Cmd W (Option ServerState)
  init_parts initial si = do
    listed ← client_list_init lib
    elim listed [
      | none ↦ pure none
      | some clients ↦ do
        (added, clients') ← client_list_add lib clients si.socket
        if added
            then (do
              created ← hash_map_create lib 1000 initial
              elim created [
                | none ↦ pure none
                | some map ↦ do
                  pooled ← thread_pool_create lib threads 100
                  elim pooled [
                    | none ↦ pure none
                    | some pool ↦ pure (
                        some (record {
                          clients = clients';
                          server = si;
                          topics = map;
                          pool = pool;
                          running = true;
                        }))
                  ]
              ])
            else pure none
    ]

  -- The state, where the result is true. What a failure leaves is not used.
  unfoldable pub server_state_init : (ℕ → List Row) → Option Address → Cmd W (Option ServerState)
  unfolding init_parts
  server_state_init initial addr = do
    opened ← server_handler_init net (addr_or_default net addr) sock_stream 0
    elim opened [
      | none ↦ pure none
      | some si ↦ do
        listening ← server_handler_bind_and_listen net si
        if listening then init_parts initial si else pure none
    ]

  -- The server's socket, which stands in the list, is closed twice.
  unfoldable pub server_state_free : Sockets W → ServerState → Cmd W Bool
  server_state_free os s = do
    client_list_close_connections lib os s.clients
    client_list_free lib s.clients
    server_handler_close net os s.server
    hash_map_destroy lib s.topics
    thread_pool_destroy lib threads s.pool
    pure true
