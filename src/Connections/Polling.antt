-- ===== src/Connections/Polling.antt =====
-- `process_poll_events` of common/handlers/connections.c, and the loop of server/main.c around it.
use jm_bus.Common.{
  ℕ, zero, suc, ◌+◌, ◌*◌, ◌/◌, ◌%◌, ◌^◌, Bool, ◌||◌, Option, none, some, List, [], ◌∷◌, length,
  get_elem?, if◌then◌else◌, ◌==◌, Cmd, fault, exits, uninitialised, out_of_fuel, pure, call, ◌>>=◌,
  ◌>>◌,
}
use jm_bus.Clients.{PollFd}
use jm_bus.Connections.{accept_messages}
use jm_bus.Cstd.{Array, ArrayLib, len}
use jm_bus.Messages.{Message}
use jm_bus.Messages.Receive.{message_array_generate_from_client, message_array_free_list}
use jm_bus.Server.{ServerState, server_state_remove_client}
use jm_bus.Sockets.{Sockets}
use jm_bus.ThreadPool.{Threads, thread_pool_start_job}

-- `revents & (1 << k)`
abbrev pub has_bit : ℕ → ℕ → Bool
has_bit v k = (v / 2 ^ k % 2) == 1

-- The bits of `POLLIN`, `POLLERR`, `POLLHUP` and `POLLNVAL`.
abbrev pub bit_in : ℕ
bit_in = 0

abbrev pub bit_err : ℕ
bit_err = 3

abbrev pub bit_hup : ℕ
bit_hup = 4

abbrev pub bit_nval : ℕ
bit_nval = 5

module _ {W : Type 0} (os : Sockets W) (lib : ArrayLib W) (threads : Threads W)
    (gone : Cmd W (Array Message)) where
  -- `int_array_insert(&marked, fd)`, whose result is not looked at.
  unfoldable pub mark : Array ℕ → ServerState → ℕ → Cmd W (Array ℕ × ServerState)
  mark marked s fd = do (_, marked') ← call (lib.insert marked fd); pure (marked', s)

  -- A client with something to read. `gone` is what is read of an array that could not be made or was freed.
  unfoldable pub read_client : Array ℕ → ServerState → ℕ → Cmd W (Array ℕ × ServerState)
  unfolding mark
  read_client marked s fd = do
    made ← message_array_generate_from_client os lib fd
    msgs ← elim made [ none ↦ gone | some a ↦ pure a ]
    if length msgs.items == 0
        then (do message_array_free_list os lib msgs.items; lib.free msgs; mark marked s fd)
        else (do
          (_, pool') ←
              thread_pool_start_job lib threads s.pool (record { from = some fd; msgs = msgs })
          pure (marked, record s { pool = pool' }))

  -- One round of the loop over the descriptors.
  unfoldable pub visit : Array ℕ → ServerState → PollFd → Cmd W (Array ℕ × ServerState)
  unfolding mark read_client
  visit marked s local_c =
      if local_c.fd == s.server.socket
      then (if has_bit local_c.revents bit_in
          then (do s' ← accept_messages os lib s; pure (marked, s'))
          else pure (marked, s))
      else if has_bit local_c.revents bit_hup || has_bit local_c.revents bit_err
      then mark marked s local_c.fd
      else if has_bit local_c.revents bit_in
      then read_client marked s local_c.fd
      else if has_bit local_c.revents bit_nval
      then mark marked s local_c.fd
      else pure (marked, s)

  -- The loop from index `i` on; a client that is accepted joins the list that it runs over.
  unfoldable pub poll_loop : ℕ → ℕ → Array ℕ → ServerState → Cmd W (Array ℕ × ServerState)
  unfolding visit
  poll_loop zero i marked s = λ _. out_of_fuel
  poll_loop (suc fuel) i marked s = elim (get_elem? s.clients.fds.items i) [
    | none ↦ pure (marked, s)
    | some local_c ↦ do (marked', s') ← visit marked s local_c; poll_loop fuel (i + 1) marked' s'
  ]

  unfoldable pub remove_marked : List ℕ → ServerState → Cmd W ServerState
  remove_marked [] s = pure s
  remove_marked (fd ∷ fds) s = do
    (removed, s') ← server_state_remove_client os lib s fd
    let rest = remove_marked fds s'
    if removed then rest else (λ _. exits 1)

  -- An array `marked` that could not be made is used all the same. A round can add one client, which
  -- has nothing to poll, so two rounds for each client and a last test are enough.
  unfoldable pub process_poll_events : ServerState → Cmd W ServerState
  unfolding poll_loop remove_marked
  process_poll_events s = do
    made ← call (lib.init {A = ℕ} 10)
    elim made [
      | none ↦ λ _. fault uninitialised
      | some marked ↦ do
        (marked', s') ← poll_loop (suc (2 * len s.clients.fds)) 0 marked s
        remove_marked marked'.items s'
    ]

  -- One round of the main loop; `poll` gives the descriptors their events, or none for -1.
  unfoldable pub serve_round :
      (List PollFd → W → Option (List PollFd) × W) → ServerState → Cmd W ServerState
  serve_round poll s = do
    activity ← call (poll s.clients.fds.items)
    elim activity [
      | none ↦ λ _. exits 2
      | some fds ↦ process_poll_events (record s {
        clients = record (s.clients) { fds = record (s.clients.fds) { items = fds } };
      })
    ]
