-- ===== src/System/Start.antt =====
-- The state that `server_state_init` of common/handlers/server_states.c leaves, and what follows
-- from it for every run of the server.
use mathlib.Core.Path.{subst}
use jm_bus.Common.{
  sym, ℕ, ◌≡◌, refl, true, if◌then◌else◌, Option, none, some, List, [], ◌∷◌, length, arith, ok, Cmd,
  pure, ◌>>=◌, Yields, Yields_after, Yields-if, Yields-ok,
}
use jm_bus.Clients.{PollFd, ClientMetadata, ClientList, client_list_init}
use jm_bus.Clients.Adding.{InStep, polled, client_list_add-InStep}
use jm_bus.Cstd.{Array, ArrayLib, Plenty, fresh}
use jm_bus.Cstd.Loops.{init-fresh}
use jm_bus.HashMap.{Row, hash_map_create}
use jm_bus.HashMap.Setting.{mallocs}
use jm_bus.Messages.{Message}
use jm_bus.Network.{Address, Network, addr_or_default, sock_stream}
use jm_bus.Server.{ServerState}
use jm_bus.Server.Keeping.{Sound}
use jm_bus.Server.SetUp.{init_parts, server_state_init}
use jm_bus.ServerInfo.{ServerInfo, server_handler_init, server_handler_bind_and_listen}
use jm_bus.Sockets.{Sockets}
use jm_bus.System.{System, Reach}
use jm_bus.System.Safety.{Safe, Reach-Safe}
use jm_bus.ThreadPool.{Job, Threads, thread_pool_create}

-- The cells of a new map are sized.
abbrev pub Sized : (ℕ → List Row) → Type 0
Sized initial = (n : ℕ) → length (initial n) ≡ n

-- What `init_parts` makes: a list that polls the server's socket alone, a map with rows as they come, and no job.
pub record Begun (initial : ℕ → List Row) (si : ServerInfo) (s : ServerState) : Type 0 where
  pub same_server : s.server ≡ si
  pub in_step : InStep s.clients
  pub polls_server : s.clients.fds.items ≡ polled si.socket ∷ []
  pub no_topics : s.clients.metadata.items ≡ record { topics = fresh 2 } ∷ []
  pub new_map : s.topics ≡ record { rows = initial 1000; cap = 1000 }
  pub no_jobs : s.pool.items ≡ []
  pub runs : s.running ≡ true

Begun-Sound :
    (initial : ℕ → List Row) (si : ServerInfo) (s : ServerState)
    → Sized initial
    → Begun initial si s
    → Sound si s
Begun-Sound initial si s sized b = record {
  same_server = b.same_server;
  polling = record { in_step = b.in_step; polled_still = rw (b.polls_server) (ground arith) };
  valid = rw (b.new_map) (record { positive = omega arith; full = sized 1000 });
  jobs = rw (b.no_jobs) tt;
}

module _ {W : Type 0} (net : Network W) (lib : ArrayLib W) (threads : Threads W)
    (plenty : Plenty lib) where
  init_parts-Begun :
      (initial : ℕ → List Row) (si : ServerInfo) (w : W)
      → (s : ServerState) × (w' : W) × (init_parts net lib threads initial si w ≡ ok (some s) w')
        × Begun initial si s
  unfolding init_parts client_list_init hash_map_create thread_pool_create
  init_parts-Begun initial si w =
      let w₁ = (lib.init {A = PollFd} 100 w).1 in
      let w₂ = (lib.init {A = ClientMetadata} 100 w₁).1 in
      let empty : ClientList = record { fds = fresh 100; metadata = fresh 100 } in
      let (cl, w₃, added, step, fds, mds) =
        client_list_add-InStep lib empty si.socket w₂ plenty refl in
      let w₄ = (lib.malloc w₃).1 in
      let w₅ = (lib.init {A = Row} 1000 w₄).1 in
      let w₆ = (lib.malloc w₅).1 in
      (
        record {
          clients = cl;
          server = si;
          topics = record { rows = initial 1000; cap = 1000 };
          pool = fresh 100;
          running = true;
        },
        (lib.init {A = Job} 100 w₆).1,
        rw
            (
              init-fresh lib plenty {A = PollFd} 100 w,
              init-fresh lib plenty {A = ClientMetadata} 100 w₁,
              added,
              mallocs lib plenty w₃,
              init-fresh lib plenty {A = Row} 1000 w₄,
              mallocs lib plenty w₅,
              init-fresh lib plenty {A = Job} 100 w₆,
            )
            refl,
        record {
          same_server = refl;
          in_step = step;
          polls_server = fds;
          no_topics = mds;
          new_map = refl;
          no_jobs = refl;
          runs = refl;
        },
      )

  abbrev Started : (ℕ → List Row) → Option ServerState → W → Type 0
  Started initial none w = Unit {0}
  Started initial (some s) w = Begun initial s.server s

  server_state_init-Started :
      (initial : ℕ → List Row) (addr : Option Address) (w : W)
      → Yields (server_state_init net lib threads initial addr w) (Started initial)
  unfolding server_state_init
  server_state_init-Started initial addr w =
      Yields_after (server_handler_init net (addr_or_default net addr) sock_stream 0 w) _
        (Started initial) (λ opened w₁. by_socket opened w₁)
    where
      by_parts :
          (si : ServerInfo) (w : W)
          → Yields (init_parts net lib threads initial si w) (Started initial)
      by_parts si w =
          let (s, w', run, begun) = init_parts-Begun initial si w in
          rw run (subst (λ k. Begun initial k s) (sym begun.same_server) begun)

      by_socket :
          (o : Option ServerInfo) (w : W)
          → Yields
              ((elim o as (λ _. Cmd W (Option ServerState)) [
                | none ↦ pure none
                | some si ↦ do
                  listening ← server_handler_bind_and_listen net si
                  if listening then init_parts net lib threads initial si else pure none
              ])
                w)
              (Started initial)
      by_socket none w = tt
      by_socket (some si) w =
          Yields_after (server_handler_bind_and_listen net si w) _ (Started initial)
            (λ b w₁. Yields-if b _ _ w₁ (Started initial) (λ _. by_parts si w₁) (λ _. tt))

  pub server_state_init-Begun :
      (initial : ℕ → List Row) (addr : Option Address) (w w' : W) (s : ServerState)
      → server_state_init net lib threads initial addr w ≡ ok (some s) w'
      → Begun initial s.server s
  server_state_init-Begun initial addr w w' s run =
      Yields-ok (server_state_init net lib threads initial addr w) (Started initial) (some s) w'
        (server_state_init-Started initial addr w) run

  -- A server that `server_state_init` has set up, with a row for each cell of its map and memory
  -- that suffices: in every state that it reaches by turns of the main thread and the threads of
  -- the pool, in any order, where a visited descriptor, a removed client and a handled message are
  -- one turn each and no other turn overlaps it, its own socket is polled and is no client to
  -- remove, each descriptor has its metadata, the map is valid, and no job holds an event of the
  -- server's socket.
  pub serving-Safe :
      (os : Sockets W) (gone : Cmd W (Array Message)) (initial : ℕ → List Row)
      (addr : Option Address) (w w' : W) (s : ServerState) (t : System W)
      → Sized initial
      → server_state_init net lib threads initial addr w ≡ ok (some s) w'
      → Reach os lib threads gone (record { state = s; marked = fresh 10; world = w' }) t
      → Safe s.server t
  serving-Safe os gone initial addr w w' s t sized begun reach =
      Reach-Safe s.server os lib plenty threads gone reach (record {
        state_holds =
            Begun-Sound initial s.server s sized
              (server_state_init-Begun initial addr w w' s begun);
        marks = tt;
      })

  -- Where memory lasts and the calls of the system on the opened socket succeed,
  -- `server_state_init` returns a running server with that socket and the address, or the default
  -- one, whose list polls that socket alone and whose pool has no job.
  pub server_state_init_lem :
      (initial : ℕ → List Row) (addr : Option Address) (w : W) (sock : ℕ)
      → (net.socket (addr_or_default net addr).sin_family sock_stream 0 w).0 ≡ some sock
      → ((v : W) → (net.setsockopt sock v).0 ≡ true)
      → ((v : W) → (net.ioctl sock v).0 ≡ true)
      → ((v : W) → (net.bind sock (addr_or_default net addr) v).0 ≡ true)
      → ((v : W) → (net.listen sock 10 v).0 ≡ true)
      → (s : ServerState) × (w' : W) × (server_state_init net lib threads initial addr w
          ≡ ok (some s) w')
        × (s.server ≡ record { addr = addr_or_default net addr; socket = sock })
        × (s.clients.fds.items ≡ polled sock ∷ [])
        × (s.pool.items ≡ [])
        × (s.running ≡ true)
  unfolding server_state_init server_handler_init server_handler_bind_and_listen
  server_state_init_lem initial addr w sock opened reused unblocked bound listens =
      let place = addr_or_default net addr in
      let v₁ = (net.socket place.sin_family sock_stream 0 w).1 in
      let v₂ = (net.setsockopt sock v₁).1 in
      let v₃ = (net.ioctl sock v₂).1 in
      let v₄ = (net.bind sock place v₃).1 in
      let v₅ = (net.listen sock 10 v₄).1 in
      let (s, w', run, begun) =
        init_parts-Begun initial (record { addr = place; socket = sock }) v₅ in
      (
        s,
        w',
        rw (opened, reused v₁, unblocked v₂, bound v₃, listens v₄) run,
        begun.same_server,
        begun.polls_server,
        begun.no_jobs,
        begun.runs,
      )
