-- ===== src/System.antt =====
-- The running server as a step relation: the main thread of server/main.c, in the loop of
-- `process_poll_events`, and the threads of the pool, in `process_messages`, take turns. A step is
-- a round of a loop: a descriptor visited, a marked client removed, a message handled. No other step
-- overlaps it, though the code holds no lock over the whole of it.
pub mod Keeping
pub mod Safety
pub mod Start
pub mod Served
use jm_bus.Common.{ℕ, ◌≡◌, Bool, true, false, Option, some, List, [], ◌∷◌, get_elem?, set, ok, Cmd}
use jm_bus.Clients.{PollFd}
use jm_bus.Connections.{handle_message}
use jm_bus.Connections.Polling.{visit}
use jm_bus.Cstd.{Array, ArrayLib}
use jm_bus.Messages.{Message}
use jm_bus.Server.{ServerState, server_state_remove_client}
use jm_bus.Sockets.{Sockets}
use jm_bus.ThreadPool.{Event, Job, Threads}

-- `marked` is the main thread's array of clients to remove.
pub record System (W : Type 0) : Type 0 where
  pub state : ServerState
  pub marked : Array ℕ
  pub world : W

-- `poll` changes nothing but the `revents` of the descriptors.
abbrev pub SameFds : List PollFd → List PollFd → Type 0
SameFds [] [] = Unit {0}
SameFds [] (q ∷ qs) = ⊥
SameFds (p ∷ ps) [] = ⊥
SameFds (p ∷ ps) (q ∷ qs) = (p.fd ≡ q.fd) × SameFds ps qs

abbrev pub with_revents : ServerState → List PollFd → ServerState
with_revents s fds = record s {
  clients = record (s.clients) { fds = record (s.clients.fds) { items = fds } };
}

abbrev pub with_job : ServerState → ℕ → Job → ServerState
with_job s i job = record s { pool = record (s.pool) { items = set s.pool.items i job } }

module _ {W : Type 0} (os : Sockets W) (lib : ArrayLib W) (threads : Threads W)
    (gone : Cmd W (Array Message)) where
  pub data Step (s t : System W) : Type 0 where
    -- the main thread returns from `poll`, with no client marked yet
    polls :
        (fds : List PollFd) (marked : Array ℕ)
        → SameFds s.state.clients.fds.items fds
        → marked.items ≡ []
        → t ≡ record s { state = with_revents s.state fds; marked = marked }
        → Step s t
    -- a round of its loop over the descriptors
    visits :
        (i : ℕ) (p : PollFd) (marked : Array ℕ) (state : ServerState) (w : W)
        → get_elem? s.state.clients.fds.items i ≡ some p
        → visit os lib threads gone s.marked s.state p s.world ≡ ok (marked, state) w
        → t ≡ record { state = state; marked = marked; world = w }
        → Step s t
    -- a round of its loop over the marked clients
    removes :
        (i fd : ℕ) (state : ServerState) (w : W)
        → get_elem? s.marked.items i ≡ some fd
        → server_state_remove_client os lib s.state fd s.world ≡ ok (true, state) w
        → t ≡ record s { state = state; world = w }
        → Step s t
    -- a round of a thread's loop over the messages of its event
    handles :
        (i k from : ℕ) (job : Job) (event : Event) (msg : Message) (state : ServerState) (w : W)
        → get_elem? s.state.pool.items i ≡ some job
        → job.event ≡ some event
        → event.from ≡ some from
        → get_elem? event.msgs.items k ≡ some msg
        → handle_message os lib s.state from msg s.world ≡ ok state w
        → t ≡ record s { state = state; world = w }
        → Step s t
    -- the thread is free again
    finishes :
        (i : ℕ) (job : Job)
        → get_elem? s.state.pool.items i ≡ some job
        → t ≡ record s { state = with_job s.state i (record job { occupied = false }) }
        → Step s t
    -- the clients, the network and the allocator
    passes : (w : W) → t ≡ record s { world = w } → Step s t

  -- What a run can come to.
  pub data Reach (s : System W) : System W → Type 0 where
    start : Reach s s
    later : {t u : System W} → Reach s t → Step t u → Reach s u
