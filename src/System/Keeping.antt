-- ===== src/System/Keeping.antt =====
-- What the running server keeps: each property of its state that the changes of its state keep.
use mathlib.Core.Path.{subst}
use jm_bus.Common.{ℕ, ◌≡◌, sym, true, false, some, List, get_elem?, All, All-get, Cmd, Yields-ok}
use jm_bus.Clients.{PollFd}
use jm_bus.Connections.{handle_message}
use jm_bus.Connections.Keeping.{HoldingMarks, handle_message-keeps, visit-keeps}
use jm_bus.Connections.Laws.{Names, Laws}
use jm_bus.Connections.Polling.{visit}
use jm_bus.Cstd.{Array, ArrayLib}
use jm_bus.Messages.{Message}
use jm_bus.Server.{ServerState, server_state_remove_client}
use jm_bus.Sockets.{Sockets}
use jm_bus.System.{
  System, SameFds, with_revents, with_job, Step, polls as step_polls, visits, removes, handles,
  finishes, passes, Reach, start, later,
}
use jm_bus.ThreadPool.{Event, Job, Threads}

-- The changes that are made by `poll` and by the threads of the pool.
pub record Turns {W : Type 0} (lib : ArrayLib W) (P : ServerState → Type 0) (Client : ℕ → Type 0)
    (Topic : List ℕ → Type 0) : Type 0 where
  pub polled :
      (s : ServerState) (fds : List PollFd)
      → P s
      → SameFds s.clients.fds.items fds
      → P (with_revents s fds)
  pub handed :
      (s : ServerState) (i k from : ℕ) (job : Job) (event : Event) (msg : Message)
      → P s
      → get_elem? s.pool.items i ≡ some job
      → job.event ≡ some event
      → event.from ≡ some from
      → get_elem? event.msgs.items k ≡ some msg
      → Client from × Names lib Topic msg
  pub finished :
      (s : ServerState) (i : ℕ) (job : Job)
      → P s
      → get_elem? s.pool.items i ≡ some job
      → P (with_job s i (record job { occupied = false }))

module _ {W : Type 0} (P : ServerState → Type 0) (Client : ℕ → Type 0) where
  -- The property holds, and only clients are marked for removal.
  pub record Held (s : System W) : Type 0 where
    pub state_holds : P s.state
    pub marks : All Client s.marked.items

module _ {W : Type 0} (os : Sockets W) (lib : ArrayLib W) (threads : Threads W)
    (gone : Cmd W (Array Message)) (P : ServerState → Type 0) (Client : ℕ → Type 0)
    (Topic : List ℕ → Type 0) (Received : Array Message → Type 0)
    (laws : Laws os lib threads gone P Client Topic Received)
    (turns : Turns lib P Client Topic) where
  Step-Held : {s t : System W} → Step os lib threads gone s t → Held P Client s → Held P Client t
  Step-Held {s} (step_polls fds marked alike none_marked e) h =
      subst (Held P Client) (sym e) (record {
        state_holds = turns.polled s.state fds h.state_holds alike;
        marks = rw none_marked tt;
      })
  Step-Held {s} (visits i p marked state w here run e) h =
      let (marks, kept) =
        Yields-ok (visit os lib threads gone s.marked s.state p s.world)
          (HoldingMarks os lib threads gone P Client Topic Received laws) (marked, state) w
          (visit-keeps os lib threads gone P Client Topic Received laws s.marked s.state p s.world
            (h.marks, h.state_holds))
          run in
      subst (Held P Client) (sym e) (record { state_holds = kept; marks = marks })
  Step-Held {s} (removes i fd state w here run e) h =
      let client = All-get Client s.marked.items i fd h.marks here in
      let kept =
        Yields-ok (server_state_remove_client os lib s.state fd s.world) (λ r _. P r.1)
          (true, state) w (laws.leaves s.state fd s.world h.state_holds client) run in
      subst (Held P Client) (sym e) (record { state_holds = kept; marks = h.marks })
  Step-Held {s} (handles i k from job event msg state w here has_event comes held run e) h =
      let (client, named) =
        turns.handed s.state i k from job event msg h.state_holds here has_event comes held in
      let kept =
        Yields-ok (handle_message os lib s.state from msg s.world) (λ s' _. P s') state w
          (handle_message-keeps os lib threads gone P Client Topic Received laws s.state from msg
            s.world h.state_holds client named)
          run in
      subst (Held P Client) (sym e) (record { state_holds = kept; marks = h.marks })
  Step-Held {s} (finishes i job here e) h =
      subst (Held P Client) (sym e)
        (record { state_holds = turns.finished s.state i job h.state_holds here; marks = h.marks })
  Step-Held {s} (passes w e) h =
      subst (Held P Client) (sym e) (record { state_holds = h.state_holds; marks = h.marks })

  pub Reach-Held :
      {s t : System W} → Reach os lib threads gone s t → Held P Client s → Held P Client t
  Reach-Held start h = h
  Reach-Held (later r step) h = Step-Held step (Reach-Held r h)
