-- ===== src/Traffic/Served.antt =====
-- Who gets a message that the running server publishes.
use jm_bus.Common.{
  ℕ, ◌<◌, ◌≡◌, Bool, some, List, ◌++◌, All, get_elem?, if◌then◌else◌, ◌==◌, ok, Cmd, Option,
}
use jm_bus.Bytes.{u8}
use jm_bus.Clients.{PollFd, ClientMetadata}
use jm_bus.Clients.Keeping.{polls}
use jm_bus.Connections.{publish_message}
use jm_bus.Connections.Delivery.{others}
use jm_bus.Cstd.{Array, ArrayLib, Plenty, fresh}
use jm_bus.HashMap.{Row}
use jm_bus.HashMap.Contents.{sockets}
use jm_bus.HashMap.Unlisting.{listed}
use jm_bus.Messages.{Message}
use jm_bus.Messages.Frames.{frame, Holds}
use jm_bus.Network.{Address, Network}
use jm_bus.Server.{ServerState, subscribed}
use jm_bus.Server.Agreement.{Separate}
use jm_bus.Server.SetUp.{server_state_init}
use jm_bus.Sockets.{Sockets}
use jm_bus.Strings.{c_string}
use jm_bus.System.{System, Reach}
use jm_bus.System.Served.{Polite, Blank, Reach-Agreed, Begun-Serving}
use jm_bus.System.Start.{Sized, server_state_init-Begun}
use jm_bus.ThreadPool.{Threads}
use jm_bus.Traffic.{Log, to_each, Silent, Logged}
use jm_bus.Traffic.Members.{publish_logs, publish_reaches}

module _ {W : Type 0} (os : Sockets W) (net : Network W) (lib : ArrayLib W) (threads : Threads W)
    (gone : Cmd W (Array Message)) (plenty : Plenty lib) (log : W → Log) (logged : Logged os log)
    (silent : Silent lib log) (Used : List ℕ → Type 0) (separate : Separate Used)
    (polite : Polite lib Used os gone) where
  -- A server that `server_state_init` has set up, with an empty row for each cell of its map and
  -- memory that suffices, on a platform that takes and records every send, and with clients whose
  -- subscriptions, as the server reads them, are to topics of which none is the start of another:
  -- in every state that it reaches by turns of the main thread and the threads of the pool, in any
  -- order, where a visited descriptor, a removed client and a handled message are one turn each
  -- and no other turn overlaps it, publishing a message on such a topic sends its frame to polled
  -- sockets only, and to a client whose socket no other descriptor has once if it has subscribed
  -- and is not the sender, and not at all if it has not or is.
  pub serving_publishes :
      (initial : ℕ → List Row) (addr : Option Address) (w w' : W) (s : ServerState) (t : System W)
      (from i : ℕ) (p : PollFd) (md : ClientMetadata) (msg : Message) (topic body : List ℕ)
      → Sized initial
      → Blank initial
      → server_state_init net lib threads initial addr w ≡ ok (some s) w'
      → Reach os lib threads gone (record { state = s; marked = fresh 10; world = w' }) t
      → Used (c_string topic)
      → Holds msg.topic topic
      → Holds msg.body body
      → get_elem? t.state.clients.fds.items i ≡ some p
      → get_elem? t.state.clients.metadata.items i ≡ some md
      → polls p.fd t.state.clients ≡ 1
      → (b : Bool) × (v : W) × (socks : List ℕ) × (publish_message os lib t.state from msg t.world
          ≡ ok b v)
        × (log v ≡ log t.world ++ to_each (frame (u8 msg.type) topic body) socks)
        × All (λ u. 0 < polls u t.state.clients) socks
        × (listed p.fd socks ≡ (
            if from == p.fd
            then 0
            else if subscribed (c_string topic) md.topics.items
            then 1
            else 0))
  serving_publishes initial addr w w' s t from i p md msg topic body sized blank begun reach
        used_topic topic_set body_set at_p at_md alone =
      let serving =
        Begun-Serving lib Used initial s.server s sized blank
          (server_state_init-Begun net lib threads plenty initial addr w w' s begun) in
      let g = Reach-Agreed os lib plenty threads gone Used separate polite reach serving in
      let (b, v, sent, more) =
        publish_logs os lib plenty log logged silent t.state from msg topic body t.world g.valid
          topic_set body_set in
      let (polled_all, once) =
        publish_reaches os lib plenty log logged silent Used t.state from i p md (c_string topic)
          separate g used_topic at_p at_md alone in
      (b, v, others from (sockets t.state.topics (c_string topic)), sent, more, polled_all, once)
