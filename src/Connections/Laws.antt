-- ===== src/Connections/Laws.antt =====
-- What a property of the server's state needs, to be kept by the functions of common/handlers/connections.c.
use jm_bus.Common.{ℕ, ◌≡◌, true, false, none, some, List, ◌==◌, Cmd, Yields}
use jm_bus.Cstd.{Array, ArrayLib}
use jm_bus.Messages.{Message, subscribe_type, message_get_topic}
use jm_bus.Messages.Receive.{message_array_generate_from_client}
use jm_bus.Server.{
  ServerState, server_state_add_client, server_state_add_client_topic, server_state_remove_client,
}
use jm_bus.Sockets.{Sockets}
use jm_bus.ThreadPool.{Threads, thread_pool_start_job}

-- The topic of the message, if it subscribes, is one of these.
abbrev pub Names : {W : Type 0} → ArrayLib W → (List ℕ → Type 0) → Message → Type 0
Names {W} lib Topic msg =
    (w : W)
    → Yields (message_get_topic lib msg w) (λ t _. (msg.type == subscribe_type) ≡ true → Topic t)

-- `Client` and `Topic` say which sockets may leave and which topics may be subscribed to, and
-- `Received` what holds of the messages that are read.
pub record Laws {W : Type 0} (os : Sockets W) (lib : ArrayLib W) (threads : Threads W)
    (gone : Cmd W (Array Message)) (P : ServerState → Type 0) (Client : ℕ → Type 0)
    (Topic : List ℕ → Type 0) (Received : Array Message → Type 0) : Type 0 where
  pub joins :
      (s : ServerState) (sock : ℕ) (w : W)
      → P s
      → Yields (server_state_add_client lib s sock w) (λ r _. P r.1)
  pub subscribes :
      (s : ServerState) (topic : List ℕ) (sock : ℕ) (w : W)
      → P s
      → Topic topic
      → Yields (server_state_add_client_topic lib s topic sock w) (λ r _. P r.1)
  pub leaves :
      (s : ServerState) (sock : ℕ) (w : W)
      → P s
      → Client sock
      → Yields (server_state_remove_client os lib s sock w) (λ r _. P r.1)
  pub hands :
      (s : ServerState) (fd : ℕ) (msgs : Array Message) (w : W)
      → P s
      → Client fd
      → Received msgs
      → Yields
          (thread_pool_start_job lib threads s.pool (record { from = some fd; msgs = msgs }) w)
          (λ r _. P (record s { pool = r.1 }))
  pub receives :
      (fd : ℕ) (w : W)
      → Yields
          (message_array_generate_from_client os lib fd w)
          (λ o _. elim o as (λ _. Type 0) [ none ↦ Unit {0} | some a ↦ Received a ])
  pub gone_received : (w : W) → Yields (gone w) (λ a _. Received a)
  pub clients : (s : ServerState) (fd : ℕ) → P s → (fd == s.server.socket) ≡ false → Client fd
