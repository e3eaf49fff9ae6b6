-- ===== src/Programs.antt =====
-- The programs: server/main.c, client/pub/main.c and client/sub/main.c. Sleeping and printing are
-- left out.
use jm_bus.Common.{
  ℕ, zero, suc, Option, none, some, List, [], ◌∷◌, if◌then◌else◌, Cmd, fault, null_pointer,
  out_of_fuel, exits, pure, ◌>>=◌, ◌>>◌,
}
use jm_bus.Bytes.{str_to_byte_array}
use jm_bus.Bytes.Text.{byte_array_to_str}
use jm_bus.Client.{
  Client, client_init, client_connect, client_subscribe, client_publish, client_read_messages,
  client_free,
}
use jm_bus.Clients.{PollFd}
use jm_bus.Connections.Polling.{serve_round}
use jm_bus.Cstd.{Array, ArrayLib}
use jm_bus.HashMap.{Row}
use jm_bus.Messages.{Slot, Message, contents, message_free}
use jm_bus.Network.{Network}
use jm_bus.Server.{ServerState}
use jm_bus.Server.SetUp.{server_state_init, server_state_free}
use jm_bus.Sockets.{Sockets}
use jm_bus.ThreadPool.{Threads}

-- "test_topic" and "This is a test message"
abbrev pub test_topic : List ℕ
test_topic = 116 ∷ 101 ∷ 115 ∷ 116 ∷ 95 ∷ 116 ∷ 111 ∷ 112 ∷ 105 ∷ 99 ∷ []

abbrev pub test_message : List ℕ
test_message =
    84 ∷ 104 ∷ 105 ∷ 115 ∷ 32 ∷ 105 ∷ 115 ∷ 32 ∷ 97 ∷ 32 ∷ 116 ∷ 101 ∷ 115 ∷ 116 ∷ 32 ∷ 109 ∷ 101
    ∷ 115 ∷ 115 ∷ 97 ∷ 103 ∷ 101 ∷ []

module _ {W : Type 0} (os : Sockets W) (net : Network W) (lib : ArrayLib W)
    (gone : Cmd W (Array Message)) where
  -- What both clients begin with.
  unfoldable pub joined_client : Cmd W Client
  joined_client = do
    made ← client_init os net lib none
    elim made [
      | none ↦ λ _. exits 1
      | some c ↦ do
        connected ← client_connect os net lib gone c
        if connected
            then (do
              subscribed ← client_subscribe os net lib c test_topic
              if subscribed then pure c else (λ _. exits 1))
            else (λ _. exits 1)
    ]

  unfoldable pub publish_main : Cmd W ℕ
  unfolding joined_client
  publish_main = do
    c ← joined_client
    made ← str_to_byte_array lib test_message
    elim made [
      | none ↦ λ _. exits 1
      | some msg ↦ do
        published ← client_publish os net lib c test_topic msg
        if published then (do lib.free msg; client_free os net lib c; pure 0) else (λ _. exits 1)
    ]

  -- A field as a string, to be printed.
  unfoldable pub show_field : Slot → Cmd W (Unit {0})
  show_field field = do
    bytes ← contents field
    text ← byte_array_to_str lib bytes
    elim text [ none ↦ λ _. fault null_pointer | some s ↦ pure tt ]

  unfoldable pub show_each : List Message → Cmd W (Unit {0})
  unfolding show_field
  show_each [] = pure tt
  show_each (m ∷ ms) = do show_field m.topic; show_field m.body; message_free lib m; show_each ms

  unfoldable pub subscribe_main : Cmd W ℕ
  unfolding joined_client show_each
  subscribe_main = do
    c ← joined_client
    msgs ← client_read_messages os net lib gone c
    show_each msgs.items
    lib.free msgs
    client_free os net lib c
    pure 0

  module _ (threads : Threads W) (poll : List PollFd → W → Option (List PollFd) × W) where
    -- The main loop, for so many rounds; nothing that it calls clears `running`.
    unfoldable pub serve : ℕ → ServerState → Cmd W ServerState
    serve zero s = λ _. out_of_fuel
    serve (suc rounds) s =
        if s.running
        then (do s' ← serve_round os lib threads gone poll s; serve rounds s')
        else pure s

    unfoldable pub server_main : (ℕ → List Row) → ℕ → Cmd W ℕ
    unfolding serve
    server_main initial rounds = do
      made ← server_state_init net lib threads initial none
      elim made [
        | none ↦ λ _. exits 1
        | some s ↦ do
          s' ← serve rounds s
          freed ← server_state_free net lib threads os s'
          if freed then pure 0 else (λ _. exits 3)
      ]
