-- ===== src/Connections.antt =====
-- common/handlers/connections.c: new connections, and what a thread does with the messages of a client.
pub mod Delivery
pub mod Greeting
pub mod Subscribers
pub mod Polling
pub mod Growing
pub mod Ending
pub mod Laws
pub mod Keeping
pub mod Refused
use Prim.Native.Char.{code}
use Prim.Native.String.{String}
use jm_bus.Common.{
  ℕ, Bool, true, false, Option, none, some, List, [], ◌∷◌, if◌then◌else◌, ◌==◌, Cmd, exits, pure,
  call, ◌>>=◌, ◌>>◌,
}
use jm_bus.Cstd.{Array, ArrayLib}
use jm_bus.HashMap.{hash_map_get}
use jm_bus.Messages.{
  Message, error_type, connection_type, subscribe_type, publish_type, message_get_topic,
  messages_gen_connection, messages_gen_error,
}
use jm_bus.Messages.Receive.{message_array_free_list}
use jm_bus.Server.{
  ServerState, server_state_add_client, server_state_add_client_topic, server_state_remove_client,
}
use jm_bus.Sockets.{Sockets, send_message, prepare_and_send_message}

-- The bytes of an ASCII text.
abbrev pub codes : String → List ℕ
codes String.[] = []
codes (String.◌∷◌ c s) = code c ∷ codes s

module _ {W : Type 0} (os : Sockets W) (lib : ArrayLib W) where
  -- The loop over the sockets of a topic; a message that cannot be built is skipped.
  unfoldable pub send_each : ℕ → Message → List ℕ → Cmd W (Unit {0})
  send_each from msg [] = pure tt
  send_each from msg (sock ∷ socks) = do
    let rest = send_each from msg socks
    if sock == from then rest else (do prepare_and_send_message os lib sock msg; rest)

  -- Behind the look-up of the topic.
  unfoldable pub publish_to : ℕ → Message → Option (Array ℕ) → Cmd W Bool
  publish_to from msg none = pure false
  publish_to from msg (some clients) = do send_each from msg clients.items; pure true

  unfoldable pub publish_message : ServerState → ℕ → Message → Cmd W Bool
  publish_message s from msg = do
    topic_name ← message_get_topic lib msg
    clients ← hash_map_get s.topics topic_name
    publish_to from msg clients

  -- An error message to the client, if it can be built.
  unfoldable pub reply_error : ℕ → List ℕ → Cmd W (Unit {0})
  reply_error sock text = do
    (written, out) ← messages_gen_error lib text
    elim out [ none ↦ pure tt | some err_msg ↦ do send_message os sock err_msg; lib.free err_msg ]

  unfoldable pub on_subscribe : ServerState → List ℕ → ℕ → Cmd W ServerState
  on_subscribe s topic_name from = do
    (done, s') ← server_state_add_client_topic lib s topic_name from
    if done then pure s' else (do reply_error from (codes "error subscribing to topic"); pure s')

  unfoldable pub on_publish : ServerState → ℕ → Message → Cmd W ServerState
  on_publish s from msg = do
    done ← publish_message s from msg
    if done
        then pure s
        else (do reply_error from (codes "error publishing message to topic"); pure s)

  -- The `switch`; a type that is none of the enumeration's has no case.
  unfoldable pub handle_message : ServerState → ℕ → Message → Cmd W ServerState
  handle_message s from msg = do
    topic_name ← message_get_topic lib msg
    if msg.type == subscribe_type
        then on_subscribe s topic_name from
        else if msg.type == publish_type
        then on_publish s from msg
        else if msg.type == error_type
        then (do (_, s') ← server_state_remove_client os lib s from; pure s')
        else pure s

  unfoldable pub handle_each : ServerState → ℕ → List Message → Cmd W ServerState
  handle_each s from [] = pure s
  handle_each s from (m ∷ ms) = do s' ← handle_message s from m; handle_each s' from ms

  -- One event of `process_messages`, from its wake-up to `occupied = false`.
  unfoldable pub process_event : ServerState → ℕ → Array Message → Cmd W ServerState
  unfolding handle_each
  process_event s from msgs = do
    s' ← handle_each s from msgs.items
    message_array_free_list os lib msgs.items
    lib.free msgs
    pure s'

  -- `buf` is set up and then overwritten by `messages_gen_connection`.
  unfoldable pub accept_messages : ServerState → Cmd W ServerState
  accept_messages s = do
    accepted ← call (os.accept s.server.socket)
    elim accepted [
      | none ↦ pure s
      | some client_sock ↦ do
        made ← call (lib.init {A = ℕ} 20)
        elim made [
          | none ↦ pure s
          | some _ ↦ do
            (written, out) ← messages_gen_connection lib
            elim out [
              | none ↦ pure s
              | some buf ↦ do
                sent ← send_message os client_sock buf
                if sent
                    then (do (_, s') ← server_state_add_client lib s client_sock; pure s')
                    else pure s
            ]
        ]
    ]
