-- ===== src/Client.antt =====
-- common/handlers/client.c: what an application calls. `struct client` is of common/types/client.h.
pub mod Exchange
use jm_bus.Common.{
  ℕ, Bool, true, false, Option, none, some, List, [], ◌∷◌, length, ◌||◌, ◌==◌, if◌then◌else◌, Cmd,
  pure, call, ◌>>=◌, ◌>>◌,
}
use jm_bus.Bytes.{str_to_byte_array}
use jm_bus.Cstd.{Array, ArrayLib}
use jm_bus.Messages.{
  Message, held, zeroed, connection_type, subscribe_type, publish_type, message_free,
}
use jm_bus.Messages.Receive.{message_array_generate_from_client}
use jm_bus.Network.{Address, Network, addr_or_default, sock_stream}
use jm_bus.Sockets.{Sockets, prepare_and_send_message}

pub record Client : Type 0 where
  pub socket : ℕ
  pub addr : Address

-- The `for` loop over the messages that answer a connection.
unfoldable pub is_greeted : List Message → Bool
is_greeted [] = false
is_greeted (m ∷ ms) = (m.type == connection_type) || is_greeted ms

module _ {W : Type 0} (os : Sockets W) (net : Network W) (lib : ArrayLib W) where
  -- `gone`: what is read of a `message_array` that could not be made or was freed, which the
  -- template decides.
  abbrev pub array_or : Cmd W (Array Message) → Option (Array Message) → Cmd W (Array Message)
  array_or gone none = gone
  array_or gone (some msgs) = pure msgs

  unfoldable pub client_init : Option Address → Cmd W (Option Client)
  client_init addr = do
    let chosen = addr_or_default net addr
    opened ← call (net.socket chosen.sin_family sock_stream 0)
    elim opened [
      | none ↦ pure none
      | some sock ↦ pure (some (record { socket = sock; addr = chosen }))
    ]

  unfoldable pub client_read_messages : Cmd W (Array Message) → Client → Cmd W (Array Message)
  client_read_messages gone c = do
    made ← message_array_generate_from_client os lib c.socket
    array_or gone made

  -- The messages are not freed.
  unfoldable pub client_connect : Cmd W (Array Message) → Client → Cmd W Bool
  unfolding client_read_messages
  client_connect gone c = do
    connected ← call (net.connect c.socket c.addr)
    if connected
        then (do
          msgs ← client_read_messages gone c
          if length msgs.items == 0 then pure false else pure (is_greeted msgs.items))
        else pure false

  -- A topic whose message is not sent is not freed.
  unfoldable pub client_subscribe : Client → List ℕ → Cmd W Bool
  client_subscribe c topic = do
    made ← str_to_byte_array lib topic
    elim made [
      | none ↦ pure false
      | some bytes ↦ do
        let msg : Message = record { topic = held bytes; body = zeroed; type = subscribe_type }
        sent ← prepare_and_send_message os lib c.socket msg
        if sent then (message_free lib msg >> pure true) else pure false
    ]

  unfoldable pub client_publish : Client → List ℕ → Array ℕ → Cmd W Bool
  client_publish c topic msg = do
    made ← str_to_byte_array lib topic
    elim made [
      | none ↦ pure false
      | some bytes ↦ do
        let buf : Message = record { topic = held bytes; body = held msg; type = publish_type }
        sent ← prepare_and_send_message os lib c.socket buf
        if sent then (lib.free bytes >> pure true) else (lib.free bytes >> pure false)
    ]

  unfoldable pub client_free : Client → Cmd W Bool
  client_free c = do call (os.close c.socket); pure true
