-- ===== src/Tests/Serving.antt =====
-- The theorems on the server's state and its connections at a state of two clients.
use jm_bus.Sockets.{Sockets}
use jm_bus.Strings.{hash_from_str}
use jm_bus.Connections.Refused.{refused_publish_exits}
use jm_bus.Common.{
  exits, if◌then◌else◌, ◌==◌, arith, ℕ, ◌≡◌, ◌⊎◌, refl, true, false, none, some, List, [], ◌∷◌,
  ◌++◌, ok, pure, ◌>>◌,
}
use jm_bus.Cstd.Ideal.{ideal, ideal-Plenty}
use jm_bus.Clients.{index_of_fd, client_list_get_idx, ClientMetadata}
use jm_bus.Clients.Adding.{InStep, polled}
use jm_bus.Connections.{publish_message, handle_message}
use jm_bus.Connections.Delivery.{send_to, others, publish_message-others}
use jm_bus.HashMap.{Entry, HashMap, find_entry}
use jm_bus.HashMap.Contents.{IsValid, entries_at, sockets}
use jm_bus.HashMap.Setting.{Apart}
use jm_bus.Messages.{Message, held}
use jm_bus.Server.{subscribed, ServerState, put_metadata, server_state_add_client_topic}
use jm_bus.Server.Subscribing.{subscribe_prefix_dropped, subscribe_registers}
use jm_bus.Strings.{c_string}
use jm_bus.Tests.Fixtures.{quiet, topic_ab, text_c, array_of}
use jm_bus.Connections.{accept_messages}
use jm_bus.Connections.Greeting.{accept_messages-greets}
use jm_bus.Connections.Subscribers.{subscribe_then_publish}
use jm_bus.Messages.{connection_type}
use jm_bus.Messages.Frames.{frame}
use jm_bus.Tests.Fixtures.{ringing}
use jm_bus.Tests.States.{
  entry_ab, map_ab, map_ab-IsValid, metadata_5, metadata_8, two_clients, state_ab, msg_ab,
}

-- A message under "c", to which nobody has subscribed yet.
abbrev msg_c : Message
msg_c = record { topic = held (array_of 1 text_c); body = held (array_of 1 text_c); type = 3 }

subscribe_prefix_dropped_example :
    server_state_add_client_topic ideal state_ab (97 ∷ []) 5 tt ≡ ok (true, state_ab) tt
subscribe_prefix_dropped_example =
    subscribe_prefix_dropped ideal state_ab (97 ∷ []) 5 0 metadata_5 tt (98 ∷ []) [] []
      (unfold client_list_get_idx in unfold index_of_fd in refl) refl refl

subscribe_registers_example :
    (md' : ClientMetadata) × (map' : HashMap) × (w' : Unit {0}) × (server_state_add_client_topic
        ideal state_ab text_c 8 tt
      ≡ ok (true, record (put_metadata state_ab 1 md') { topics = map' }) w')
    × (md'.topics.items ≡ [] ++ text_c ∷ [])
    × IsValid map'
    × (sockets map' text_c ≡ sockets map_ab text_c ++ 8 ∷ [])
    × ((q : List ℕ)
        → Apart q text_c
        → find_entry q (entries_at map' q) ≡ find_entry q (entries_at map_ab q))
subscribe_registers_example =
    subscribe_registers ideal state_ab text_c 8 1 metadata_8 tt ideal-Plenty map_ab-IsValid
      (unfold client_list_get_idx in unfold index_of_fd in refl) refl (unfold subscribed in refl)

publish_message-others_example :
    ((find_entry (c_string topic_ab) (entries_at map_ab (c_string topic_ab)) ≡ none)
      × (publish_message quiet ideal state_ab 6 msg_ab tt ≡ ok false tt))
    ⊎ ((e : Entry) × (find_entry (c_string topic_ab) (entries_at map_ab (c_string topic_ab))
          ≡ some e)
        × (publish_message quiet ideal state_ab 6 msg_ab tt
            ≡ (send_to quiet ideal msg_ab (others 6 e.value.items) >> pure true) tt))
publish_message-others_example =
    publish_message-others quiet ideal state_ab 6 msg_ab topic_ab tt ideal-Plenty map_ab-IsValid
      refl

subscribe_then_publish_example :
    (s' : ServerState) × (w' : Unit {0}) × (server_state_add_client_topic ideal state_ab
        (c_string text_c)
        8
        tt
      ≡ ok (true, s') w')
    × (publish_message quiet ideal s' 5 msg_c w'
        ≡ (send_to quiet ideal msg_c (others 5 (sockets map_ab (c_string text_c) ++ 8 ∷ []))
              >> pure true)
            tt)
subscribe_then_publish_example =
    subscribe_then_publish quiet ideal ideal-Plenty state_ab 8 1 5 metadata_8 msg_c text_c tt
      map_ab-IsValid (unfold client_list_get_idx in unfold index_of_fd in refl) refl
      (unfold subscribed in refl) refl

accept_messages-greets_example :
    (w₁ : Unit {0}) × ((((ringing.send 9 (frame connection_type [] []) w₁).0 ≡ false)
        × (accept_messages ringing ideal state_ab tt
            ≡ ok state_ab (ringing.send 9 (frame connection_type [] []) w₁).1))
      ⊎ ((s' : ServerState) × (w' : Unit {0}) × ((ringing.send 9 (frame connection_type [] []) w₁).0
            ≡ true)
          × (accept_messages ringing ideal state_ab tt ≡ ok s' w')
          × InStep s'.clients
          × (s'.clients.fds.items ≡ two_clients.fds.items ++ polled 9 ∷ [])
          × (s'.topics ≡ map_ab)))
accept_messages-greets_example =
    accept_messages-greets ringing ideal state_ab 9 tt ideal-Plenty refl refl

-- Nothing goes out to socket 5.
abbrev deaf_5 : Sockets (Unit {0})
deaf_5 = record quiet { send = λ socket bytes w. (if socket == 5 then false else true, w) }

refused_publish_exits_example : handle_message deaf_5 ideal state_ab 6 msg_ab tt ≡ exits 1
refused_publish_exits_example =
    refused_publish_exits deaf_5 ideal ideal-Plenty msg_ab topic_ab text_c refl refl state_ab 6 5
      entry_ab tt map_ab-IsValid (unfold find_entry hash_from_str in refl) (omega arith)
      (λ bytes w. refl) refl
