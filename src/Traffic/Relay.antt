-- ===== src/Traffic/Relay.antt =====
-- From a publisher to the subscribers, through `process_messages` of common/handlers/connections.c.
use jm_bus.Common.{ℕ, ◌<◌, ◌≡◌, ◌==◌, refl, ◌∙◌, true, false, some, List, ◌++◌, length, ok}
use jm_bus.Connections.{on_publish, handle_message, handle_each}
use jm_bus.Connections.Delivery.{others, get_topic}
use jm_bus.Cstd.{Array, ArrayLib, Plenty}
use jm_bus.HashMap.{Entry, find_entry}
use jm_bus.HashMap.Contents.{IsValid, entries_at}
use jm_bus.Messages.{Message, bufsiz, subscribe_type, publish_type}
use jm_bus.Messages.Arrival.{generate_one_frame}
use jm_bus.Messages.Frames.{frame, Holds}
use jm_bus.Messages.Reading.{Decodes}
use jm_bus.Messages.Receive.{message_array_generate_from_client}
use jm_bus.Server.{ServerState}
use jm_bus.Sockets.{Sockets}
use jm_bus.Strings.{c_string}
use jm_bus.Traffic.{Log, to_each, Silent, Logged}
use jm_bus.Traffic.Sent.{publish_logs_found}

module _ {W : Type 0} (os : Sockets W) (lib : ArrayLib W) (plenty : Plenty lib) (log : W → Log)
    (logged : Logged os log) (silent : Silent lib log) where
  publish_handled :
      (s : ServerState) (from : ℕ) (m : Message) (topic body : List ℕ) (e : Entry) (w : W)
      → IsValid s.topics
      → Decodes m publish_type topic body
      → find_entry (c_string topic) (entries_at s.topics (c_string topic)) ≡ some e
      → (w' : W) × (handle_message os lib s from m w ≡ ok s w')
        × (log w' ≡ log w ++ to_each (frame publish_type topic body) (others from e.value.items))
  unfolding handle_message on_publish
  publish_handled s from m topic body e w valid d found =
      let topic_set : Holds m.topic topic = rw d.topic_held d.topic_read in
      let body_set : Holds m.body body = rw d.body_held d.body_read in
      let not_subscribe : (m.type == subscribe_type) ≡ false = rw d.typed refl in
      let is_publish : (m.type == publish_type) ≡ true = rw d.typed refl in
      let w₁ = (lib.malloc w).1 in
      let (w₂, run, more) =
        publish_logs_found os lib plenty log logged silent s from m topic body e w₁ valid topic_set
          body_set found in
      (
        w₂,
        rw (get_topic os lib m topic w plenty topic_set, not_subscribe, is_publish, run) refl,
        more ∙ rw (d.typed, silent.malloc_silent w) refl,
      )

  pub relay :
      (s : ServerState) (from : ℕ) (topic body : List ℕ) (e : Entry) (w : W)
      → IsValid s.topics
      → find_entry (c_string topic) (entries_at s.topics (c_string topic)) ≡ some e
      → (os.recv from bufsiz (lib.init {A = ℕ} bufsiz (lib.init {A = Message} 2 w).1).1).0
        ≡ some (frame publish_type topic body)
      → length (frame publish_type topic body) < bufsiz
      → (out : Array Message) × (w₁ : W) × (w₂ : W) × (message_array_generate_from_client os lib
            from w
          ≡ ok (some out) w₁)
        × (handle_each os lib s from out.items w₁ ≡ ok s w₂)
        × (log w₂ ≡ log w₁ ++ to_each (frame publish_type topic body) (others from e.value.items))
  unfolding handle_each
  relay s from topic body e w valid found received short =
      let (r, w₁, run, (m, out, some_out, items, d)) =
        generate_one_frame os lib plenty
          (record { type = publish_type; topic = topic; body = body }) from w received short in
      let (w₂, handled, more) = publish_handled s from m topic body e w₁ valid d found in
      (out, w₁, w₂, run ∙ rw some_out refl, rw (items, handled) refl, more)
