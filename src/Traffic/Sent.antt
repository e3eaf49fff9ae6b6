-- ===== src/Traffic/Sent.antt =====
-- What common/helpers/socket.c and common/handlers/connections.c send, where every send is taken.
use mathlib.Core.Option.{some-injective}
use jm_bus.Common.{
  ℕ, ◌≡◌, refl, sym, ◌∙◌, inl, inr, true, some, List, [], ◌∷◌, ◌++◌, append_assoc, append-nil, ok,
  Yields-ok,
}
use jm_bus.Bytes.{u8}
use jm_bus.Connections.{publish_message}
use jm_bus.Connections.Delivery.{send_to, others, publish_message-others}
use jm_bus.Cstd.{ArrayLib, Plenty}
use jm_bus.HashMap.{Entry, find_entry}
use jm_bus.HashMap.Contents.{IsValid, entries_at}
use jm_bus.Messages.{Message, messages_write}
use jm_bus.Messages.Frames.{frame, Holds}
use jm_bus.Messages.Silence.{messages_write-Keeps}
use jm_bus.Messages.Writing.{messages_write-frame}
use jm_bus.Server.{ServerState}
use jm_bus.Sockets.{Sockets, send_message, prepare_and_send_message}
use jm_bus.Strings.{c_string}
use jm_bus.Traffic.{Log, to_each, Silent, Logged}

module _ {W : Type 0} (os : Sockets W) (lib : ArrayLib W) (plenty : Plenty lib) (log : W → Log)
    (logged : Logged os log) (silent : Silent lib log) where
  pub prepare_logs :
      (sock : ℕ) (msg : Message) (topic body : List ℕ) (w : W)
      → Holds msg.topic topic
      → Holds msg.body body
      → (w' : W) × (prepare_and_send_message os lib sock msg w ≡ ok true w')
        × (log w' ≡ log w ++ (sock, frame (u8 msg.type) topic body) ∷ [])
  unfolding prepare_and_send_message send_message
  prepare_logs sock msg topic body w topic_set body_set =
      let (r, w₁, run, written) =
        messages_write-frame lib plenty msg topic body w topic_set body_set in
      let same : log w₁ ≡ log w =
        Yields-ok (messages_write lib msg w) (λ _ w'. log w' ≡ log w) r w₁
          (messages_write-Keeps lib log silent msg w) run in
      elim written [
        | inl (never, _) ↦ absurd never
        | inr (a, made, items, start) ↦
            let w₂ = (os.send sock a.items w₁).1 in
            let taken = logged.taken sock a.items w₁ in
            let (w₃, freed) = lib.free_start a w₂ start in
            let quiet : log w₃ ≡ log w₂ =
              Yields-ok (lib.free a w₂) (λ _ w'. log w' ≡ log w₂) tt w₃ (silent.free_silent a w₂)
                freed in
            (
              w₃,
              rw (run, made, taken, freed) refl,
              quiet ∙ logged.recorded sock a.items w₁ ∙ rw (same, items) refl,
            )
      ]

  send_to_logs :
      (msg : Message) (topic body socks : List ℕ) (w : W)
      → Holds msg.topic topic
      → Holds msg.body body
      → (w' : W) × (send_to os lib msg socks w ≡ ok tt w')
        × (log w' ≡ log w ++ to_each (frame (u8 msg.type) topic body) socks)
  unfolding send_to
  send_to_logs msg topic body [] w topic_set body_set = (w, refl, sym (append-nil (log w)))
  send_to_logs msg topic body (sock ∷ socks) w topic_set body_set =
      let (w₁, run, one) = prepare_logs sock msg topic body w topic_set body_set in
      let (w₂, rest, more) = send_to_logs msg topic body socks w₁ topic_set body_set in
      (w₂, rw (run, rest) refl, more ∙ rw one (append_assoc (log w) _ _))

  -- With an entry under the topic.
  pub publish_logs_found :
      (s : ServerState) (from : ℕ) (msg : Message) (topic body : List ℕ) (e : Entry) (w : W)
      → IsValid s.topics
      → Holds msg.topic topic
      → Holds msg.body body
      → find_entry (c_string topic) (entries_at s.topics (c_string topic)) ≡ some e
      → (w' : W) × (publish_message os lib s from msg w ≡ ok true w')
        × (log w' ≡ log w ++ to_each (frame (u8 msg.type) topic body) (others from e.value.items))
  publish_logs_found s from msg topic body e w valid topic_set body_set found =
      let w₁ = (lib.malloc w).1 in
      elim (publish_message-others os lib s from msg topic w plenty valid topic_set) [
        | inl (missing, run) ↦ cc
        | inr (e', found', run) ↦
            let (w₂, sent, more) =
              send_to_logs msg topic body (others from e'.value.items) w₁ topic_set body_set in
            let same : e' ≡ e = some-injective _ _ (sym found' ∙ found) in
            (w₂, run ∙ rw sent refl, more ∙ rw (silent.malloc_silent w, same) refl)
      ]
