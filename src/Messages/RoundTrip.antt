-- ===== src/Messages/RoundTrip.antt =====
-- `messages_read` after `messages_write` of common/handlers/messages.c.
use jm_bus.Common.{
  ℕ, ◌^◌, ◌<◌, ◌≡◌, sym, ap, ◌∙◌, inl, inr, some, List, [], length, arith, append-nil, ok, Returns,
}
use jm_bus.Cstd.{Array, ArrayLib, Plenty, len}
use jm_bus.Bytes.{u8}
use jm_bus.Messages.{Message, messages_read, messages_write}
use jm_bus.Messages.Frames.{frame, length-frame, Holds}
use jm_bus.Messages.Writing.{messages_write-frame}
use jm_bus.Messages.Reading.{Decodes, messages_read-frame}

-- While memory lasts, `messages_write` of a message whose fields hold a topic and a body below
-- 2^31 bytes each yields an array that `messages_read` takes whole, and reads as the type (its low
-- byte), the topic and the body that were written.
pub messages_read-messages_write :
    {W : Type 0} (lib : ArrayLib W) (plenty : Plenty lib) (msg : Message) (topic body : List ℕ)
    (w : W)
    → Holds msg.topic topic
    → Holds msg.body body
    → length topic < 2 ^ 31
    → length body < 2 ^ 31
    → (a : Array ℕ) × (w' : W) × (messages_write lib msg w ≡ ok (len a, some a) w')
      × Returns
          (messages_read lib a w')
          λ r _. (m : Message) × (r ≡ (len a, some m)) × Decodes m (u8 msg.type) topic body
messages_read-messages_write lib plenty msg topic body w topic_set body_set small_topic small_body =
    let (r, w', run, outcome) =
      messages_write-frame lib plenty msg topic body w topic_set body_set in
    elim outcome [
      | inl (never, e) ↦ absurd never
      | inr (a, e, items, start) ↦
          let size : length (frame (u8 msg.type) topic body) ≡ len a = sym (ap length items) in
          let (q, w₂, run₂, (m, e₂, d)) =
            messages_read-frame lib plenty a (u8 msg.type) topic body [] w'
              (items ∙ sym (append-nil _)) small_topic small_body
              (omega (arith, size, length-frame (u8 msg.type) topic body)) in
          (
            a,
            w',
            run ∙ ap (λ k. ok k w') (e ∙ ap (λ n. (n, some a)) size),
            (q, w₂, run₂, (m, e₂ ∙ ap (λ n. (n, some m)) size, d)),
          )
    ]
