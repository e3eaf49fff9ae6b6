-- ===== src/Messages/Ending.antt =====
-- The functions of common/handlers/messages.c that read and free end, on any bytes and wherever
-- memory fails.
use jm_bus.Common.{
  ℕ, ◌+◌, ◌≡◌, ap, inl, inr, Option, none, List, [], ◌∷◌, drop, leb, ◌==◌, ◌&&◌, not, if◌then◌else◌,
  Bool-cases, Option-cases, Cmd, pure, Ends, Settles-if, Ends-and_then, ◌>>=◌,
}
use jm_bus.Bytes.{convert_n_utf8_to_64bit, read_byte_array, u64}
use jm_bus.Bytes.Ending.{read_byte_array-Ends}
use jm_bus.Cstd.{Array, ArrayLib, len}
use jm_bus.Cstd.Ending.{free-Ends}
use jm_bus.Messages.{
  Message, Slot, unset, zeroed, held, byte_len, contents, read_length, free_slot, message_free,
  give_up, read_body, read_topic, messages_read,
}

module _ {W : Type 0} where
  pub contents-Ends : (s : Slot) (w : W) → Ends (contents s w)
  unfolding contents
  contents-Ends unset w = tt
  contents-Ends zeroed w = tt
  contents-Ends (held a) w = tt

  read_length-Ends : (a : Array ℕ) (at : ℕ) (w : W) → Ends (read_length a at w)
  unfolding read_length
  read_length-Ends a at w =
      elim (Option-cases (convert_n_utf8_to_64bit (drop at a.items) byte_len)) [
        | inl e ↦ rw (e, read_length) tt
        | inr (n, e) ↦ rw (e, read_length) tt
      ]

module _ {W : Type 0} (lib : ArrayLib W) where
  free_slot-Ends : (s : Slot) (w : W) → Ends (free_slot lib s w)
  unfolding free_slot
  free_slot-Ends unset w = tt
  free_slot-Ends zeroed w = tt
  free_slot-Ends (held a) w = free-Ends lib a w

  pub message_free-Ends : (m : Message) (w : W) → Ends (message_free lib m w)
  unfolding message_free
  message_free-Ends m w =
      Ends-and_then (free_slot lib m.topic w) (λ _. free_slot lib m.body) (free_slot-Ends m.topic w)
        (λ _ w'. free_slot-Ends m.body w')

  give_up-Ends : (m : Message) (w : W) → Ends (give_up lib m w)
  give_up-Ends m w =
      Ends-and_then (message_free lib m w) (λ _. pure (0, none)) (message_free-Ends m w) (λ _ _. tt)

  -- The body's copy, and what is returned behind it.
  fill_body-Ends :
      (buf : List ℕ) (body : Array ℕ) (n : ℕ) (k : Array ℕ → Cmd W (ℕ × Option Message)) (w : W)
      → body.items ≡ []
      → ((a : Array ℕ) (w' : W) → Ends (k a w'))
      → Ends (((if n == 0 then pure body else read_byte_array lib buf body) >>= k) w)
  fill_body-Ends buf body n k w empty rest =
      Ends-and_then ((if n == 0 then pure body else read_byte_array lib buf body) w) k
        (Settles-if (n == 0) (pure body) (read_byte_array lib buf body) w (λ _ _. Unit {0})
          (λ _. tt) (λ _. read_byte_array-Ends lib buf body w empty))
        rest

  read_body-Ends : (a : Array ℕ) (m : Message) (k at : ℕ) (w : W) → Ends (read_body lib a m k at w)
  unfolding read_body
  read_body-Ends a m k at w = elim (Bool-cases (leb (len a) (at + 3))) [
    | inl short ↦ rw short (give_up-Ends m w)
    | inr roomy ↦ rw roomy (
        Ends-and_then (read_length a at w) _ (read_length-Ends a at w) (λ n w₁.
          elim (Option-cases (lib.init {A = ℕ} n w₁).0) [
            | inl e ↦ rw e (give_up-Ends m (lib.init {A = ℕ} n w₁).1)
            | inr (body, e) ↦
                let w₂ = (lib.init {A = ℕ} n w₁).1 in
                let empty : body.items ≡ [] = ap (λ b. b.items) (lib.init_lem n w₁ body e) in
                rw e (elim (Bool-cases (leb (len a) (at + 4) && not (n == 0))) [
                  | inl over ↦ rw over (give_up-Ends (record m { body = held body }) w₂)
                  | inr fits ↦
                      rw fits (fill_body-Ends (drop (at + 4) a.items) body n _ w₂ empty (λ _ _. tt))
                ])
          ]))
  ]

  read_topic-Ends : (a : Array ℕ) (t : ℕ) (w : W) → Ends (read_topic lib a t w)
  unfolding read_topic
  read_topic-Ends a t w = elim (Bool-cases (leb (len a) 4)) [
    | inl short ↦ rw short tt
    | inr roomy ↦ rw roomy (
        Ends-and_then (read_length a 1 w) _ (read_length-Ends a 1 w) (λ n w₁.
          let local : Message = record { topic = unset; body = unset; type = t } in
          let w₂ = (lib.init {A = ℕ} n w₁).1 in
          elim (Option-cases (lib.init {A = ℕ} n w₁).0) [
            | inl e ↦ rw e (give_up-Ends local w₂)
            | inr (topic, e) ↦
                let empty : topic.items ≡ [] = ap (λ b. b.items) (lib.init_lem n w₁ topic e) in
                rw e (elim (Bool-cases (leb (len a) 5)) [
                  | inl over ↦ rw over (give_up-Ends (record local { topic = held topic }) w₂)
                  | inr more ↦ rw more (
                      Ends-and_then (read_byte_array lib (drop 5 a.items) topic w₂) _
                        (read_byte_array-Ends lib (drop 5 a.items) topic w₂ empty)
                        (λ b w₃.
                          read_body-Ends a (record local { topic = held b }) n (u64 (5 + n)) w₃))
                ])
          ]))
  ]

  pub messages_read-Ends : (a : Array ℕ) (w : W) → Ends (messages_read lib a w)
  unfolding messages_read
  messages_read-Ends a w = by_items a.items
    where
      by_items :
          (l : List ℕ)
          → Ends (
              (elim l as (λ _. Cmd W (ℕ × Option Message)) [
                | [] ↦ pure (0, none)
                | type ∷ _ ↦ read_topic lib a type
              ])
                w)
      by_items [] = tt
      by_items (t ∷ l) = read_topic-Ends a t w
