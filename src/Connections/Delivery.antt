-- ===== src/Connections/Delivery.antt =====
-- To whom `publish_message` of common/handlers/connections.c sends.
use jm_bus.Common.{
  ℕ, ◌≡◌, refl, ap, ◌⊎◌, inl, inr, true, false, Bool-cases, ◌==◌, if◌then◌else◌, Option, none, some,
  List, [], ◌∷◌, Run, ok, fault, exits, out_of_fuel, Cmd, pure, ◌>>=◌, ◌>>◌, and_then,
}
use jm_bus.Cstd.{ArrayLib, Plenty}
use jm_bus.HashMap.{Entry, value_of, find_entry}
use jm_bus.HashMap.Contents.{IsValid, entries_at, hash_map_get_lem}
use jm_bus.HashMap.Setting.{mallocs}
use jm_bus.Messages.{Message, message_get_topic}
use jm_bus.Messages.Frames.{Holds, contents_lem}
use jm_bus.Server.{ServerState}
use jm_bus.Sockets.{Sockets, prepare_and_send_message}
use jm_bus.Strings.{c_string}
use jm_bus.Connections.{send_each, publish_to, publish_message}

-- All sockets of the list but the sender's.
abbrev pub others : ℕ → List ℕ → List ℕ
others from [] = []
others from (sock ∷ socks) = if sock == from then others from socks else sock ∷ others from socks

module _ {W : Type 0} (os : Sockets W) (lib : ArrayLib W) where
  -- The message to each socket in turn.
  unfoldable pub send_to : Message → List ℕ → Cmd W (Unit {0})
  send_to msg [] = pure tt
  send_to msg (sock ∷ socks) = do prepare_and_send_message os lib sock msg; send_to msg socks

  run_cong :
      {A B : Type 0} (r : Run W A) (f g : A → Cmd W B)
      → ((a : A) (w : W) → f a w ≡ g a w)
      → and_then r f ≡ and_then r g
  run_cong (ok a w) f g h = h a w
  run_cong (fault e) f g h = refl
  run_cong (exits n) f g h = refl
  run_cong out_of_fuel f g h = refl

  and_then_cong :
      {A B : Type 0} (m : Cmd W A) (f g : A → Cmd W B) (w : W)
      → ((a : A) (w' : W) → f a w' ≡ g a w')
      → (m >>= f) w ≡ (m >>= g) w
  and_then_cong m f g w h = run_cong (m w) f g h

  send_each-others :
      (from : ℕ) (msg : Message) (socks : List ℕ) (w : W)
      → send_each os lib from msg socks w ≡ send_to msg (others from socks) w
  unfolding send_each send_to
  send_each-others from msg [] w = refl
  send_each-others from msg (sock ∷ socks) w = elim (Bool-cases (sock == from)) [
    | inl e ↦ rw e (send_each-others from msg socks w)
    | inr e ↦ rw e (
        and_then_cong (prepare_and_send_message os lib sock msg)
          (λ _. send_each os lib from msg socks) (λ _. send_to msg (others from socks)) w
          (λ _ w'. send_each-others from msg socks w'))
  ]

  pub get_topic :
      (msg : Message) (topic : List ℕ) (w : W)
      → Plenty lib
      → Holds msg.topic topic
      → message_get_topic lib msg w ≡ ok (c_string topic) (lib.malloc w).1
  unfolding message_get_topic
  get_topic msg topic w plenty set =
      rw (contents_lem msg.topic topic w set, mallocs lib plenty w) refl

  publish_to_lem :
      (from : ℕ) (msg : Message) (found : Option Entry) (w : W)
      → ((found ≡ none) × (publish_to os lib from msg (value_of found) w ≡ ok false w))
        ⊎ ((e : Entry) × (found ≡ some e)
            × (publish_to os lib from msg (value_of found) w
                ≡ (send_to msg (others from e.value.items) >> pure true) w))
  unfolding publish_to
  publish_to_lem from msg none w = inl (refl, refl)
  publish_to_lem from msg (some e) w =
      inr
        (e, refl, ap (λ r. and_then r (λ _. pure true)) (send_each-others from msg e.value.items w))

  publish_message_found :
      (s : ServerState) (from : ℕ) (msg : Message) (topic : List ℕ) (w : W)
      → Plenty lib
      → IsValid s.topics
      → Holds msg.topic topic
      → publish_message os lib s from msg w
        ≡ publish_to os lib from msg
            (value_of (find_entry (c_string topic) (entries_at s.topics (c_string topic))))
            (lib.malloc w).1
  unfolding publish_message
  publish_message_found s from msg topic w plenty valid set =
      rw
        (
          get_topic msg topic w plenty set,
          hash_map_get_lem s.topics (c_string topic) (lib.malloc w).1 valid,
        )
        refl

  -- `publish_message` sends the message to the sockets of the entry found under its topic, in
  -- their order and without the sender, and to no other; it is true. With no entry it is false,
  -- and nothing is sent. The memory suffices, the map is valid, and the message holds a topic.
  pub publish_message-others :
      (s : ServerState) (from : ℕ) (msg : Message) (topic : List ℕ) (w : W)
      → Plenty lib
      → IsValid s.topics
      → Holds msg.topic topic
      → ((find_entry (c_string topic) (entries_at s.topics (c_string topic)) ≡ none)
          × (publish_message os lib s from msg w ≡ ok false (lib.malloc w).1))
        ⊎ ((e : Entry) × (find_entry (c_string topic) (entries_at s.topics (c_string topic))
              ≡ some e)
            × (publish_message os lib s from msg w
                ≡ (send_to msg (others from e.value.items) >> pure true) (lib.malloc w).1))
  publish_message-others s from msg topic w plenty valid set =
      rw (publish_message_found s from msg topic w plenty valid set) (
        publish_to_lem from msg (find_entry (c_string topic) (entries_at s.topics (c_string topic)))
          (lib.malloc w).1)
