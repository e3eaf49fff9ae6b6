-- ===== src/Connections/Subscribers.antt =====
-- A subscription and then a publication: the two sides of common/handlers/connections.c together.
use jm_bus.Common.{
  ℕ, ◌≡◌, sym, ap, ◌∙◌, inl, inr, true, false, some, List, [], ◌∷◌, ◌++◌, get_elem?, ok, pure, ◌>>◌,
}
use jm_bus.Clients.{ClientMetadata, client_list_get_idx}
use jm_bus.Connections.{publish_message}
use jm_bus.Connections.Delivery.{send_to, others, publish_message-others}
use jm_bus.Cstd.{ArrayLib, Plenty}
use jm_bus.HashMap.Contents.{IsValid, sockets, sockets_of}
use jm_bus.Messages.{Message}
use jm_bus.Messages.Frames.{Holds}
use jm_bus.Server.{ServerState, subscribed, server_state_add_client_topic, put_metadata}
use jm_bus.Server.Subscribing.{subscribe_registers}
use jm_bus.Sockets.{Sockets}
use jm_bus.Strings.{c_string}

append-not_empty : (xs : List ℕ) (x : ℕ) → [] ≡ xs ++ x ∷ [] → ⊥
append-not_empty [] x e = cc
append-not_empty (y ∷ xs) x e = cc

module _ {W : Type 0} (os : Sockets W) (lib : ArrayLib W) (plenty : Plenty lib) where
  publish_listed :
      (s : ServerState) (from sock : ℕ) (msg : Message) (bytes old : List ℕ) (w : W)
      → IsValid s.topics
      → Holds msg.topic bytes
      → sockets s.topics (c_string bytes) ≡ old ++ sock ∷ []
      → publish_message os lib s from msg w
        ≡ (send_to os lib msg (others from (old ++ sock ∷ [])) >> pure true) (lib.malloc w).1
  publish_listed s from sock msg bytes old w valid set listed =
      elim (publish_message-others os lib s from msg bytes w plenty valid set) [
        | inl (missing, _) ↦
            absurd (append-not_empty old sock (ap sockets_of (sym missing) ∙ listed))
        | inr (e, found, run) ↦
            run
            ∙ ap (λ l. (send_to os lib msg (others from l) >> pure true) (lib.malloc w).1)
                (ap sockets_of (sym found) ∙ listed)
      ]

  -- A client of the list, with no topic that begins with the new one, subscribes to the topic of a
  -- message: while memory lasts and the map is valid that succeeds, and publishing the message
  -- from the state it leaves sends it to the sockets that were listed under the topic and then to
  -- the new one, all but the sender, and is true.
  pub subscribe_then_publish :
      (s : ServerState) (sock idx from : ℕ) (md : ClientMetadata) (msg : Message) (bytes : List ℕ)
      (w : W)
      → IsValid s.topics
      → client_list_get_idx s.clients sock ≡ some idx
      → get_elem? s.clients.metadata.items idx ≡ some md
      → subscribed (c_string bytes) md.topics.items ≡ false
      → Holds msg.topic bytes
      → (s' : ServerState) × (w' : W) × (server_state_add_client_topic lib s (c_string bytes) sock w
          ≡ ok (true, s') w')
        × (publish_message os lib s' from msg w'
            ≡ (send_to os lib msg (others from (sockets s.topics (c_string bytes) ++ sock ∷ []))
                  >> pure true)
                (lib.malloc w').1)
  subscribe_then_publish s sock idx from md msg bytes w valid found at_md fresh_topic set =
      let (md', map', w', run, _, valid', listed, _) =
        subscribe_registers lib s (c_string bytes) sock idx md w plenty valid found at_md
          fresh_topic in
      let s' = record (put_metadata s idx md') { topics = map' } in
      (
        s',
        w',
        run,
        publish_listed s' from sock msg bytes (sockets s.topics (c_string bytes)) w' valid' set
            listed,
      )
