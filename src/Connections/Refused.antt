-- ===== src/Connections/Refused.antt =====
-- What a send that the system refuses does to the server, through common/helpers/socket.c.
use mathlib.Core.Option.{some-injective}
use mathlib.Core.Path.{subst}
use jm_bus.Common.{
  sym, ◌∙◌, ℕ, ◌<◌, ◌≡◌, refl, ◌⊎◌, inl, inr, true, false, some, List, [], ◌∷◌, ok, exits,
  Bool-cases, arith, ◌==◌,
}
use jm_bus.Connections.{on_publish, handle_message}
use jm_bus.Connections.Delivery.{send_to, others, publish_message-others, get_topic}
use jm_bus.Cstd.{ArrayLib, Plenty}
use jm_bus.HashMap.{Entry, find_entry}
use jm_bus.HashMap.Contents.{IsValid, entries_at}
use jm_bus.HashMap.Unlisting.{listed}
use jm_bus.Messages.{Message, publish_type, subscribe_type}
use jm_bus.Messages.Frames.{Holds}
use jm_bus.Messages.Writing.{messages_write-frame}
use jm_bus.Server.{ServerState}
use jm_bus.Sockets.{Sockets, send_message, prepare_and_send_message}
use jm_bus.Strings.{c_string}

module _ {W : Type 0} (os : Sockets W) (lib : ArrayLib W) (plenty : Plenty lib) where
  -- The system takes nothing for this socket.
  abbrev pub Refuses : ℕ → Type 0
  Refuses sock = (bytes : List ℕ) (w : W) → (os.send sock bytes w).0 ≡ false

  module _ (msg : Message) (topic body : List ℕ) (topic_set : Holds msg.topic topic)
      (body_set : Holds msg.body body) where
    -- A message goes out, or the program ends; it ends where the socket refuses.
    prepare_ends :
        (sock : ℕ) (w : W)
        → ((w' : W) × (prepare_and_send_message os lib sock msg w ≡ ok true w')
            × ((bytes : List ℕ) × (v : W) × ((os.send sock bytes v).0 ≡ true)))
          ⊎ (prepare_and_send_message os lib sock msg w ≡ exits 1)
    unfolding prepare_and_send_message send_message
    prepare_ends sock w =
        let (r, w₁, run, written) =
          messages_write-frame lib plenty msg topic body w topic_set body_set in
        elim written [
          | inl (never, _) ↦ absurd never
          | inr (a, made, items, start) ↦ elim (Bool-cases (os.send sock a.items w₁).0) [
            | inl taken ↦
                let (w₃, freed) = lib.free_start a (os.send sock a.items w₁).1 start in
                inl (w₃, rw (run, made, taken, freed) refl, (a.items, w₁, taken))
            | inr refused ↦ inr (rw (run, made, refused) refl)
          ]
        ]

    send_to-refused :
        (sock : ℕ) (socks : List ℕ) (w : W)
        → 0 < listed sock socks
        → Refuses sock
        → send_to os lib msg socks w ≡ exits 1
    unfolding send_to
    send_to-refused sock [] w there refuses = absurd (omega (arith, there))
    send_to-refused sock (first ∷ socks) w there refuses = elim (prepare_ends first w) [
      | inr ended ↦ rw ended refl
      | inl (w', run, (bytes, v, taken)) ↦ elim (Bool-cases (first == sock)) [
        | inl same ↦ absurd (
            let e : first ≡ sock = ground (arith, same) in
            let refused = refuses bytes v in let t = rw e at taken in cc)
        | inr other ↦
            let further = rw other at there in
            rw run (send_to-refused sock socks w' (omega (arith, further)) refuses)
      ]
    ]

    -- A published message in a valid map, under a topic whose entry lists a socket that is not the
    -- sender and to which the system refuses every send: while memory lasts, `handle_message` ends
    -- the server with `exit(1)`.
    pub refused_publish_exits :
        (s : ServerState) (from sock : ℕ) (e : Entry) (w : W)
        → IsValid s.topics
        → find_entry (c_string topic) (entries_at s.topics (c_string topic)) ≡ some e
        → 0 < listed sock (others from e.value.items)
        → Refuses sock
        → msg.type ≡ publish_type
        → handle_message os lib s from msg w ≡ exits 1
    unfolding handle_message on_publish
    refused_publish_exits s from sock e w valid found there refuses publishing =
        let w₁ = (lib.malloc w).1 in
        elim (publish_message-others os lib s from msg topic w₁ plenty valid topic_set) [
          | inl (missing, run) ↦ absurd cc
          | inr (e', found', run) ↦
              let same : e' ≡ e = some-injective _ _ (sym found' ∙ found) in
              let not_sub : (msg.type == subscribe_type) ≡ false = ground (arith, publishing) in
              let is_pub : (msg.type == publish_type) ≡ true = ground (arith, publishing) in
              let there' : 0 < listed sock (others from e'.value.items) =
                subst (λ k. 0 < listed sock (others from k.value.items)) (sym same) there in
              let ended =
                send_to-refused sock (others from e'.value.items) (lib.malloc w₁).1 there'
                  refuses in
              rw (get_topic os lib msg topic w plenty topic_set, not_sub, is_pub, run, ended) refl
        ]
