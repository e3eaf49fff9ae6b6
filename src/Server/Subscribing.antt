-- ===== src/Server/Subscribing.antt =====
-- `server_state_add_client_topic` of common/handlers/server_states.c.
use jm_bus.Common.{
  ℕ, ◌≡◌, refl, ap, ◌∙◌, true, false, some, List, [], ◌∷◌, ◌++◌, get_elem?, arith, ok,
}
use jm_bus.Clients.{ClientMetadata, client_list_get_idx}
use jm_bus.Cstd.{ArrayLib, Plenty}
use jm_bus.Cstd.Loops.{inserts}
use jm_bus.HashMap.{HashMap, find_entry}
use jm_bus.HashMap.Contents.{IsValid, entries_at, sockets}
use jm_bus.HashMap.Matching.{starts-append}
use jm_bus.HashMap.Setting.{Apart, mallocs, hash_map_set-sockets}
use jm_bus.Server.{
  ServerState, subscribed, put_metadata, add_topic, add_topic_at, server_state_add_client_topic,
}

-- The list holds a topic that begins with `topic`.
subscribed-longer :
    (topic more : List ℕ) (before after : List (List ℕ))
    → subscribed topic (before ++ (topic ++ more) ∷ after) ≡ true
unfolding subscribed
subscribed-longer topic more [] after = rw (starts-append topic more) refl
subscribed-longer topic more (t ∷ before) after =
    ground (arith, subscribed-longer topic more before after)

module _ {W : Type 0} (lib : ArrayLib W) (s : ServerState) (topic : List ℕ) (sock idx : ℕ)
    (md : ClientMetadata) (w : W) where
  -- A client of the list that has subscribed to a topic which begins with this one, and may be
  -- longer: `server_state_add_client_topic` returns true and registers nothing.
  pub subscribe_prefix_dropped :
      (more : List ℕ) (before after : List (List ℕ))
      → client_list_get_idx s.clients sock ≡ some idx
      → get_elem? s.clients.metadata.items idx ≡ some md
      → md.topics.items ≡ before ++ (topic ++ more) ∷ after
      → server_state_add_client_topic lib s topic sock w ≡ ok (true, s) w
  unfolding server_state_add_client_topic
  subscribe_prefix_dropped more before after found at_md items =
      let known : subscribed topic md.topics.items ≡ true =
        ap (subscribed topic) items ∙ subscribed-longer topic more before after in
      rw found (unfold add_topic_at in rw (at_md, known) refl)

  -- While memory lasts and the map is valid, a client of the list with no topic that begins with
  -- the new one is subscribed: the topic joins its own list, the client comes last among the
  -- topic's sockets, and what is found under the topics that are no start of the new one, and have
  -- it as no start, stays.
  pub subscribe_registers :
      Plenty lib
      → IsValid s.topics
      → client_list_get_idx s.clients sock ≡ some idx
      → get_elem? s.clients.metadata.items idx ≡ some md
      → subscribed topic md.topics.items ≡ false
      → (md' : ClientMetadata) × (map' : HashMap) × (w' : W) × (server_state_add_client_topic lib s
            topic sock w
          ≡ ok (true, record (put_metadata s idx md') { topics = map' }) w')
        × (md'.topics.items ≡ md.topics.items ++ topic ∷ [])
        × IsValid map'
        × (sockets map' topic ≡ sockets s.topics topic ++ sock ∷ [])
        × ((q : List ℕ)
            → Apart q topic
            → find_entry q (entries_at map' q) ≡ find_entry q (entries_at s.topics q))
  unfolding server_state_add_client_topic
  subscribe_registers plenty valid found at_md fresh_topic =
      let w₁ = (lib.malloc w).1 in
      let good = inserts lib plenty md.topics topic w₁ in
      let w₂ = (lib.insert md.topics topic w₁).1 in
      let (map', w₃, run, valid', listed, others) =
        hash_map_set-sockets lib plenty s.topics topic sock w₂ valid in
      (
        record { topics = (lib.insert md.topics topic w₁).0.1 },
        map',
        w₃,
        rw found (
            unfold add_topic_at add_topic in
            rw (at_md, fresh_topic, mallocs lib plenty w, good, run) refl),
        (lib.insert_true md.topics topic w₁ good).0,
        valid',
        listed,
        others,
      )
