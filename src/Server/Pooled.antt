-- ===== src/Server/Pooled.antt =====
-- The calls of common/handlers/server_states.c that change clients and topics leave the thread pool as it is.
use jm_bus.Common.{
  ℕ, ◌≡◌, refl, Bool, Option, none, some, List, get_elem?, Yields, Yields_after, Yields-if,
  in_bounds,
}
use jm_bus.Clients.{
  ClientMetadata, client_list_get_idx, client_list_add, client_list_remove, index_of_fd,
}
use jm_bus.Cstd.{ArrayLib}
use jm_bus.HashMap.{hash_map_set}
use jm_bus.Server.{
  ServerState, subscribed, add_topic, add_topic_at, server_state_add_client_topic,
  server_state_add_client, forget_topics, remove_client_at, server_state_remove_client,
}
use jm_bus.Sockets.{Sockets}
use jm_bus.ThreadPool.{Pool}

abbrev pub SamePool : {W : Type 0} → Pool → Bool × ServerState → W → Type 0
SamePool pool r w = r.1.pool ≡ pool

module _ {W : Type 0} (lib : ArrayLib W) where
  pub add_client-SamePool :
      (s : ServerState) (sock : ℕ) (w : W)
      → Yields (server_state_add_client lib s sock w) (SamePool s.pool)
  unfolding server_state_add_client
  add_client-SamePool s sock w =
      Yields_after (client_list_add lib s.clients sock w) _ (SamePool s.pool) (λ r w₁. refl)

  add_topic-SamePool :
      (s : ServerState) (idx sock : ℕ) (md : ClientMetadata) (topic : List ℕ) (w : W)
      → Yields (add_topic lib s idx md topic sock w) (SamePool s.pool)
  unfolding add_topic
  add_topic-SamePool s idx sock md topic w =
      let w₁ = (lib.malloc w).1 in
      let w₂ = (lib.insert md.topics topic w₁).1 in
      Yields-if (lib.malloc w).0 _ _ w₁ (SamePool s.pool)
        (λ _.
          Yields-if (lib.insert md.topics topic w₁).0.0 _ _ w₂ (SamePool s.pool)
            (λ _.
              Yields_after (hash_map_set lib s.topics topic sock w₂) _ (SamePool s.pool)
                (λ r w₃. refl))
            (λ _. refl))
        (λ _. tt)

  pub add_client_topic-SamePool :
      (s : ServerState) (topic : List ℕ) (sock : ℕ) (w : W)
      → Yields (server_state_add_client_topic lib s topic sock w) (SamePool s.pool)
  unfolding server_state_add_client_topic add_topic_at
  add_client_topic-SamePool s topic sock w = at_index (client_list_get_idx s.clients sock)
    where
      at_index : (o : Option ℕ) → Yields (add_topic_at lib s o topic sock w) (SamePool s.pool)
      at_index none = tt
      at_index (some idx) =
          Yields_after (in_bounds (get_elem? s.clients.metadata.items idx) w) _ (SamePool s.pool)
            (λ md w₁.
              Yields-if (subscribed topic md.topics.items) _ _ w₁ (SamePool s.pool) (λ _. refl)
                (λ _. add_topic-SamePool s idx sock md topic w₁))

  pub remove_client-SamePool :
      (os : Sockets W) (s : ServerState) (sock : ℕ) (w : W)
      → Yields (server_state_remove_client os lib s sock w) (SamePool s.pool)
  unfolding server_state_remove_client remove_client_at
  remove_client-SamePool os s sock w = at_index (index_of_fd sock s.clients.fds.items)
    where
      at_index : (o : Option ℕ) → Yields (remove_client_at os lib s o sock w) (SamePool s.pool)
      at_index none = refl
      at_index (some idx) =
          Yields_after (in_bounds (get_elem? s.clients.metadata.items idx) w) _ (SamePool s.pool)
            (λ md w₁.
              Yields_after (forget_topics s.topics md.topics.items sock w₁) _ (SamePool s.pool)
                (λ f w₂.
                  Yields-if f.0 _ _ w₂ (SamePool s.pool)
                    (λ _.
                      Yields_after (client_list_remove lib s.clients sock (os.close sock w₂).1) _
                        (SamePool s.pool) (λ r w₃. refl))
                    (λ _. refl)))
