-- ===== src/Server/Keeping.antt =====
-- What every operation on the server's state keeps: the server's own socket is polled, descriptors
-- and metadata are in step, the map is valid, and no job works for the server's own socket.
use jm_bus.Common.{
  ℕ, ◌≡◌, ◌≢◌, sym, ◌∙◌, Bool, Option, none, some, List, [], ◌∷◌, get_elem?, All, length-set,
  Yields, Yields-and_then, Yields_after, Yields-if, in_bounds,
}
use jm_bus.Clients.{
  ClientMetadata, index_of_fd, client_list_get_idx, client_list_remove, client_list_add,
}
use jm_bus.Clients.Keeping.{Polling, client_list_add-Polling, client_list_remove-Polling}
use jm_bus.Cstd.{ArrayLib, Plenty}
use jm_bus.HashMap.{HashMap}
use jm_bus.HashMap.Contents.{IsValid}
use jm_bus.HashMap.Setting.{hash_map_set-sockets}
use jm_bus.HashMap.Unlisting.{hash_map_remove_value-Unlisted}
use jm_bus.Server.{
  ServerState, subscribed, put_metadata, add_topic, add_topic_at, server_state_add_client_topic,
  server_state_add_client, forget_topics, remove_client_at, server_state_remove_client,
}
use jm_bus.ServerInfo.{ServerInfo}
use jm_bus.Sockets.{Sockets}
use jm_bus.ThreadPool.{Event, Job}

-- The event of the job, if it has one, came from another socket.
abbrev pub Foreign : ℕ → Job → Type 0
Foreign sock job = (e : Event) → job.event ≡ some e → e.from ≢ some sock

pub record Sound (si : ServerInfo) (s : ServerState) : Type 0 where
  pub same_server : s.server ≡ si
  pub polling : Polling si.socket s.clients
  pub valid : IsValid s.topics
  pub jobs : All (Foreign si.socket) s.pool.items

-- The result of an operation that returns a Boolean and the state.
abbrev pub SoundAfter : {W : Type 0} → ServerInfo → Bool × ServerState → W → Type 0
SoundAfter si r w = Sound si r.1

module _ (si : ServerInfo) where
  with_topics :
      (s : ServerState) (map : HashMap)
      → Sound si s
      → IsValid map
      → Sound si (record s { topics = map })
  with_topics s map h valid = record {
    same_server = h.same_server;
    polling = h.polling;
    valid = valid;
    jobs = h.jobs;
  }

  put_metadata-Sound :
      (s : ServerState) (idx : ℕ) (md : ClientMetadata)
      → Sound si s
      → Sound si (put_metadata s idx md)
  put_metadata-Sound s idx md h = record {
    same_server = h.same_server;
    polling = record {
      in_step = h.polling.in_step ∙ sym (length-set s.clients.metadata.items idx md);
      polled_still = h.polling.polled_still;
    };
    valid = h.valid;
    jobs = h.jobs;
  }

module _ {W : Type 0} (si : ServerInfo) (lib : ArrayLib W) (plenty : Plenty lib) where
  add_topic-Sound :
      (s : ServerState) (idx : ℕ) (md : ClientMetadata) (topic : List ℕ) (sock : ℕ) (w : W)
      → Sound si s
      → Yields (add_topic lib s idx md topic sock w) (SoundAfter si)
  unfolding add_topic
  add_topic-Sound s idx md topic sock w h =
      let w₁ = (lib.malloc w).1 in
      let w₂ = (lib.insert md.topics topic w₁).1 in
      let s' = put_metadata s idx (record { topics = (lib.insert md.topics topic w₁).0.1 }) in
      let h' =
        put_metadata-Sound si s idx (record { topics = (lib.insert md.topics topic w₁).0.1 }) h in
      Yields-if (lib.malloc w).0 _ _ w₁ (SoundAfter si)
        (λ _.
          Yields-if (lib.insert md.topics topic w₁).0.0 _ _ w₂ (SoundAfter si)
            (λ _.
              let (map', w₃, run, valid, _, _) =
                hash_map_set-sockets lib plenty s.topics topic sock w₂ h.valid in
              rw run (with_topics si s' map' h' valid))
            (λ _. h'))
        (λ _. tt)

  add_topic_at-Sound :
      (s : ServerState) (o : Option ℕ) (topic : List ℕ) (sock : ℕ) (w : W)
      → Sound si s
      → Yields (add_topic_at lib s o topic sock w) (SoundAfter si)
  unfolding add_topic_at
  add_topic_at-Sound s none topic sock w h = tt
  add_topic_at-Sound s (some idx) topic sock w h =
      Yields_after (in_bounds (get_elem? s.clients.metadata.items idx) w) _ (SoundAfter si)
        (λ md w₁.
          Yields-if (subscribed topic md.topics.items) _ _ w₁ (SoundAfter si) (λ _. h)
            (λ _. add_topic-Sound s idx md topic sock w₁ h))

  pub add_client_topic-Sound :
      (s : ServerState) (topic : List ℕ) (sock : ℕ) (w : W)
      → Sound si s
      → Yields (server_state_add_client_topic lib s topic sock w) (SoundAfter si)
  unfolding server_state_add_client_topic
  add_client_topic-Sound s topic sock w h =
      add_topic_at-Sound s (client_list_get_idx s.clients sock) topic sock w h

  pub add_client-Sound :
      (s : ServerState) (sock : ℕ) (w : W)
      → Sound si s
      → Yields (server_state_add_client lib s sock w) (SoundAfter si)
  unfolding server_state_add_client
  add_client-Sound s sock w h =
      Yields-and_then (client_list_add lib s.clients sock w) _ (λ r _. Polling si.socket r.1)
        (SoundAfter si) (client_list_add-Polling lib si.socket s.clients sock w plenty h.polling)
        (λ r w' polling. record {
          same_server = h.same_server;
          polling = polling;
          valid = h.valid;
          jobs = h.jobs;
        })

  forget_topics-IsValid :
      (map : HashMap) (ts : List (List ℕ)) (sock : ℕ) (w : W)
      → IsValid map
      → Yields (forget_topics map ts sock w) (λ r _. IsValid r.1)
  unfolding forget_topics
  forget_topics-IsValid map [] sock w valid = valid
  forget_topics-IsValid map (t ∷ ts) sock w valid =
      let (b, map', run, gone, _) = hash_map_remove_value-Unlisted map t sock w valid in
      rw run (
        Yields-if b _ _ w (λ r _. IsValid r.1)
          (λ _. forget_topics-IsValid map' ts sock w gone.valid) (λ _. gone.valid))

  remove_client_at-Sound :
      (os : Sockets W) (s : ServerState) (o : Option ℕ) (sock : ℕ) (w : W)
      → Sound si s
      → sock ≢ si.socket
      → Yields (remove_client_at os lib s o sock w) (SoundAfter si)
  unfolding remove_client_at
  remove_client_at-Sound os s none sock w h other = h
  remove_client_at-Sound os s (some idx) sock w h other =
      Yields_after (in_bounds (get_elem? s.clients.metadata.items idx) w) _ (SoundAfter si)
        (λ md w₁.
          Yields-and_then (forget_topics s.topics md.topics.items sock w₁) _ (λ r _. IsValid r.1)
            (SoundAfter si) (forget_topics-IsValid s.topics md.topics.items sock w₁ h.valid)
            (λ f w₂ valid.
              let h' = with_topics si s f.1 h valid in
              let w₃ = (os.close sock w₂).1 in
              Yields-if f.0 _ _ w₂ (SoundAfter si)
                (λ _.
                  Yields-and_then (client_list_remove lib s.clients sock w₃) _
                    (λ r _. Polling si.socket r.1) (SoundAfter si)
                    (client_list_remove-Polling lib si.socket s.clients sock w₃ h.polling other)
                    (λ r w₄ polling. record {
                      same_server = h.same_server;
                      polling = polling;
                      valid = valid;
                      jobs = h.jobs;
                    }))
                (λ _. h')))

  pub remove_client-Sound :
      (os : Sockets W) (s : ServerState) (sock : ℕ) (w : W)
      → Sound si s
      → sock ≢ si.socket
      → Yields (server_state_remove_client os lib s sock w) (SoundAfter si)
  unfolding server_state_remove_client
  remove_client-Sound os s sock w h other =
      remove_client_at-Sound os s (index_of_fd sock s.clients.fds.items) sock w h other
