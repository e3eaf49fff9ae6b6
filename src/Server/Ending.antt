-- ===== src/Server/Ending.antt =====
-- The operations on the server's state end: common/handlers/server_states.c and what it calls of
-- client_list.c, hash_map.c and thread_pool.c.
use jm_bus.Common.{
  ℕ, ◌-◌, ◌==◌, inl, inr, true, false, ◌&&◌, ltb, Option, none, some, List, [], ◌∷◌, get_elem?,
  Bool-cases, Option-cases, Ends, Ends-and_then, Settles-if, in_bounds,
}
use jm_bus.Arrays.{array_remove_item, array_resize}
use jm_bus.Clients.{
  ClientList, index_of_fd, remove_and_shrink, remove_at, remove_found, client_list_remove,
  client_metadata_free,
}
use jm_bus.Cstd.{Array, ArrayLib, len}
use jm_bus.Cstd.Ending.{free-Ends}
use jm_bus.HashMap.{
  HashMap, Row, null_row, row, mod_cap, remove_value_in_row, hash_map_remove_value,
}
use jm_bus.Server.{ServerState, forget_topics, remove_client_at, server_state_remove_client}
use jm_bus.Sockets.{Sockets}
use jm_bus.Strings.{hash_from_str}
use jm_bus.ThreadPool.{Event, Job, Pool, Threads, scan, start_last, spawn, thread_pool_start_job}

module _ {W : Type 0} where
  pub in_bounds-Ends : {A : Type 0} (o : Option A) (w : W) → Ends (in_bounds o w)
  in_bounds-Ends none w = tt
  in_bounds-Ends (some a) w = tt

  pub mod_cap-Ends : (hash cap : ℕ) (w : W) → Ends (mod_cap hash cap w)
  unfolding mod_cap
  mod_cap-Ends hash cap w = Settles-if (cap == 0) _ _ w (λ _ _. Unit {0}) (λ _. tt) (λ _. tt)

  remove_value_in_row-Ends :
      (hm : HashMap) (idx : ℕ) (key : List ℕ) (value : ℕ) (r : Option Row) (w : W)
      → Ends (remove_value_in_row hm idx key value r w)
  unfolding remove_value_in_row
  remove_value_in_row-Ends hm idx key value none w = tt
  remove_value_in_row-Ends hm idx key value (some null_row) w = tt
  remove_value_in_row-Ends hm idx key value (some (row r)) w = tt

  hash_map_remove_value-Ends :
      (hm : HashMap) (key : List ℕ) (value : ℕ) (w : W)
      → Ends (hash_map_remove_value hm key value w)
  unfolding hash_map_remove_value
  hash_map_remove_value-Ends hm key value w =
      Ends-and_then _ _ (mod_cap-Ends (hash_from_str key) hm.cap w)
        (λ idx w'. remove_value_in_row-Ends hm idx key value (get_elem? hm.rows idx) w')

  forget_topics-Ends :
      (map : HashMap) (ts : List (List ℕ)) (sock : ℕ) (w : W) → Ends (forget_topics map ts sock w)
  unfolding forget_topics
  forget_topics-Ends map [] sock w = tt
  forget_topics-Ends map (t ∷ ts) sock w =
      Ends-and_then _ _ (hash_map_remove_value-Ends map t sock w) (λ r w'.
        Settles-if r.0 _ _ w' (λ _ _. Unit {0}) (λ _. forget_topics-Ends r.1 ts sock w') (λ _. tt))

module _ {W : Type 0} (lib : ArrayLib W) where
  remove_and_shrink-Ends :
      {A : Type 0} (a : Array A) (idx : ℕ) (w : W) → Ends (remove_and_shrink lib a idx w)
  unfolding remove_and_shrink array_resize
  remove_and_shrink-Ends a idx w =
      let arr' = (array_remove_item a idx).1 in
      elim (Bool-cases (ltb 100 (arr'.cap - len arr'))) [
        | inr tight ↦ rw tight tt
        | inl wide ↦ elim (Bool-cases (lib.realloc w).0) [
          | inl moved ↦ rw (wide, moved) tt
          | inr failed ↦ rw (wide, failed) tt
        ]
      ]

  remove_at-Ends : (cl : ClientList) (idx : ℕ) (w : W) → Ends (remove_at lib cl idx w)
  unfolding remove_at client_metadata_free
  remove_at-Ends cl idx w = Ends-and_then _ _ (remove_and_shrink-Ends cl.fds idx w) (λ f w₁.
      elim (Option-cases (get_elem? cl.metadata.items idx)) [
        | inl missing ↦ rw missing tt
        | inr (md, found) ↦ rw found (
            Ends-and_then _ _ (free-Ends lib md.topics w₁) (λ _ w₂.
              Ends-and_then _ _ (remove_and_shrink-Ends cl.metadata idx w₂)
                (λ m w₃. Settles-if (f.0 && m.0) _ _ w₃ (λ _ _. Unit {0}) (λ _. tt) (λ _. tt))))
      ])

  client_list_remove-Ends :
      (cl : ClientList) (sock : ℕ) (w : W) → Ends (client_list_remove lib cl sock w)
  unfolding client_list_remove
  client_list_remove-Ends cl sock w = found (index_of_fd sock cl.fds.items)
    where
      found : (o : Option ℕ) → Ends (remove_found lib cl o w)
      found none = unfold remove_found in tt
      found (some idx) = unfold remove_found in remove_at-Ends cl idx w

  remove_client_at-Ends :
      (os : Sockets W) (s : ServerState) (o : Option ℕ) (sock : ℕ) (w : W)
      → Ends (remove_client_at os lib s o sock w)
  unfolding remove_client_at
  remove_client_at-Ends os s none sock w = tt
  remove_client_at-Ends os s (some idx) sock w =
      Ends-and_then _ _ (in_bounds-Ends (get_elem? s.clients.metadata.items idx) w) (λ md w₁.
        Ends-and_then _ _ (forget_topics-Ends s.topics md.topics.items sock w₁) (λ f w₂.
          Settles-if f.0 _ _ w₂ (λ _ _. Unit {0})
            (λ _.
              Ends-and_then _ _ (client_list_remove-Ends s.clients sock (os.close sock w₂).1)
                (λ _ _. tt))
            (λ _. tt)))

  pub server_state_remove_client-Ends :
      (os : Sockets W) (s : ServerState) (sock : ℕ) (w : W)
      → Ends (server_state_remove_client os lib s sock w)
  unfolding server_state_remove_client
  server_state_remove_client-Ends os s sock w =
      remove_client_at-Ends os s (index_of_fd sock s.clients.fds.items) sock w

  start_last-Ends :
      (threads : Threads W) (start_up-Ends : (w : W) → Ends (threads.start_up w)) (pool : Pool)
      (event : Event) (o : Option Job) (w : W)
      → Ends (start_last lib threads pool event o w)
  unfolding start_last
  start_last-Ends threads start_up-Ends pool event none w = tt
  start_last-Ends threads start_up-Ends pool event (some ref) w =
      let w₁ = (threads.cond_init w).1 in
      Ends-and_then _ _
        (Settles-if (threads.cond_init w).0 _ _ w₁ (λ _ _. Unit {0}) (λ _. tt) (λ _. tt))
        (λ b w₂.
          Ends-and_then _ _ (Settles-if b _ _ w₂ (λ _ _. Unit {0}) (λ _. tt) (λ _. tt)) (λ c w₃.
            Ends-and_then _ _
              (Settles-if c _ _ w₃ (λ _ _. Unit {0}) (λ _. start_up-Ends w₃) (λ _. tt))
              (λ _ _. tt)))

  spawn-Ends :
      (threads : Threads W) (start_up-Ends : (w : W) → Ends (threads.start_up w)) (pool : Pool)
      (event : Event) (w : W)
      → Ends (spawn lib threads pool event w)
  unfolding spawn
  spawn-Ends threads start_up-Ends pool event w =
      let grown = (lib.insert pool (record { event = none; occupied = true }) w).0.1 in
      start_last-Ends threads start_up-Ends grown event (get_elem? grown.items (len grown - 1))
        (lib.insert pool (record { event = none; occupied = true }) w).1

  pub start_job-Ends :
      (threads : Threads W) (start_up-Ends : (w : W) → Ends (threads.start_up w)) (pool : Pool)
      (event : Event) (w : W)
      → Ends (thread_pool_start_job lib threads pool event w)
  unfolding thread_pool_start_job
  start_job-Ends threads start_up-Ends pool event w =
      Settles-if (scan false pool.items event).0 _ _ w (λ _ _. Unit {0}) (λ _. tt)
        (λ _.
          spawn-Ends threads start_up-Ends (record pool { items = (scan false pool.items event).1 })
            event w)
