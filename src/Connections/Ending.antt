-- ===== src/Connections/Ending.antt =====
-- `process_poll_events` of common/handlers/connections.c: the loop over a list that grows under it.
use jm_bus.Common.{
  ℕ, zero, suc, ◌+◌, ◌*◌, ◌≤◌, ◌≡◌, ◌≢◌, ◌⊎◌, refl, ap, inl, inr, false, ◌||◌, none, some, List, [],
  ◌∷◌, ◌++◌, length, drop, get_elem?, ◌==◌, Option-cases, arith, out_of_fuel, Cmd, pure, Settles,
  Ends, Settles-and_then, Ends-and_then, Settles-if, Ends-not_cut, Settles_mono,
}
use jm_bus.Clients.{PollFd}
use jm_bus.Clients.Adding.{polled}
use jm_bus.Connections.{accept_messages}
use jm_bus.Connections.Polling.{
  bit_in, bit_err, bit_hup, bit_nval, has_bit, mark, read_client, visit, poll_loop, remove_marked,
  process_poll_events,
}
use jm_bus.Cstd.{Array, ArrayLib, len}
use jm_bus.Cstd.Ending.{free-Ends}
use jm_bus.Messages.{Message}
use jm_bus.Messages.Parsing.{generate-Ends, message_array_free_list-Ends}
use jm_bus.Messages.Receive.{message_array_generate_from_client}
use jm_bus.Server.{ServerState}
use jm_bus.Server.Ending.{server_state_remove_client-Ends, start_job-Ends}
use jm_bus.Sockets.{Sockets}
use jm_bus.ThreadPool.{Threads}
use jm_bus.Connections.Growing.{
  Joined, rounds, rounds_bound, rounds-joined, rounds-drop, accept_messages-settles,
}

module _ {W : Type 0} (lib : ArrayLib W) where
  module _ (os : Sockets W) where
    module _ (threads : Threads W) (gone : Cmd W (Array Message))
        (gone-Ends : (w : W) → Ends (gone w))
        (start_up-Ends : (w : W) → Ends (threads.start_up w)) where
      read_client-settles :
          (marked : Array ℕ) (s : ServerState) (fd : ℕ) (w : W)
          → Settles (read_client os lib threads gone marked s fd w) (λ r _. r.1.clients ≡ s.clients)
      unfolding read_client mark
      read_client-settles marked s fd w =
          Settles-and_then (message_array_generate_from_client os lib fd w) _ (λ _ _. Unit {0})
            (λ (r : Array ℕ × ServerState) (_ : W). r.1.clients ≡ s.clients)
            (generate-Ends os lib fd w)
            (λ made w₁ _.
              Settles-and_then
                ((elim made as (λ _. Cmd W (Array Message)) [ none ↦ gone | some a ↦ pure a ]) w₁) _
                (λ _ _. Unit {0}) (λ (r : Array ℕ × ServerState) (_ : W). r.1.clients ≡ s.clients)
                (elim made
                  as (λ o. Ends (
                    (elim o as (λ _. Cmd W (Array Message)) [ none ↦ gone | some a ↦ pure a ])
                      w₁)) [ none ↦ gone-Ends w₁ | some a ↦ tt ])
                (λ msgs w₂ _.
                  Settles-if (length msgs.items == 0) _ _ w₂
                    (λ (r : Array ℕ × ServerState) (_ : W). r.1.clients ≡ s.clients)
                    (λ _.
                      Settles-and_then _ _ (λ _ _. Unit {0})
                        (λ (r : Array ℕ × ServerState) (_ : W). r.1.clients ≡ s.clients)
                        (message_array_free_list-Ends os lib msgs.items w₂)
                        (λ _ w₃ _.
                          Settles-and_then _ _ (λ _ _. Unit {0})
                            (λ (r : Array ℕ × ServerState) (_ : W). r.1.clients ≡ s.clients)
                            (free-Ends lib msgs w₃) (λ _ _ _. refl)))
                    (λ _.
                      Settles-and_then _ _ (λ _ _. Unit {0})
                        (λ (r : Array ℕ × ServerState) (_ : W). r.1.clients ≡ s.clients)
                        (start_job-Ends lib threads start_up-Ends s.pool
                          (record { from = some fd; msgs = msgs }) w₂)
                        (λ _ _ _. refl))))

      -- A round lets the list be, or has accepted a client at a descriptor with an event.
      abbrev Visited : ServerState → PollFd → Array ℕ × ServerState → W → Type 0
      Visited s p r w =
          (r.1.clients.fds.items ≡ s.clients.fds.items)
          ⊎ (((p.revents == 0) ≡ false)
              × ((sock : ℕ) × (r.1.clients.fds.items ≡ s.clients.fds.items ++ polled sock ∷ [])))

      visit-settles :
          (marked : Array ℕ) (s : ServerState) (p : PollFd) (w : W)
          → Settles (visit os lib threads gone marked s p w) (Visited s p)
      unfolding visit mark
      visit-settles marked s p w =
          Settles-if (p.fd == s.server.socket) _ _ w (Visited s p)
            (λ _.
              Settles-if (has_bit p.revents bit_in) _ _ w (Visited s p)
                (λ ready.
                  let some_event : (p.revents == 0) ≡ false = ground arith in
                  Settles-and_then (accept_messages os lib s w) _
                    (λ s' _. Joined s.clients.fds.items s'.clients.fds.items) (Visited s p)
                    (accept_messages-settles lib os s w)
                    (λ s' w' joined. elim joined [
                      | inl same ↦ inl same
                      | inr more ↦ inr (some_event, more)
                    ]))
                (λ _. inl refl))
            (λ _.
              Settles-if (has_bit p.revents bit_hup || has_bit p.revents bit_err) _ _ w
                (Visited s p) (λ _. inl refl)
                (λ _.
                  Settles-if (has_bit p.revents bit_in) _ _ w (Visited s p)
                    (λ _.
                      Settles_mono _ (λ r _. r.1.clients ≡ s.clients) (Visited s p)
                        (read_client-settles marked s p.fd w)
                        (λ r _ same. inl (ap (λ c. c.fds.items) same)))
                    (λ _.
                      Settles-if (has_bit p.revents bit_nval) _ _ w (Visited s p) (λ _. inl refl)
                        (λ _. inl refl))))

      poll_loop-Ends :
          (left i : ℕ) (marked : Array ℕ) (s : ServerState) (w : W)
          → rounds (drop i s.clients.fds.items) ≤ left
          → Ends (poll_loop os lib threads gone (suc left) i marked s w)
      unfolding poll_loop
      poll_loop-Ends zero i marked s w enough =
          elim (Option-cases (get_elem? s.clients.fds.items i)) [
            | inl e ↦ rw (e, poll_loop) tt
            | inr (p, e) ↦ absurd (ground (arith, rounds-drop s.clients.fds.items i p e))
          ]
      poll_loop-Ends (suc left) i marked s w enough =
          elim (Option-cases (get_elem? s.clients.fds.items i)) [
            | inl e ↦ rw (e, poll_loop) tt
            | inr (p, e) ↦
                let split = rounds-drop s.clients.fds.items i p e in
                let next : i + 1 ≡ suc i = omega arith in
                let fewer : rounds (drop (suc i) s.clients.fds.items) ≤ left = ground arith in
                rw (e, poll_loop)
                  (Settles-and_then (visit os lib threads gone marked s p w) _ (Visited s p)
                    (λ _ _. Unit {0}) (visit-settles marked s p w)
                    (λ r w' visited. poll_loop-Ends left (i + 1) r.0 r.1 w' (
                      rw next (elim visited [
                        | inl same ↦ rw same fewer
                        | inr (some_event, (sock, joined)) ↦
                            rw joined
                              (ground (arith, rounds-joined s.clients.fds.items (suc i) sock))
                      ]))))
          ]

      remove_marked-Ends :
          (fds : List ℕ) (s : ServerState) (w : W)
          → Ends (remove_marked os lib threads gone fds s w)
      unfolding remove_marked
      remove_marked-Ends [] s w = tt
      remove_marked-Ends (fd ∷ fds) s w =
          Ends-and_then _ _ (server_state_remove_client-Ends lib os s fd w) (λ r w'.
            Settles-if r.0 _ _ w' (λ _ _. Unit {0}) (λ _. remove_marked-Ends fds r.1 w') (λ _. tt))

      pub process_poll_events-Ends :
          (s : ServerState) (w : W) → Ends (process_poll_events os lib threads gone s w)
      unfolding process_poll_events
      process_poll_events-Ends s w = elim (Option-cases (lib.init {A = ℕ} 10 w).0) [
        | inl e ↦ rw e tt
        | inr (marked, e) ↦
            let w₁ = (lib.init {A = ℕ} 10 w).1 in
            rw e (
              Ends-and_then _ _
                (poll_loop-Ends (2 * len s.clients.fds) 0 marked s w₁
                  (rounds_bound s.clients.fds.items))
                (λ r w₂. remove_marked-Ends r.0.items r.1 w₂))
      ]

      -- If the wait for a new thread in `thread_pool_start_job` ends, reading an array that could
      -- not be made ends, and the calls of the system return, `process_poll_events` ends in every
      -- state of the server, whatever these calls bring and wherever memory fails, though clients
      -- join the list while it runs over it: its rounds do not run out.
      pub process_poll_events-ends :
          (s : ServerState) (w : W) → process_poll_events os lib threads gone s w ≢ out_of_fuel
      process_poll_events-ends s w =
          Ends-not_cut (process_poll_events os lib threads gone s w) (process_poll_events-Ends s w)
