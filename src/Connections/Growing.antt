-- ===== src/Connections/Growing.antt =====
-- How the list of descriptors changes while `process_poll_events` of common/handlers/connections.c
-- runs over it.
use jm_bus.Common.{
  ℕ, zero, suc, ◌+◌, ◌*◌, ◌≤◌, ◌≡◌, ◌⊎◌, refl, ap, inl, inr, Bool, Option, none, some, List, [],
  ◌∷◌, ◌++◌, length, drop, get_elem?, ◌==◌, if◌then◌else◌, Bool-cases, Option-cases, arith, Cmd,
  pure, ◌>>=◌, Settles, Settles-and_then, Settles-if,
}
use jm_bus.Clients.{PollFd, ClientList, client_metadata_init, client_list_add}
use jm_bus.Clients.Adding.{polled}
use jm_bus.Connections.{accept_messages}
use jm_bus.Cstd.{Array, ArrayLib}
use jm_bus.Cstd.Ending.{always}
use jm_bus.Messages.Generated.{messages_gen_connection-frame}
use jm_bus.Server.{ServerState, server_state_add_client}
use jm_bus.Sockets.{Sockets, send_message}

-- The descriptors stay, or one that has nothing to poll joins them.
abbrev pub Joined : List PollFd → List PollFd → Type 0
Joined old new = (new ≡ old) ⊎ ((sock : ℕ) × (new ≡ old ++ polled sock ∷ []))

-- Two rounds for a descriptor with an event, and one for another.
abbrev pub rounds : List PollFd → ℕ
rounds [] = 0
rounds (p ∷ ps) = (if p.revents == 0 then 1 else 2) + rounds ps

pub rounds_bound : (ps : List PollFd) → rounds ps ≤ 2 * length ps
rounds_bound [] = omega arith
rounds_bound (p ∷ ps) = ground (arith, rounds_bound ps)

-- What is left behind an index, after one descriptor has joined.
pub rounds-joined :
    (ps : List PollFd) (i sock : ℕ)
    → rounds (drop i (ps ++ polled sock ∷ [])) ≤ rounds (drop i ps) + 1
rounds-joined [] zero sock = omega arith
rounds-joined [] (suc zero) sock = omega arith
rounds-joined [] (suc (suc i)) sock = omega arith
rounds-joined (p ∷ ps) zero sock = omega (arith, rounds-joined ps zero sock)
rounds-joined (p ∷ ps) (suc i) sock = rounds-joined ps i sock

pub rounds-drop :
    (ps : List PollFd) (i : ℕ) (p : PollFd)
    → get_elem? ps i ≡ some p
    → rounds (drop i ps) ≡ (if p.revents == 0 then 1 else 2) + rounds (drop (suc i) ps)
rounds-drop [] i p e = cc
rounds-drop (q ∷ ps) zero p e = ground arith
rounds-drop (q ∷ ps) (suc i) p e = rounds-drop ps i p e

module _ {W : Type 0} (lib : ArrayLib W) where
  client_list_add-settles :
      (cl : ClientList) (sock : ℕ) (w : W)
      → Settles (client_list_add lib cl sock w) (λ r _. Joined cl.fds.items r.1.fds.items)
  unfolding client_list_add client_metadata_init
  client_list_add-settles cl sock w = elim (Bool-cases (lib.insert cl.fds (polled sock) w).0.0) [
    | inr bad ↦ rw bad (inl (ap (λ a. a.items) (lib.insert_false cl.fds (polled sock) w bad)))
    | inl good ↦
        let w₁ = (lib.insert cl.fds (polled sock) w).1 in
        let items = (lib.insert_true cl.fds (polled sock) w good).0 in
        elim (Option-cases (lib.init {A = List ℕ} 2 w₁).0) [
          | inl e ↦ rw (good, e) (inr (sock, items))
          | inr (a, e) ↦ rw (good, e) (inr (sock, items))
        ]
  ]

  server_state_add_client-settles :
      (s : ServerState) (sock : ℕ) (w : W)
      → Settles
          (server_state_add_client lib s sock w)
          (λ r _. Joined s.clients.fds.items r.1.clients.fds.items)
  unfolding server_state_add_client
  server_state_add_client-settles s sock w =
      Settles-and_then (client_list_add lib s.clients sock w) _
        (λ r _. Joined s.clients.fds.items r.1.fds.items)
        (λ (r : Bool × ServerState) (_ : W). Joined s.clients.fds.items r.1.clients.fds.items)
        (client_list_add-settles s.clients sock w) (λ r w' h. h)

  module _ (os : Sockets W) where
    pub accept_messages-settles :
        (s : ServerState) (w : W)
        → Settles
            (accept_messages os lib s w)
            (λ s' _. Joined s.clients.fds.items s'.clients.fds.items)
    unfolding accept_messages send_message
    accept_messages-settles s w = elim (Option-cases (os.accept s.server.socket w).0) [
      | inl e ↦ rw e (inl refl)
      | inr (sock, e) ↦
          let w₁ = (os.accept s.server.socket w).1 in
          elim (Option-cases (lib.init {A = ℕ} 20 w₁).0) [
            | inl e₂ ↦ rw (e, e₂) (inl refl)
            | inr (a, e₂) ↦
                let w₂ = (lib.init {A = ℕ} 20 w₁).1 in
                let (r, w₃, run, h) = messages_gen_connection-frame lib (always lib) w₂ in
                rw (e, e₂, run) (greeted s sock r.1 w₃)
          ]
    ]
      where
        greeted :
            (s : ServerState) (sock : ℕ) (o : Option (Array ℕ)) (w : W)
            → Settles
                ((elim o as (λ _. Cmd W ServerState) [
                  | none ↦ pure s
                  | some buf ↦ do
                    sent ← send_message os sock buf
                    if sent
                        then (do (_, s') ← server_state_add_client lib s sock; pure s')
                        else pure s
                ])
                  w)
                (λ s' _. Joined s.clients.fds.items s'.clients.fds.items)
        greeted s sock none w = inl refl
        greeted s sock (some buf) w =
            let w' = (os.send sock buf.items w).1 in
            Settles-if (os.send sock buf.items w).0 _ _ w'
              (λ s' _. Joined s.clients.fds.items s'.clients.fds.items)
              (λ _.
                Settles-and_then (server_state_add_client lib s sock w') _
                  (λ r _. Joined s.clients.fds.items r.1.clients.fds.items)
                  (λ (s' : ServerState) (_ : W). Joined s.clients.fds.items s'.clients.fds.items)
                  (server_state_add_client-settles s sock w') (λ r w'' h. h))
              (λ _. inl refl)
