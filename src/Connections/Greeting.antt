-- ===== src/Connections/Greeting.antt =====
-- `accept_messages` of common/handlers/connections.c: the greeting and the new client.
use jm_bus.Common.{
  ℕ, ◌≡◌, ◌⊎◌, refl, ap, inl, inr, true, false, some, [], ◌∷◌, ◌++◌, length, Bool-cases, ok,
}
use jm_bus.Cstd.{Array, ArrayLib, Plenty}
use jm_bus.Cstd.Loops.{init-fresh}
use jm_bus.Clients.Adding.{InStep, polled, client_list_add-InStep}
use jm_bus.Connections.{accept_messages}
use jm_bus.Messages.{connection_type, messages_gen_connection}
use jm_bus.Messages.Frames.{frame}
use jm_bus.Messages.Generated.{messages_gen_connection-frame}
use jm_bus.Server.{ServerState, server_state_add_client}
use jm_bus.Sockets.{Sockets, send_message}

module _ {W : Type 0} (os : Sockets W) (lib : ArrayLib W) where
  -- The greeting as an array, where memory lasts.
  greeting_made :
      (w : W)
      → Plenty lib
      → (buf : Array ℕ) × (w' : W) × (n : ℕ) × (messages_gen_connection lib w ≡ ok (n, some buf) w')
        × (buf.items ≡ frame connection_type [] [])
  greeting_made w plenty =
      let (r, w', run, h) = messages_gen_connection-frame lib plenty w in
      elim h [
        | inl (never, _) ↦ absurd never
        | inr (buf, made, items, start) ↦
            (buf, w', length (frame connection_type [] []), rw run (ap (λ p. ok p w') made), items)
      ]

  -- `accept_messages` with a client waiting, enough memory and the arrays in step sends the client
  -- a connection frame without topic and body. If the send fails the state stays; else the client
  -- is at the end of the list, the arrays are in step, and the topics are the same.
  pub accept_messages-greets :
      (s : ServerState) (sock : ℕ) (w : W)
      → Plenty lib
      → InStep s.clients
      → (os.accept s.server.socket w).0 ≡ some sock
      → (w₁ : W) × ((((os.send sock (frame connection_type [] []) w₁).0 ≡ false)
            × (accept_messages os lib s w ≡ ok s (os.send sock (frame connection_type [] []) w₁).1))
          ⊎ ((s' : ServerState) × (w' : W) × ((os.send sock (frame connection_type [] []) w₁).0
                ≡ true)
              × (accept_messages os lib s w ≡ ok s' w')
              × InStep s'.clients
              × (s'.clients.fds.items ≡ s.clients.fds.items ++ polled sock ∷ [])
              × (s'.topics ≡ s.topics)))
  unfolding accept_messages send_message server_state_add_client
  accept_messages-greets s sock w plenty same accepted =
      let wₐ = (os.accept s.server.socket w).1 in
      let made = init-fresh lib plenty {A = ℕ} 20 wₐ in
      let (buf, w₁, n, greeting, bytes) = greeting_made (lib.init {A = ℕ} 20 wₐ).1 plenty in
      let w₂ = (os.send sock (frame connection_type [] []) w₁).1 in
      elim (Bool-cases (os.send sock (frame connection_type [] []) w₁).0) [
        | inr failed ↦ (w₁, inl (failed, rw (accepted, made, greeting, bytes, failed) refl))
        | inl sent ↦
            let (cl', w', run, step, fds, _) =
              client_list_add-InStep lib s.clients sock w₂ plenty same in
            (
              w₁,
              inr (
                record s { clients = cl' },
                w',
                sent,
                rw (accepted, made, greeting, bytes, sent, run) refl,
                step,
                fds,
                refl,
              ),
            )
      ]
