-- ===== src/Connections/Keeping.antt =====
-- The functions of common/handlers/connections.c keep each property of the server's state that its changes keep.
use jm_bus.Common.{
  ℕ, ◌≡◌, inl, inr, Bool, Option, none, some, List, length, All, if◌then◌else◌, ◌==◌, ◌||◌,
  Bool-cases, Option-cases, true, All-snoc, Cmd, pure, ◌>>=◌, Yields, Yields-and_then, Yields_after,
  Yields-if,
}
use jm_bus.Clients.{PollFd}
use jm_bus.Connections.{
  codes, publish_message, reply_error, on_subscribe, on_publish, handle_message, accept_messages,
}
use jm_bus.Connections.Polling.{
  bit_in, bit_err, bit_hup, bit_nval, has_bit, mark, read_client, visit,
}
use jm_bus.Cstd.{Array, ArrayLib}
use jm_bus.Messages.{
  Message, error_type, subscribe_type, publish_type, message_get_topic, messages_gen_connection,
}
use jm_bus.Messages.Receive.{message_array_generate_from_client, message_array_free_list}
use jm_bus.Server.{
  ServerState, server_state_add_client, server_state_add_client_topic, server_state_remove_client,
}
use jm_bus.Connections.Laws.{Names, Laws}
use jm_bus.Sockets.{Sockets, send_message}
use jm_bus.ThreadPool.{Pool, Threads}

module _ {W : Type 0} (os : Sockets W) (lib : ArrayLib W) (threads : Threads W)
    (gone : Cmd W (Array Message)) (P : ServerState → Type 0) (Client : ℕ → Type 0)
    (Topic : List ℕ → Type 0) (Received : Array Message → Type 0)
    (laws : Laws os lib threads gone P Client Topic Received) where
  abbrev Holding : ServerState → W → Type 0
  Holding s w = P s

  abbrev HoldingAfter : Bool × ServerState → W → Type 0
  HoldingAfter r w = P r.1

  on_subscribe-keeps :
      (s : ServerState) (topic : List ℕ) (from : ℕ) (w : W)
      → P s
      → Topic topic
      → Yields (on_subscribe os lib s topic from w) Holding
  unfolding on_subscribe
  on_subscribe-keeps s topic from w h allowed =
      Yields-and_then (server_state_add_client_topic lib s topic from w) _ HoldingAfter Holding
        (laws.subscribes s topic from w h allowed)
        (λ r w₁ h₁.
          Yields-if r.0 _ _ w₁ Holding (λ _. h₁)
            (λ _.
              Yields_after (reply_error os lib from (codes "error subscribing to topic") w₁) _
                Holding (λ _ _. h₁)))

  on_publish-keeps :
      (s : ServerState) (from : ℕ) (msg : Message) (w : W)
      → P s
      → Yields (on_publish os lib s from msg w) Holding
  unfolding on_publish
  on_publish-keeps s from msg w h =
      Yields_after (publish_message os lib s from msg w) _ Holding (λ b w₁.
        Yields-if b _ _ w₁ Holding (λ _. h)
          (λ _.
            Yields_after (reply_error os lib from (codes "error publishing message to topic") w₁) _
              Holding (λ _ _. h)))

  pub handle_message-keeps :
      (s : ServerState) (from : ℕ) (msg : Message) (w : W)
      → P s
      → Client from
      → Names lib Topic msg
      → Yields (handle_message os lib s from msg w) (λ s' _. P s')
  unfolding handle_message
  handle_message-keeps s from msg w h other named =
      Yields-and_then (message_get_topic lib msg w) _
        (λ t _. (msg.type == subscribe_type) ≡ true → Topic t) Holding (named w)
        (λ topic w₁ allowed.
          Yields-if (msg.type == subscribe_type) _ _ w₁ Holding
            (λ subscribing. on_subscribe-keeps s topic from w₁ h (allowed subscribing))
            (λ _.
              Yields-if (msg.type == publish_type) _ _ w₁ Holding
                (λ _. on_publish-keeps s from msg w₁ h)
                (λ _.
                  Yields-if (msg.type == error_type) _ _ w₁ Holding
                    (λ _.
                      Yields-and_then (server_state_remove_client os lib s from w₁) _ HoldingAfter
                        Holding (laws.leaves s from w₁ h other) (λ r w₂ h₂. h₂))
                    (λ _. h))))

  -- Behind the greeting that was made.
  greet-keeps :
      (s : ServerState) (sock : ℕ) (o : Option (Array ℕ)) (w : W)
      → P s
      → Yields
          ((elim o as (λ _. Cmd W ServerState) [
            | none ↦ pure s
            | some buf ↦ do
              sent ← send_message os sock buf
              if sent then (do (_, s') ← server_state_add_client lib s sock; pure s') else pure s
          ])
            w)
          Holding
  unfolding send_message
  greet-keeps s sock none w h = h
  greet-keeps s sock (some buf) w h =
      let w' = (os.send sock buf.items w).1 in
      Yields-if (os.send sock buf.items w).0 _ _ w' Holding
        (λ _.
          Yields-and_then (server_state_add_client lib s sock w') _ HoldingAfter Holding
            (laws.joins s sock w' h) (λ r w'' h₂. h₂))
        (λ _. h)

  accept_messages-keeps :
      (s : ServerState) (w : W) → P s → Yields (accept_messages os lib s w) Holding
  unfolding accept_messages send_message
  accept_messages-keeps s w h = elim (Option-cases (os.accept s.server.socket w).0) [
    | inl e ↦ rw e h
    | inr (sock, e) ↦
        let w₁ = (os.accept s.server.socket w).1 in
        elim (Option-cases (lib.init {A = ℕ} 20 w₁).0) [
          | inl e₂ ↦ rw (e, e₂) h
          | inr (a, e₂) ↦
              rw (e, e₂)
                (Yields_after (messages_gen_connection lib (lib.init {A = ℕ} 20 w₁).1) _ Holding
                  (λ r w₃. greet-keeps s sock r.1 w₃ h))
        ]
  ]

  -- The marks are of clients.
  abbrev pub HoldingMarks : Array ℕ × ServerState → W → Type 0
  HoldingMarks r w = All Client r.0.items × P r.1

  mark-keeps :
      (marked : Array ℕ) (s : ServerState) (fd : ℕ) (w : W)
      → HoldingMarks (marked, s) w
      → Client fd
      → Yields (mark os lib threads gone marked s fd w) HoldingMarks
  unfolding mark
  mark-keeps marked s fd w h other = elim (Bool-cases (lib.insert marked fd w).0.0) [
    | inl good ↦
        (rw ((lib.insert_true marked fd w good).0) (All-snoc Client marked.items fd h.0 other), h.1)
    | inr bad ↦ (rw (lib.insert_false marked fd w bad) (h.0), h.1)
  ]

  made-Received :
      (made : Option (Array Message)) (w : W)
      → (elim made as (λ _. Type 0) [ none ↦ Unit {0} | some a ↦ Received a ])
      → Yields
          ((elim made as (λ _. Cmd W (Array Message)) [ none ↦ gone | some a ↦ pure a ]) w)
          (λ a _. Received a)
  made-Received none w h = laws.gone_received w
  made-Received (some a) w h = h

  read_client-keeps :
      (marked : Array ℕ) (s : ServerState) (fd : ℕ) (w : W)
      → HoldingMarks (marked, s) w
      → Client fd
      → Yields (read_client os lib threads gone marked s fd w) HoldingMarks
  unfolding read_client
  read_client-keeps marked s fd w h other =
      Yields-and_then (message_array_generate_from_client os lib fd w) _
        (λ o _. elim o as (λ _. Type 0) [ none ↦ Unit {0} | some a ↦ Received a ]) HoldingMarks
        (laws.receives fd w)
        (λ made w₁ got.
          Yields-and_then
            ((elim made as (λ _. Cmd W (Array Message)) [ none ↦ gone | some a ↦ pure a ]) w₁) _
            (λ a _. Received a) HoldingMarks (made-Received made w₁ got)
            (λ msgs w₂ received.
              Yields-if (length msgs.items == 0) _ _ w₂ HoldingMarks
                (λ _.
                  Yields_after (message_array_free_list os lib msgs.items w₂) _ HoldingMarks
                    (λ _ w₃.
                      Yields_after (lib.free msgs w₃) _ HoldingMarks
                        (λ _ w₄. mark-keeps marked s fd w₄ h other)))
                (λ _.
                  Yields-and_then _ _ (λ (r : Bool × Pool) (_ : W). P (record s { pool = r.1 }))
                    HoldingMarks (laws.hands s fd msgs w₂ (h.1) other received)
                    (λ r w₃ h₃. (h.0, h₃)))))

  pub visit-keeps :
      (marked : Array ℕ) (s : ServerState) (p : PollFd) (w : W)
      → HoldingMarks (marked, s) w
      → Yields (visit os lib threads gone marked s p w) HoldingMarks
  unfolding visit
  visit-keeps marked s p w h =
      Yields-if (p.fd == s.server.socket) _ _ w HoldingMarks
        (λ _.
          Yields-if (has_bit p.revents bit_in) _ _ w HoldingMarks
            (λ _.
              Yields-and_then (accept_messages os lib s w) _ Holding HoldingMarks
                (accept_messages-keeps s w h.1) (λ s' w' h'. (h.0, h')))
            (λ _. h))
        (λ differs.
          let other = laws.clients s p.fd h.1 differs in
          Yields-if (has_bit p.revents bit_hup || has_bit p.revents bit_err) _ _ w HoldingMarks
            (λ _. mark-keeps marked s p.fd w h other)
            (λ _.
              Yields-if (has_bit p.revents bit_in) _ _ w HoldingMarks
                (λ _. read_client-keeps marked s p.fd w h other)
                (λ _.
                  Yields-if (has_bit p.revents bit_nval) _ _ w HoldingMarks
                    (λ _. mark-keeps marked s p.fd w h other) (λ _. h))))
