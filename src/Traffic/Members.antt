-- ===== src/Traffic/Members.antt =====
-- Who gets a message that is published, in terms of the clients and the topics they hold.
use native.Mathlib.Decide.{dec_lt}
use jm_bus.Common.{
  ℕ, ◌≡◌, sym, ◌∙◌, inl, inr, Bool, true, false, List, [], ◌∷◌, ◌++◌, All, append-nil, arith,
  Bool-cases, if◌then◌else◌, ◌==◌, ok, Option-cases, ◌<◌, count_if, get_elem?, some, All-get, ap,
}
use jm_bus.Bytes.{u8}
use jm_bus.Clients.{PollFd, ClientMetadata}
use jm_bus.Clients.Keeping.{polls}
use jm_bus.Connections.{publish_message}
use jm_bus.Connections.Delivery.{others, publish_message-others}
use jm_bus.Cstd.{ArrayLib, Plenty}
use jm_bus.HashMap.{find_entry}
use jm_bus.HashMap.Contents.{IsValid, entries_at, sockets}
use jm_bus.HashMap.Unlisting.{listed}
use jm_bus.Messages.{Message}
use jm_bus.Messages.Frames.{frame, Holds}
use jm_bus.Server.{ServerState, subscribed}
use jm_bus.Server.Agreement.Alone.{memberships-absent, memberships-alone}
use jm_bus.Server.Agreement.Once.{subscribed-none, subscribed-some}
use jm_bus.HashMap.Subscriptions.{same_key}
use jm_bus.Server.Agreement.{Separate, Agreed}
use jm_bus.Sockets.{Sockets}
use jm_bus.Strings.{c_string}
use jm_bus.Traffic.{Log, to_each, Silent, Logged}
use jm_bus.Traffic.Sent.{publish_logs_found}

listed-others :
    (from u : ℕ) (socks : List ℕ)
    → listed u (others from socks) ≡ (if from == u then 0 else listed u socks)
listed-others from u [] = ground arith
listed-others from u (sock ∷ socks) =
    let rest = listed-others from u socks in
    elim (Bool-cases (sock == from)) [
      | inl same ↦ rw same (elim (Bool-cases (from == u)) [
        | inl mine ↦ let r = rw mine at rest in rw mine r
        | inr away ↦
            let r = rw away at rest in
            let not_it : (sock == u) ≡ false = ground (arith, same, away) in
            rw (away, not_it) (omega (arith, r))
      ])
      | inr differs ↦ rw differs (elim (Bool-cases (from == u)) [
        | inl mine ↦
            let r = rw mine at rest in
            let not_it : (sock == u) ≡ false = ground (arith, differs, mine) in
            rw (mine, not_it) (omega (arith, r))
        | inr away ↦ let r = rw away at rest in rw away (omega (arith, r))
      ])
    ]

All-listed : (P : ℕ → Type 0) (xs : List ℕ) → ((u : ℕ) → 0 < listed u xs → P u) → All P xs
All-listed P [] h = tt
All-listed P (x ∷ xs) h =
    let self : (x == x) ≡ true = ground arith in
    (h x (rw self (omega arith)), All-listed P xs (λ u there. h u (omega (arith, there))))

module _ {W : Type 0} (os : Sockets W) (lib : ArrayLib W) (plenty : Plenty lib) (log : W → Log)
    (logged : Logged os log) (silent : Silent lib log) where
  -- The message goes to the sockets under its topic, and to none if there is no entry.
  pub publish_logs :
      (s : ServerState) (from : ℕ) (msg : Message) (topic body : List ℕ) (w : W)
      → IsValid s.topics
      → Holds msg.topic topic
      → Holds msg.body body
      → (b : Bool) × (w' : W) × (publish_message os lib s from msg w ≡ ok b w')
        × (log w'
            ≡ log w
              ++ to_each
                  (frame (u8 msg.type) topic body)
                  (others from (sockets s.topics (c_string topic))))
  publish_logs s from msg topic body w valid topic_set body_set =
      elim (Option-cases (find_entry (c_string topic) (entries_at s.topics (c_string topic)))) [
        | inl missing ↦
            elim (publish_message-others os lib s from msg topic w plenty valid topic_set) [
              | inl (_, run) ↦ (
                false,
                (lib.malloc w).1,
                run,
                silent.malloc_silent w ∙ rw missing (sym (append-nil (log w))),
              )
              | inr (e, found, _) ↦ cc
            ]
        | inr (e, found) ↦
            let (w', run, more) =
              publish_logs_found os lib plenty log logged silent s from msg topic body e w valid
                topic_set body_set found in
            (true, w', run, rw found more)
      ]

  -- Each socket that it goes to is polled, and a client with a socket of its own gets it once where
  -- it has subscribed.
  pub publish_reaches :
      (Used : List ℕ → Type 0) (s : ServerState) (from i : ℕ) (p : PollFd) (md : ClientMetadata)
      (topic : List ℕ)
      → Separate Used
      → Agreed Used s
      → Used topic
      → get_elem? s.clients.fds.items i ≡ some p
      → get_elem? s.clients.metadata.items i ≡ some md
      → polls p.fd s.clients ≡ 1
      → All (λ u. 0 < polls u s.clients) (others from (sockets s.topics topic))
        × (listed p.fd (others from (sockets s.topics topic))
            ≡ (if from == p.fd then 0 else if subscribed topic md.topics.items then 1 else 0))
  publish_reaches Used s from i p md topic separate g used_topic at_p at_md alone = (
    All-listed _ (others from (sockets s.topics topic)) (λ u some_listed.
        elim (dec_lt 0 (polls u s.clients)) [
          | yes there ↦ there
          | no missing ↦ absurd (
              let nobody =
                memberships-absent topic u s.clients.fds.items s.clients.metadata.items
                  (omega arith) in
              let a = g.agree topic u used_topic in
              let o = listed-others from u (sockets s.topics topic) in
              ground (arith, some_listed, a, nobody, o))
        ]),
    listed-others from p.fd (sockets s.topics topic)
        ∙ ap (λ n. if from == p.fd then 0 else n)
            (g.agree topic p.fd used_topic
              ∙ memberships-alone topic s.clients.fds.items s.clients.metadata.items i p md at_p
                  at_md alone
              ∙ held_once),
  )
    where
      held_once :
          count_if (same_key topic) md.topics.items
          ≡ (if subscribed topic md.topics.items then 1 else 0)
      held_once = elim (Bool-cases (subscribed topic md.topics.items)) [
        | inl has ↦
            let some_there =
              subscribed-some Used separate topic md.topics.items used_topic
                (All-get _ s.clients.metadata.items i md g.used at_md) has in
            let most = All-get _ s.clients.metadata.items i md g.once at_md topic used_topic in
            rw has (omega (arith, some_there, most))
        | inr has_not ↦ rw has_not (subscribed-none topic md.topics.items has_not)
      ]
