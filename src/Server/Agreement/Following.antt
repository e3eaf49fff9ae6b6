-- ===== src/Server/Agreement/Following.antt =====
-- Each call of common/handlers/server_states.c does to the members what the bus promises.
use mathlib.Core.List.{Perm}
use mathlib.Core.List.Perm
use mathlib.Core.Path.{subst}
use jm_bus.Common.{
  ℕ, ◌≡◌, refl, sym, ap, ◌∙◌, inl, inr, Bool, true, false, some, List, ◌∷◌, All, All-get, get_elem?,
  arith, ◌==◌, Bool-cases, Option-cases, count_if-perm, Yields, Yields-if, Yields-and_then,
}
use jm_bus.Clients.{
  PollFd, ClientMetadata, ClientList, client_list_get_idx, client_list_remove, remove_found,
  index_of_fd,
}
use jm_bus.Clients.Adding.{polled, client_list_add-InStep}
use jm_bus.Clients.Keeping.{index_of_fd-some}
use jm_bus.Clients.Leaving.{Left, remove_at-Left}
use jm_bus.Clients.Pairs.{zip}
use jm_bus.Clients.Removing.{pairs}
use jm_bus.Cstd.{ArrayLib, Plenty}
use jm_bus.Cstd.Loops.{inserts}
use jm_bus.HashMap.Setting.{mallocs}
use jm_bus.HashMap.Subscriptions.{set_count}
use jm_bus.Server.{
  ServerState, subscribed, add_topic, add_topic_at, server_state_add_client_topic,
  server_state_add_client, remove_client_at, server_state_remove_client,
}
use jm_bus.Server.Agreement.{Separate, Agreed}
use jm_bus.Server.Agreement.Calls.{Call, join, subscribe, leave, UsedBy, call_server}
use jm_bus.Server.Agreement.Leaving.{forget-Agreed}
use jm_bus.Server.Agreement.Memberships.{zip-snoc}
use jm_bus.Server.Agreement.Members.{
  Member, knows, each, each-append, each-Perm, with_topic, unless_gone, next, Distinct,
}
use jm_bus.Server.Agreement.Once.{subscribed-none, subscribed-some}
use jm_bus.Sockets.{Sockets}
use jm_bus.Server.Agreement.Touching.{
  member, members, untouched, amended, not_there, set_same, Touches-with, Touches-gone,
}

-- What a call leaves stands for what the bus does to the members.
abbrev pub Follows : {W : Type 0} → Call → ServerState → Bool × ServerState → W → Type 0
Follows c s r w = Perm (members r.1) (next c (members s))

pub same-Perm : {A : Type 0} (xs ys : List A) → xs ≡ ys → Perm xs ys
same-Perm xs ys e = subst (λ k. Perm xs k) e (Perm.refl xs)

module _ {W : Type 0} (os : Sockets W) (lib : ArrayLib W) (plenty : Plenty lib)
    (Used : List ℕ → Type 0) (separate : Separate Used) where
  join-Follows :
      (s : ServerState) (sock : ℕ) (w : W)
      → Agreed Used s
      → Yields (server_state_add_client lib s sock w) (Follows (join sock) s)
  unfolding server_state_add_client
  join-Follows s sock w g =
      let (cl', w', run, step, fds, mds) =
        client_list_add-InStep lib s.clients sock w plenty g.in_step in
      rw run (
        same-Perm (each member (pairs cl')) _ (
          rw
            (
              fds,
              mds,
              zip-snoc s.clients.fds.items s.clients.metadata.items (polled sock) _ g.in_step,
            )
            (each-append member (pairs s.clients) _)))

  knows-subscribed :
      (topic : List ℕ) (ts : List (List ℕ))
      → Used topic
      → All Used ts
      → knows topic ts ≡ subscribed topic ts
  knows-subscribed topic ts used_topic used = elim (Bool-cases (subscribed topic ts)) [
    | inl has ↦
        let there = subscribed-some Used separate topic ts used_topic used has in
        rw has (ground (arith, there))
    | inr lacks ↦ let absent = subscribed-none topic ts lacks in rw (lacks, absent) refl
  ]

  add_topic-Follows :
      (s : ServerState) (idx : ℕ) (p : PollFd) (md : ClientMetadata) (topic : List ℕ) (w : W)
      → Agreed Used s
      → Distinct (members s)
      → knows topic md.topics.items ≡ false
      → get_elem? s.clients.fds.items idx ≡ some p
      → get_elem? s.clients.metadata.items idx ≡ some md
      → Yields (add_topic lib s idx md topic p.fd w) (Follows (subscribe topic p.fd) s)
  unfolding add_topic
  add_topic-Follows s idx p md topic w g one lacks at_p at_md =
      let w₁ = (lib.malloc w).1 in
      let good = inserts lib plenty md.topics topic w₁ in
      let md' : ClientMetadata = record { topics = (lib.insert md.topics topic w₁).0.1 } in
      let grown = (lib.insert_true md.topics topic w₁ good).0 in
      let w₂ = (lib.insert md.topics topic w₁).1 in
      let (map', w₃, run, _, _) = set_count lib plenty s.topics topic p.fd w₂ g.valid in
      let self : (p.fd == p.fd) ≡ true = ground arith in
      rw (mallocs lib plenty w, good, run)
        (same-Perm _ _ (
          sym (
            amended (with_topic topic p.fd) s.clients.fds.items s.clients.metadata.items idx p md
              md' (Touches-with topic p.fd) at_p at_md (rw (self, lacks, grown) refl) (one p.fd))))

  subscribe-Follows :
      (s : ServerState) (topic : List ℕ) (sock : ℕ) (w : W)
      → Agreed Used s
      → Distinct (members s)
      → Used topic
      → Yields (server_state_add_client_topic lib s topic sock w) (Follows (subscribe topic sock) s)
  unfolding server_state_add_client_topic client_list_get_idx add_topic_at
  subscribe-Follows s topic sock w g one used_topic =
      elim (Option-cases (index_of_fd sock s.clients.fds.items)) [
        | inl missing ↦ rw missing tt
        | inr (idx, found) ↦
            let (p, at_p, fd) = index_of_fd-some sock s.clients.fds.items idx found in
            rw found (elim (Option-cases (get_elem? s.clients.metadata.items idx)) [
              | inl absent ↦ rw absent tt
              | inr (md, at_md) ↦
                  let same =
                    knows-subscribed topic md.topics.items used_topic
                      (All-get _ s.clients.metadata.items idx md g.used at_md) in
                  rw at_md (
                    Yields-if (subscribed topic md.topics.items) _ _ w
                      (Follows (subscribe topic sock) s)
                      (λ has. already s topic sock idx p md one at_p at_md fd (same ∙ has))
                      (λ lacks.
                        subst
                          (λ k.
                            Yields (add_topic lib s idx md topic k w)
                              (Follows (subscribe topic k) s))
                          fd
                          (add_topic-Follows s idx p md topic w g one (same ∙ lacks) at_p at_md)))
            ])
      ]
    where
      already :
          (s : ServerState) (topic : List ℕ) (sock idx : ℕ) (p : PollFd) (md : ClientMetadata)
          → Distinct (members s)
          → get_elem? s.clients.fds.items idx ≡ some p
          → get_elem? s.clients.metadata.items idx ≡ some md
          → p.fd ≡ sock
          → knows topic md.topics.items ≡ true
          → Perm (members s) (next (subscribe topic sock) (members s))
      already s topic sock idx p md one at_p at_md fd has =
          let self : (p.fd == p.fd) ≡ true = ground arith in
          let kept =
            amended (with_topic topic p.fd) s.clients.fds.items s.clients.metadata.items idx p md md
              (Touches-with topic p.fd) at_p at_md (rw (self, has) refl) (one p.fd) in
          subst (λ k. Perm (members s) (next (subscribe topic k) (members s))) fd
            (same-Perm _ _ (
              sym (
                kept
                ∙ ap (λ l. each member (zip s.clients.fds.items l))
                    (set_same s.clients.metadata.items idx md at_md))))

  leave-Follows :
      (s : ServerState) (sock : ℕ) (w : W)
      → Agreed Used s
      → Distinct (members s)
      → Yields (server_state_remove_client os lib s sock w) (Follows (leave sock) s)
  unfolding server_state_remove_client client_list_remove remove_client_at remove_found
  leave-Follows s sock w g one = elim (Option-cases (index_of_fd sock s.clients.fds.items)) [
    | inl missing ↦ rw missing (
        same-Perm _ _ (
          sym (
            untouched sock (unless_gone sock) (members s) (Touches-gone sock)
              (not_there sock s.clients.fds.items s.clients.metadata.items missing))))
    | inr (idx, found) ↦
        let (p, at_p, fd) = index_of_fd-some sock s.clients.fds.items idx found in
        rw found (elim (Option-cases (get_elem? s.clients.metadata.items idx)) [
          | inl absent ↦ rw absent tt
          | inr (md, at_md) ↦
              let (map', run, _, _) =
                forget-Agreed Used separate s idx sock p md w g fd at_p at_md in
              rw (at_md, run, found)
                (Yields-and_then _ _
                  (λ (r : Bool × ClientList) (_ : W). Left s.clients idx p md r.1)
                  (Follows (leave sock) s)
                  (remove_at-Left lib s.clients idx p md (os.close sock w).1 g.in_step at_p at_md)
                  (λ r _ left. gone p md r.1 left fd))
        ])
  ]
    where
      gone :
          (p : PollFd) (md : ClientMetadata) (cl' : ClientList) {idx : ℕ}
          → Left s.clients idx p md cl'
          → p.fd ≡ sock
          → Perm (each member (pairs cl')) (next (leave sock) (members s))
      gone p md cl' left fd =
          let split : Perm (members s) ((p.fd, md.topics.items) ∷ each member (pairs cl')) =
            each-Perm member left.others in
          let self : (p.fd == sock) ≡ true = ground (arith, fd) in
          let counts = count_if-perm (λ (m : Member). m.0 == sock) (members s) _ split in
          let c = rw self at counts in
          let others =
            untouched sock (unless_gone sock) (each member (pairs cl')) (Touches-gone sock)
              (omega (arith, c, one sock)) in
          let both : Perm (next (leave sock) (members s))
              (each (unless_gone sock) ((p.fd, md.topics.items) ∷ each member (pairs cl'))) =
            each-Perm (unless_gone sock) split in
          Perm.symm
            (subst (λ k. Perm (next (leave sock) (members s)) k) (rw (self, others) refl) both)

  pub call-Follows :
      (c : Call) (s : ServerState) (w : W)
      → Agreed Used s
      → Distinct (members s)
      → UsedBy Used c
      → Yields (call_server os lib c s w) (Follows c s)
  unfolding call_server
  call-Follows (join sock) s w g one used = join-Follows s sock w g
  call-Follows (subscribe topic sock) s w g one used = subscribe-Follows s topic sock w g one used
  call-Follows (leave sock) s w g one used = leave-Follows s sock w g one
