-- ===== src/Server/Agreement/Leaving.antt =====
-- A client that leaves.
use jm_bus.Common.{
  ℕ, ◌+◌, ◌-◌, ◌<◌, ◌≤◌, ◌≡◌, refl, ◌∙◌, inl, inr, Bool, true, some, List, [], ◌∷◌, All-get,
  total-perm, count_if, count_if-perm, get_elem?, arith, if◌then◌else◌, ◌==◌, Bool-cases,
  Option-cases, Yields, Yields-ok, Yields-and_then, ok, zero, suc,
}
use jm_bus.Clients.{
  PollFd, ClientMetadata, ClientList, index_of_fd, client_list_remove, remove_found, remove_at,
}
use jm_bus.Clients.Keeping.{index_of_fd-some, polls}
use jm_bus.Clients.Leaving.{Left, remove_at-Left, All-remove_live}
use jm_bus.Clients.Pairs.{zip}
use jm_bus.Clients.Removing.{pairs, client_list_remove-pairs}
use jm_bus.Cstd.{ArrayLib, len}
use jm_bus.HashMap.{HashMap}
use jm_bus.HashMap.Contents.{IsValid, sockets}
use jm_bus.HashMap.Subscriptions.{same_key}
use jm_bus.HashMap.Unlisting.{listed}
use jm_bus.Server.{ServerState, forget_topics, remove_client_at, server_state_remove_client}
use jm_bus.Server.Agreement.{holds, memberships, Separate, Agreed}
use jm_bus.Server.Agreement.Alone.{memberships-absent}
use jm_bus.Server.Agreement.Forgetting.{forget_topics-listed}
use jm_bus.Sockets.{Sockets}

-- What stands under a topic once the map has forgotten the client's topics.
abbrev pub Forgotten : (List ℕ → Type 0) → HashMap → HashMap → ℕ → ClientMetadata → Type 0
Forgotten Used map map' sock md =
    (q : List ℕ) (u : ℕ)
    → Used q
    → listed u (sockets map' q) ≡ (
        if sock == u
        then listed u (sockets map q) - count_if (same_key q) md.topics.items
        else listed u (sockets map q))

module _ (Used : List ℕ → Type 0) (s : ServerState) (idx sock : ℕ) (p : PollFd)
    (md : ClientMetadata) (cl' : ClientList) (map' : HashMap) (g : Agreed Used s) (fd : p.fd ≡ sock)
    (left : Left s.clients idx p md cl') (forgotten : Forgotten Used s.topics map' sock md) where
  split :
      (q : List ℕ) (u : ℕ)
      → memberships q u (pairs s.clients) ≡ holds q u (p, md) + memberships q u (pairs cl')
  split q u = total-perm (holds q u) (pairs s.clients) ((p, md) ∷ pairs cl') left.others

  left-Agreed : IsValid map' → Agreed Used (record s { topics = map'; clients = cl' })
  left-Agreed valid = record {
    valid = valid;
    in_step = left.in_step;
    used = All-remove_live _ s.clients.metadata.items cl'.metadata.items idx g.used left.metadata;
    once = All-remove_live _ s.clients.metadata.items cl'.metadata.items idx g.once left.metadata;
    agree = λ q u used_q.
        let f = forgotten q u used_q in
        let a = g.agree q u used_q in
        let t = split q u in
        elim (Bool-cases (sock == u)) [
          | inl here ↦
              let f₁ = rw here at f in let t₁ = rw (fd, here) at t in omega (arith, f₁, t₁, a)
          | inr away ↦
              let f₁ = rw away at f in let t₁ = rw (fd, away) at t in omega (arith, f₁, t₁, a)
        ];
  }

  not_polled : polls sock s.clients ≡ 1 → polls sock cl' ≡ 0
  not_polled once =
      let self : (p.fd == sock) ≡ true = ground (arith, fd) in
      let one =
        count_if-perm (λ (p : PollFd). p.fd == sock) s.clients.fds.items (p ∷ cl'.fds.items)
          left.fds in
      let one₁ = rw self at one in omega (arith, one₁, once)

  left_unlisted :
      (q : List ℕ)
      → IsValid map'
      → Used q
      → polls sock s.clients ≡ 1
      → listed sock (sockets map' q) ≡ 0
  left_unlisted q valid used_q once =
      (left-Agreed valid).agree q sock used_q
      ∙ memberships-absent q sock cl'.fds.items cl'.metadata.items (not_polled once)

-- The map forgets the topics of a client, each of which it lists the socket under.
pub forget-Agreed :
    {W : Type 0} (Used : List ℕ → Type 0)
    → Separate Used
    → (s : ServerState) (idx sock : ℕ) (p : PollFd) (md : ClientMetadata) (w : W) → Agreed Used s
    → p.fd ≡ sock
    → get_elem? s.clients.fds.items idx ≡ some p
    → get_elem? s.clients.metadata.items idx ≡ some md
    → (map' : HashMap) × (forget_topics s.topics md.topics.items sock w ≡ ok (true, map') w)
      × IsValid map'
      × Forgotten Used s.topics map' sock md
forget-Agreed Used separate s idx sock p md w g fd at_p at_md =
    forget_topics-listed Used separate s.topics md.topics.items sock w g.valid
      (All-get _ s.clients.metadata.items idx md g.used at_md)
      (λ q used_q.
        let a = g.agree q sock used_q in
        let m = holds_at s.clients.fds.items s.clients.metadata.items q idx at_p at_md in
        omega (arith, a, m))
  where
    holds_at :
        (ps : List PollFd) (mds : List ClientMetadata) (q : List ℕ) (i : ℕ)
        → get_elem? ps i ≡ some p
        → get_elem? mds i ≡ some md
        → count_if (same_key q) md.topics.items ≤ memberships q sock (zip ps mds)
    holds_at [] mds q i e e₂ = absurd cc
    holds_at (p' ∷ ps) [] q i e e₂ = absurd cc
    holds_at (p' ∷ ps) (m ∷ mds) q zero e e₂ =
        let same : p' ≡ p = cc in
        let same₂ : m ≡ md = cc in
        let self : (p.fd == sock) ≡ true = ground (arith, fd) in
        rw (same, same₂, self) (omega arith)
    holds_at (p' ∷ ps) (m ∷ mds) q (suc i) e e₂ = omega (arith, holds_at ps mds q i e e₂)

module _ {W : Type 0} (os : Sockets W) (lib : ArrayLib W) (Used : List ℕ → Type 0)
    (separate : Separate Used) where
  pub remove_client-Agreed :
      (s : ServerState) (sock : ℕ) (w : W)
      → Agreed Used s
      → Yields (server_state_remove_client os lib s sock w) (λ r _. Agreed Used r.1)
  unfolding server_state_remove_client client_list_remove
  remove_client-Agreed s sock w g = elim (Option-cases (index_of_fd sock s.clients.fds.items)) [
    | inl missing ↦ rw missing (unfold remove_client_at in g)
    | inr (idx, found) ↦
        let (p, at_p, fd) = index_of_fd-some sock s.clients.fds.items idx found in
        rw found (
          unfold remove_client_at in
          elim (Option-cases (get_elem? s.clients.metadata.items idx)) [
            | inl absent ↦ rw absent tt
            | inr (md, at_md) ↦
                let (map', run, valid, forgotten) =
                  forget-Agreed Used separate s idx sock p md w g fd at_p at_md in
                rw (at_md, run, found)
                  (unfold remove_found in
                    Yields-and_then _ _
                      (λ (r : Bool × ClientList) (_ : W). Left s.clients idx p md r.1)
                      (λ (r : Bool × ServerState) (_ : W). Agreed Used r.1)
                      (remove_at-Left lib s.clients idx p md (os.close sock w).1 g.in_step at_p
                        at_md)
                      (λ r _ left.
                        left-Agreed Used s idx sock p md r.1 map' g fd left forgotten valid))
          ])
  ]

  -- `server_state_remove_client` of a client whose socket no other descriptor has, in a state in
  -- which clients and topic map agree on topics of which none is the start of another, with fewer
  -- than 100 free cells in both arrays, and with topics of the client that were never advanced: it
  -- is true, clients and map agree in the state it leaves, no descriptor is the socket's, and the
  -- socket is listed under none of the topics.
  pub removed_unlisted :
      (s : ServerState) (sock i : ℕ) (md : ClientMetadata) (q : List ℕ) (w : W)
      → Agreed Used s
      → Used q
      → polls sock s.clients ≡ 1
      → s.clients.fds.cap < len s.clients.fds + 100
      → s.clients.metadata.cap < len s.clients.metadata + 100
      → index_of_fd sock s.clients.fds.items ≡ some i
      → get_elem? s.clients.metadata.items i ≡ some md
      → md.topics.offset ≡ 0
      → (s' : ServerState) × (w' : W) × (server_state_remove_client os lib s sock w
          ≡ ok (true, s') w')
        × Agreed Used s'
        × (polls sock s'.clients ≡ 0)
        × (listed sock (sockets s'.topics q) ≡ 0)
  unfolding server_state_remove_client client_list_remove remove_client_at
  removed_unlisted s sock i md q w g used once tight tight₂ found at_md start =
      let (p, at_p, fd) = index_of_fd-some sock s.clients.fds.items i found in
      let (map', forgot, valid, forgotten) =
        forget-Agreed Used separate s i sock p md w g fd at_p at_md in
      let w₁ = (os.close sock w).1 in
      let (cl', w₂, removed, _, _) =
        client_list_remove-pairs lib s.clients sock i p md w₁ g.in_step tight tight₂ found at_p
          at_md start in
      let here : remove_at lib s.clients i w₁ ≡ ok (true, cl') w₂ =
        unfold remove_found in rw found at removed in
      let left =
        Yields-ok (remove_at lib s.clients i w₁)
          (λ (r : Bool × ClientList) (_ : W). Left s.clients i p md r.1) (true, cl') w₂
          (remove_at-Left lib s.clients i p md w₁ g.in_step at_p at_md) here in
      (
        record s { topics = map'; clients = cl' },
        w₂,
        rw (found, at_md, forgot, removed) refl,
        left-Agreed Used s i sock p md cl' map' g fd left forgotten valid,
        not_polled Used s i sock p md cl' map' g fd left forgotten once,
        left_unlisted Used s i sock p md cl' map' g fd left forgotten q valid used once,
      )
