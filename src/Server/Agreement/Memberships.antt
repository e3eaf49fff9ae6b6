-- ===== src/Server/Agreement/Memberships.antt =====
-- A client that joins, and one that subscribes.
use mathlib.Core.Path.{subst}
use jm_bus.Common.{
  ℕ, zero, suc, ◌+◌, ◌≡◌, refl, sym, ap, ◌∙◌, inl, inr, Bool, false, some, List, [], ◌∷◌, ◌++◌,
  All-get, All-set, All-snoc, total, total-append, count_if, count_if-append, length, get_elem?,
  set, arith, if◌then◌else◌, ◌==◌, Bool-cases, Option-cases, Yields, Yields-if, length-set,
}
use jm_bus.Clients.{PollFd, ClientMetadata, client_list_get_idx, index_of_fd}
use jm_bus.Clients.Adding.{polled, client_list_add-InStep}
use jm_bus.Clients.Keeping.{index_of_fd-some}
use jm_bus.Clients.Pairs.{zip}
use jm_bus.Clients.Removing.{pairs}
use jm_bus.Cstd.Loops.{inserts}
use jm_bus.Cstd.{ArrayLib, Plenty}
use jm_bus.HashMap.Setting.{mallocs}
use jm_bus.HashMap.Subscriptions.{same_key, subscribe, recounted, set_count}
use jm_bus.Server.{
  ServerState, subscribed, add_topic, add_topic_at, server_state_add_client_topic,
  server_state_add_client,
}
use jm_bus.Server.Agreement.Once.{once_more}
use jm_bus.Server.Agreement.{holds, memberships, Separate, Agreed}

pub zip-snoc :
    {A B : Type 0} (xs : List A) (ys : List B) (x : A) (y : B)
    → length xs ≡ length ys
    → zip (xs ++ x ∷ []) (ys ++ y ∷ []) ≡ zip xs ys ++ (x, y) ∷ []
zip-snoc [] [] x y e = refl
zip-snoc [] (b ∷ ys) x y e = absurd (omega arith)
zip-snoc (a ∷ xs) [] x y e = absurd (omega arith)
zip-snoc (a ∷ xs) (b ∷ ys) x y e = ap (λ l. (a, b) ∷ l) (zip-snoc xs ys x y (omega arith))

-- New metadata for one client.
total-set :
    (f : PollFd × ClientMetadata → ℕ) (ps : List PollFd) (mds : List ClientMetadata) (i : ℕ)
    (p : PollFd) (md md' : ClientMetadata)
    → get_elem? ps i ≡ some p
    → get_elem? mds i ≡ some md
    → total f (zip ps (set mds i md')) + f (p, md) ≡ total f (zip ps mds) + f (p, md')
total-set f [] mds i p md md' at_p at_md = cc
total-set f (p' ∷ ps) [] i p md md' at_p at_md = cc
total-set f (p' ∷ ps) (m ∷ mds) zero p md md' at_p at_md =
    let e : p' ≡ p = cc in let e₂ : m ≡ md = cc in rw (e, e₂) (omega arith)
total-set f (p' ∷ ps) (m ∷ mds) (suc i) p md md' at_p at_md =
    omega (arith, total-set f ps mds i p md md' at_p at_md)

-- The topic is counted on both sides.
joined :
    (q : List ℕ) (u : ℕ) (topic : List ℕ) (p : PollFd) (md md' : ClientMetadata) (ps : List PollFd)
    (mds : List ClientMetadata) (idx n n' : ℕ)
    → n' ≡ recounted q u (subscribe topic p.fd) n
    → n ≡ memberships q u (zip ps mds)
    → get_elem? ps idx ≡ some p
    → get_elem? mds idx ≡ some md
    → md'.topics.items ≡ md.topics.items ++ topic ∷ []
    → n' ≡ memberships q u (zip ps (set mds idx md'))
joined q u topic p md md' ps mds idx n n' counted agree at_p at_md grown =
    let more : count_if (same_key q) md'.topics.items
        ≡ count_if (same_key q) md.topics.items + (if same_key q topic then 1 else 0) =
      ap (count_if (same_key q)) grown
      ∙ count_if-append (same_key q) md.topics.items (topic ∷ [])
      ∙ omega arith in
    let swapped = total-set (holds q u) ps mds idx p md md' at_p at_md in
    elim (Bool-cases (p.fd == u)) [
      | inl here ↦ elim (Bool-cases (same_key q topic)) [
        | inl same ↦
            let c = rw (same, here) at counted in
            let m = rw same at more in let t = rw here at swapped in omega (arith, c, m, t, agree)
        | inr other ↦
            let c = rw other at counted in
            let m = rw other at more in let t = rw here at swapped in omega (arith, c, m, t, agree)
      ]
      | inr away ↦
          let t = rw away at swapped in
          elim (Bool-cases (same_key q topic)) [
            | inl same ↦ let c = rw (same, away) at counted in omega (arith, c, t, agree)
            | inr other ↦ let c = rw other at counted in omega (arith, c, t, agree)
          ]
    ]

module _ {W : Type 0} (lib : ArrayLib W) (plenty : Plenty lib) (Used : List ℕ → Type 0)
    (separate : Separate Used) where
  pub add_client-Agreed :
      (s : ServerState) (sock : ℕ) (w : W)
      → Agreed Used s
      → Yields (server_state_add_client lib s sock w) (λ r _. Agreed Used r.1)
  unfolding server_state_add_client
  add_client-Agreed s sock w g =
      let (cl', w', run, step, fds, mds) =
        client_list_add-InStep lib s.clients sock w plenty g.in_step in
      rw run (record {
        valid = g.valid;
        in_step = step;
        used = rw mds (All-snoc _ s.clients.metadata.items _ g.used tt);
        once = rw mds (All-snoc _ s.clients.metadata.items _ g.once (λ q used. omega arith));
        agree = λ q u used.
            g.agree q u used
            ∙ sym (
                rw
                  (
                    fds,
                    mds,
                    zip-snoc s.clients.fds.items s.clients.metadata.items (polled sock) _ g.in_step,
                  )
                  (total-append (holds q u) (pairs s.clients) _ ∙ ground arith));
      })

  add_topic-Agreed :
      (s : ServerState) (idx : ℕ) (p : PollFd) (md : ClientMetadata) (topic : List ℕ) (w : W)
      → Agreed Used s
      → Used topic
      → subscribed topic md.topics.items ≡ false
      → get_elem? s.clients.fds.items idx ≡ some p
      → get_elem? s.clients.metadata.items idx ≡ some md
      → Yields (add_topic lib s idx md topic p.fd w) (λ r _. Agreed Used r.1)
  unfolding add_topic
  add_topic-Agreed s idx p md topic w g used_topic absent at_p at_md =
      let w₁ = (lib.malloc w).1 in
      let good = inserts lib plenty md.topics topic w₁ in
      let md' : ClientMetadata = record { topics = (lib.insert md.topics topic w₁).0.1 } in
      let grown = (lib.insert_true md.topics topic w₁ good).0 in
      let w₂ = (lib.insert md.topics topic w₁).1 in
      let (map', w₃, run, valid, counted) = set_count lib plenty s.topics topic p.fd w₂ g.valid in
      rw (mallocs lib plenty w, good, run)
        (record {
          valid = valid;
          in_step = g.in_step ∙ sym (length-set s.clients.metadata.items idx md');
          used = All-set _ s.clients.metadata.items idx md' g.used (
              rw grown (
                All-snoc Used md.topics.items topic
                  (All-get _ s.clients.metadata.items idx md g.used at_md) used_topic));
          once = All-set _ s.clients.metadata.items idx md' g.once (
              rw grown (λ q used.
                once_more Used separate q topic md.topics.items used used_topic
                  (All-get _ s.clients.metadata.items idx md g.once at_md q used) absent));
          agree = λ q u used.
              joined q u topic p md md' s.clients.fds.items s.clients.metadata.items idx _ _
                (counted q u (separate.apart q topic used used_topic)) (g.agree q u used) at_p at_md
                grown;
        })

  pub add_client_topic-Agreed :
      (s : ServerState) (topic : List ℕ) (sock : ℕ) (w : W)
      → Agreed Used s
      → Used topic
      → Yields (server_state_add_client_topic lib s topic sock w) (λ r _. Agreed Used r.1)
  unfolding server_state_add_client_topic client_list_get_idx
  add_client_topic-Agreed s topic sock w g used_topic =
      elim (Option-cases (index_of_fd sock s.clients.fds.items)) [
        | inl missing ↦ rw missing (unfold add_topic_at in tt)
        | inr (idx, found) ↦
            let (p, at_p, fd) = index_of_fd-some sock s.clients.fds.items idx found in
            rw found (
              unfold add_topic_at in
              elim (Option-cases (get_elem? s.clients.metadata.items idx)) [
                | inl absent ↦ rw absent tt
                | inr (md, at_md) ↦ rw at_md (
                    Yields-if (subscribed topic md.topics.items) _ _ w
                      (λ (r : Bool × ServerState) (_ : W). Agreed Used r.1) (λ _. g)
                      (λ absent.
                        subst
                          (λ k. Yields (add_topic lib s idx md topic k w) (λ r _. Agreed Used r.1))
                          fd (add_topic-Agreed s idx p md topic w g used_topic absent at_p at_md)))
              ])
      ]
