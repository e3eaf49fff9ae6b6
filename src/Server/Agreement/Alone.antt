-- ===== src/Server/Agreement/Alone.antt =====
-- What the clients with a socket hold, where that is one client or none.
use jm_bus.Common.{
  ℕ, zero, suc, ◌<◌, ◌≡◌, refl, inl, inr, true, some, List, [], ◌∷◌, count_if, get_elem?, arith,
  ◌==◌, Bool-cases,
}
use jm_bus.Clients.{PollFd, ClientMetadata}
use jm_bus.Clients.Pairs.{zip}
use jm_bus.HashMap.Subscriptions.{same_key}
use jm_bus.Server.Agreement.{memberships}

pub memberships-absent :
    (q : List ℕ) (sock : ℕ) (ps : List PollFd) (mds : List ClientMetadata)
    → count_if (λ p. p.fd == sock) ps ≡ 0
    → memberships q sock (zip ps mds) ≡ 0
memberships-absent q sock [] mds none_left = refl
memberships-absent q sock (p ∷ ps) [] none_left = refl
memberships-absent q sock (p ∷ ps) (md ∷ mds) none_left = elim (Bool-cases (p.fd == sock)) [
  | inl here ↦ absurd (let n = rw here at none_left in omega (arith, n))
  | inr other ↦
      let n = rw other at none_left in
      let rest = memberships-absent q sock ps mds (omega (arith, n)) in
      rw other (omega (arith, rest))
]

polled_at :
    (ps : List PollFd) (i : ℕ) (p : PollFd)
    → get_elem? ps i ≡ some p
    → 0 < count_if (λ p'. p'.fd == p.fd) ps
polled_at [] i p at_p = absurd cc
polled_at (p' ∷ ps) zero p at_p =
    let same : p' ≡ p = cc in
    let self : (p.fd == p.fd) ≡ true = ground arith in rw (same, self) (omega arith)
polled_at (p' ∷ ps) (suc i) p at_p = omega (arith, polled_at ps i p at_p)

pub memberships-alone :
    (q : List ℕ) (ps : List PollFd) (mds : List ClientMetadata) (i : ℕ) (p : PollFd)
    (md : ClientMetadata)
    → get_elem? ps i ≡ some p
    → get_elem? mds i ≡ some md
    → count_if (λ p'. p'.fd == p.fd) ps ≡ 1
    → memberships q p.fd (zip ps mds) ≡ count_if (same_key q) md.topics.items
memberships-alone q [] mds i p md at_p at_md once = absurd cc
memberships-alone q (p' ∷ ps) [] i p md at_p at_md once = absurd cc
memberships-alone q (p' ∷ ps) (m ∷ mds) zero p md at_p at_md once =
    let same : p' ≡ p = cc in
    let same₂ : m ≡ md = cc in
    let self : (p.fd == p.fd) ≡ true = ground arith in
    let o = rw (same, self) at once in
    let rest = memberships-absent q p.fd ps mds (omega (arith, o)) in
    rw (same, same₂, self) (omega (arith, rest))
memberships-alone q (p' ∷ ps) (m ∷ mds) (suc i) p md at_p at_md once =
    let there = polled_at ps i p at_p in
    elim (Bool-cases (p'.fd == p.fd)) [
      | inl same ↦ absurd (let o = rw same at once in omega (arith, o, there))
      | inr other ↦
          let o = rw other at once in
          let rest = memberships-alone q ps mds i p md at_p at_md (omega (arith, o)) in
          rw other (omega (arith, rest))
    ]
