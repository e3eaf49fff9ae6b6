-- ===== src/Server/Agreement/Touching.antt =====
-- The members that the clients and their metadata make up, and changes of one of them.
use jm_bus.Common.{
  ℕ, zero, suc, ◌<◌, ◌≤◌, ◌≡◌, refl, sym, ap, inl, inr, true, false, none, some, List, [], ◌∷◌,
  get_elem?, set, arith, ◌==◌, Bool-cases, Option-cases,
}
use jm_bus.Clients.{PollFd, ClientMetadata, index_of_fd}
use jm_bus.Clients.Pairs.{zip}
use jm_bus.Clients.Removing.{pairs}
use jm_bus.Server.{ServerState}
use jm_bus.Server.Agreement.Members.{Member, each, with_topic, unless_gone, sharing}

abbrev pub member : PollFd × ClientMetadata → List Member
member c = (c.0.fd, c.1.topics.items) ∷ []

abbrev pub members : ServerState → List Member
members s = each member (pairs s.clients)

-- A change that touches the members with one socket only.
abbrev pub Touches : ℕ → (Member → List Member) → Type 0
Touches sock f = (m : Member) → (m.0 == sock) ≡ false → f m ≡ m ∷ []

pub untouched :
    (sock : ℕ) (f : Member → List Member) (ms : List Member)
    → Touches sock f
    → sharing sock ms ≡ 0
    → each f ms ≡ ms
untouched sock f [] touches absent = refl
untouched sock f (m ∷ ms) touches absent = elim (Bool-cases (m.0 == sock)) [
  | inl here ↦ absurd (let a = rw here at absent in omega (arith, a))
  | inr other ↦
      let a = rw other at absent in
      let rest = untouched sock f ms touches (omega (arith, a)) in rw (touches m other, rest) refl
]

-- One client with new topics.
pub amended :
    (f : Member → List Member) (ps : List PollFd) (mds : List ClientMetadata) (i : ℕ) (p : PollFd)
    (md md' : ClientMetadata)
    → Touches p.fd f
    → get_elem? ps i ≡ some p
    → get_elem? mds i ≡ some md
    → f (p.fd, md.topics.items) ≡ (p.fd, md'.topics.items) ∷ []
    → sharing p.fd (each member (zip ps mds)) ≤ 1
    → each f (each member (zip ps mds)) ≡ each member (zip ps (set mds i md'))
amended f [] mds i p md md' touches at_p at_md amends one = absurd cc
amended f (p' ∷ ps) [] i p md md' touches at_p at_md amends one = absurd cc
amended f (p' ∷ ps) (m ∷ mds) zero p md md' touches at_p at_md amends one =
    let same : p' ≡ p = cc in
    let same₂ : m ≡ md = cc in
    let self : (p.fd == p.fd) ≡ true = ground arith in
    let o = rw (same, self) at one in
    let rest = untouched p.fd f (each member (zip ps mds)) touches (omega (arith, o)) in
    rw (same, same₂, amends, rest) refl
amended f (p' ∷ ps) (m ∷ mds) (suc i) p md md' touches at_p at_md amends one =
    elim (Bool-cases (p'.fd == p.fd)) [
      | inl here ↦ absurd (
          let there = member_at ps mds i p md at_p at_md in
          let o = rw here at one in omega (arith, o, there))
      | inr other ↦
          let o = rw other at one in
          let rest = amended f ps mds i p md md' touches at_p at_md amends (omega (arith, o)) in
          rw (touches (p'.fd, m.topics.items) other, rest) refl
    ]
  where
    member_at :
        (ps : List PollFd) (mds : List ClientMetadata) (i : ℕ) (p : PollFd) (md : ClientMetadata)
        → get_elem? ps i ≡ some p
        → get_elem? mds i ≡ some md
        → 0 < sharing p.fd (each member (zip ps mds))
    member_at [] mds i p md at_p at_md = absurd cc
    member_at (q ∷ ps) [] i p md at_p at_md = absurd cc
    member_at (q ∷ ps) (m ∷ mds) zero p md at_p at_md =
        let same : q ≡ p = cc in
        let self : (p.fd == p.fd) ≡ true = ground arith in rw (same, self) (omega arith)
    member_at (q ∷ ps) (m ∷ mds) (suc i) p md at_p at_md =
        omega (arith, member_at ps mds i p md at_p at_md)

pub not_there :
    (sock : ℕ) (ps : List PollFd) (mds : List ClientMetadata)
    → index_of_fd sock ps ≡ none
    → sharing sock (each member (zip ps mds)) ≡ 0
unfolding index_of_fd
not_there sock [] mds missing = refl
not_there sock (p ∷ ps) [] missing = refl
not_there sock (p ∷ ps) (md ∷ mds) missing = elim (Bool-cases (p.fd == sock)) [
  | inl here ↦ absurd (ground arith)
  | inr other ↦ elim (Option-cases (index_of_fd sock ps)) [
    | inl e ↦ let rest = not_there sock ps mds e in rw other (omega (arith, rest))
    | inr (k, e) ↦ absurd (ground arith)
  ]
]

pub set_same :
    (mds : List ClientMetadata) (i : ℕ) (md : ClientMetadata)
    → get_elem? mds i ≡ some md
    → set mds i md ≡ mds
set_same [] i md at_md = refl
set_same (m ∷ mds) zero md at_md = let e : m ≡ md = cc in ap (λ k. k ∷ mds) (sym e)
set_same (m ∷ mds) (suc i) md at_md = ap (λ l. m ∷ l) (set_same mds i md at_md)

pub Touches-with : (topic : List ℕ) (sock : ℕ) → Touches sock (with_topic topic sock)
Touches-with topic sock m other = rw other refl

pub Touches-gone : (sock : ℕ) → Touches sock (unless_gone sock)
Touches-gone sock m other = rw other refl
