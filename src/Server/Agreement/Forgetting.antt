-- ===== src/Server/Agreement/Forgetting.antt =====
-- The topics of a client that leaves: the socket is taken from each of their lists.
use jm_bus.Common.{
  ℕ, ◌-◌, ◌<◌, ◌≤◌, ◌≡◌, refl, inl, inr, true, List, [], ◌∷◌, All, count_if, arith, if◌then◌else◌,
  ◌==◌, Bool-cases, ok,
}
use jm_bus.HashMap.{HashMap}
use jm_bus.HashMap.Contents.{IsValid, sockets}
use jm_bus.HashMap.Subscriptions.{same_key, same_key_self, unsubscribe, recounted, remove_count}
use jm_bus.HashMap.Unlisting.{listed}
use jm_bus.Server.{forget_topics}
use jm_bus.Server.Agreement.{Separate}

module _ {W : Type 0} (Used : List ℕ → Type 0) (separate : Separate Used) where
  -- The socket is listed often enough for each of the topics, so each removal succeeds.
  pub forget_topics-listed :
      (map : HashMap) (ts : List (List ℕ)) (sock : ℕ) (w : W)
      → IsValid map
      → All Used ts
      → ((q : List ℕ) → Used q → count_if (same_key q) ts ≤ listed sock (sockets map q))
      → (map' : HashMap) × (forget_topics map ts sock w ≡ ok (true, map') w)
        × IsValid map'
        × ((q : List ℕ) (u : ℕ)
            → Used q
            → listed u (sockets map' q) ≡ (
                if sock == u
                then listed u (sockets map q) - count_if (same_key q) ts
                else listed u (sockets map q)))
  unfolding forget_topics
  forget_topics-listed map [] sock w valid used enough = (map, refl, valid, λ q u _. ground arith)
  forget_topics-listed map (t ∷ ts) sock w valid (used_t, used) enough =
      let (b, map₁, run, valid₁, counted, done) = remove_count map t sock w valid in
      let listed_t : 0 < listed sock (sockets map t) =
        let at = rw (same_key_self t) at (enough t used_t) in omega (arith, at) in
      let (map', rest, valid', left) = forget_topics-listed map₁ ts sock w valid₁ used (λ q used_q.
        let c = counted q sock (separate.apart q t used_q used_t) in
        let e = enough q used_q in still q t ts sock _ _ c e) in
      (
        map',
        rw (run, done listed_t) rest,
        valid',
        λ q u used_q.
            both q t ts sock u _ _ _ (counted q u (separate.apart q t used_q used_t))
              (left q u used_q),
      )
    where
      still :
          (q t : List ℕ) (ts : List (List ℕ)) (sock n n₁ : ℕ)
          → n₁ ≡ recounted q sock (unsubscribe t sock) n
          → count_if (same_key q) (t ∷ ts) ≤ n
          → count_if (same_key q) ts ≤ n₁
      still q t ts sock n n₁ c e =
          let self : (sock == sock) ≡ true = ground arith in
          elim (Bool-cases (same_key q t)) [
            | inl same ↦
                let c₁ = rw (same, self) at c in let e₁ = rw same at e in omega (arith, c₁, e₁)
            | inr other ↦ let c₁ = rw other at c in let e₁ = rw other at e in omega (arith, c₁, e₁)
          ]

      both :
          (q t : List ℕ) (ts : List (List ℕ)) (sock u n n₁ n₂ : ℕ)
          → n₁ ≡ recounted q u (unsubscribe t sock) n
          → n₂ ≡ (if sock == u then n₁ - count_if (same_key q) ts else n₁)
          → n₂ ≡ (if sock == u then n - count_if (same_key q) (t ∷ ts) else n)
      both q t ts sock u n n₁ n₂ c e = elim (Bool-cases (sock == u)) [
        | inl here ↦ elim (Bool-cases (same_key q t)) [
          | inl same ↦
              let c₁ = rw (same, here) at c in
              let e₁ = rw here at e in rw (here, same) (omega (arith, c₁, e₁))
          | inr other ↦
              let c₁ = rw other at c in
              let e₁ = rw here at e in rw (here, other) (omega (arith, c₁, e₁))
        ]
        | inr away ↦ elim (Bool-cases (same_key q t)) [
          | inl same ↦
              let c₁ = rw (same, away) at c in
              let e₁ = rw away at e in rw away (omega (arith, c₁, e₁))
          | inr other ↦
              let c₁ = rw other at c in let e₁ = rw away at e in rw away (omega (arith, c₁, e₁))
        ]
      ]
