-- ===== src/Server/Agreement/Once.antt =====
-- What `subscribed`, the test of common/handlers/server_states.c, says of how often a topic is held.
use jm_bus.Common.{
  ℕ, ◌<◌, ◌≤◌, ◌≡◌, refl, inl, inr, true, false, List, [], ◌∷◌, ◌++◌, All, count_if,
  count_if-append, arith, Bool-cases,
}
use jm_bus.HashMap.Matching.{starts}
use jm_bus.HashMap.Subscriptions.{same_key, same_key_self, same_key-Apart}
use jm_bus.Server.{subscribed}
use jm_bus.Server.Agreement.{Separate}

pub subscribed-none :
    (q : List ℕ) (ts : List (List ℕ)) → subscribed q ts ≡ false → count_if (same_key q) ts ≡ 0
unfolding subscribed
subscribed-none q [] never = refl
subscribed-none q (t ∷ ts) never = elim (Bool-cases (starts q t)) [
  | inl here ↦ absurd (let n = rw here at never in cc)
  | inr other ↦
      let n = rw other at never in
      let rest = subscribed-none q ts n in rw other (omega (arith, rest))
]

module _ (Used : List ℕ → Type 0) (separate : Separate Used) where
  pub subscribed-some :
      (q : List ℕ) (ts : List (List ℕ))
      → Used q
      → All Used ts
      → subscribed q ts ≡ true
      → 0 < count_if (same_key q) ts
  unfolding subscribed
  subscribed-some q [] used_q used held_there = absurd cc
  subscribed-some q (t ∷ ts) used_q (used_t, used) held_there =
      elim (separate.apart q t used_q used_t) [
        | inl same ↦ rw (same, same_key_self q) (omega arith)
        | inr (far, far₂) ↦
            let rest = subscribed-some q ts used_q used (rw far at held_there) in
            rw far (omega (arith, rest))
      ]

  -- A topic that the client does not hold yet is held once then, and the others as before.
  pub once_more :
      (q topic : List ℕ) (ts : List (List ℕ))
      → Used q
      → Used topic
      → count_if (same_key q) ts ≤ 1
      → subscribed topic ts ≡ false
      → count_if (same_key q) (ts ++ topic ∷ []) ≤ 1
  once_more q topic ts used_q used_topic most absent =
      let more = count_if-append (same_key q) ts (topic ∷ []) in
      elim (separate.apart q topic used_q used_topic) [
        | inl same ↦
            let zero_there = rw same at (subscribed-none topic ts absent) in
            let m = rw (same, same_key_self q) at more in rw same (omega (arith, zero_there, m))
        | inr apart ↦ let m = rw (same_key-Apart q topic apart) at more in omega (arith, m, most)
      ]
