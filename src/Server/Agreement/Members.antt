-- ===== src/Server/Agreement/Members.antt =====
-- The bus without its map, its arrays and their order: who is there, and what each has subscribed to.
use mathlib.Core.List.{Perm, Perm-prop, Permᴰ, append_assoc, perm_append_comm}
use mathlib.Core.List.Perm
use mathlib.Core.List.Permᴰ.{nil, cons, swap, trans}
use mathlib.Core.Logic.{∥∥₁_elim}
use mathlib.Core.Path.{subst}
use jm_bus.Common.{
  ℕ, ◌≤◌, ◌≡◌, refl, sym, ap, ◌∙◌, inl, inr, Bool, List, [], ◌∷◌, ◌++◌, arith, if◌then◌else◌, ◌==◌,
  ltb, Bool-cases, count_if, count_if-append,
}
use jm_bus.HashMap.Subscriptions.{same_key}
use jm_bus.Server.Agreement.Calls.{Call, join, subscribe, leave}

abbrev pub Member : Type 0
Member = ℕ × List (List ℕ)

-- The topic is one of these.
abbrev pub knows : List ℕ → List (List ℕ) → Bool
knows topic ts = ltb 0 (count_if (same_key topic) ts)

abbrev pub each : {A B : Type 0} → (A → List B) → List A → List B
each f [] = []
each f (x ∷ xs) = f x ++ each f xs

abbrev pub with_topic : List ℕ → ℕ → Member → List Member
with_topic topic sock m =
    if m.0 == sock
    then (if knows topic m.1 then m ∷ [] else (m.0, m.1 ++ topic ∷ []) ∷ [])
    else m ∷ []

abbrev pub unless_gone : ℕ → Member → List Member
unless_gone sock m = if m.0 == sock then [] else m ∷ []

-- What a call does to the members.
abbrev pub next : Call → List Member → List Member
next (join sock) ms = ms ++ (sock, []) ∷ []
next (subscribe topic sock) ms = each (with_topic topic sock) ms
next (leave sock) ms = each (unless_gone sock) ms

abbrev pub next_each : List Call → List Member → List Member
next_each [] ms = ms
next_each (c ∷ cs) ms = next_each cs (next c ms)

abbrev pub sharing : ℕ → List Member → ℕ
sharing u ms = count_if (λ m. m.0 == u) ms

-- Sockets are not shared.
abbrev pub Distinct : List Member → Type 0
Distinct ms = (u : ℕ) → sharing u ms ≤ 1

-- A socket that joins is new.
abbrev pub Fits : List Call → List Member → Type 0
Fits [] ms = Unit {0}
Fits (join sock ∷ cs) ms = (sharing sock ms ≡ 0) × Fits cs (next (join sock) ms)
Fits (subscribe topic sock ∷ cs) ms = Fits cs (next (subscribe topic sock) ms)
Fits (leave sock ∷ cs) ms = Fits cs (next (leave sock) ms)

module _ {A B : Type 0} (f : A → List B) where
  pub each-append : (xs ys : List A) → each f (xs ++ ys) ≡ each f xs ++ each f ys
  each-append [] ys = refl
  each-append (x ∷ xs) ys = ap (λ l. f x ++ l) (each-append xs ys) ∙ sym (append_assoc (f x) _ _)

  exchange : (x y l : List B) → Perm (x ++ (y ++ l)) (y ++ (x ++ l))
  exchange x y l =
      subst (λ k. Perm k (y ++ (x ++ l))) (append_assoc x y l)
        (subst (λ k. Perm ((x ++ y) ++ l) k) (append_assoc y x l)
          (Perm.append_right l (perm_append_comm x y)))

  each-Permᴰ : {xs ys : List A} → Permᴰ xs ys → Perm (each f xs) (each f ys)
  each-Permᴰ nil = Perm.refl []
  each-Permᴰ (cons {a = a} {b = b} {l₁ = l₁} {l₂ = l₂} e d) =
      subst (λ k. Perm (f a ++ each f l₁) (f k ++ each f l₂)) e
        (Perm.append_left (f a) (each-Permᴰ d))
  each-Permᴰ (swap {a = a} {b = b} {a' = a'} {b' = b'} {l = l} e₁ e₂) =
      subst (λ k. Perm (f a ++ (f b ++ each f l)) (f a' ++ (f k ++ each f l))) e₁
        (subst (λ k. Perm (f a ++ (f b ++ each f l)) (f k ++ (f a ++ each f l))) e₂
          (exchange (f a) (f b) (each f l)))
  each-Permᴰ (trans d₁ d₂) = Perm.trans (each-Permᴰ d₁) (each-Permᴰ d₂)

  pub each-Perm : {xs ys : List A} → Perm xs ys → Perm (each f xs) (each f ys)
  each-Perm p = ∥∥₁_elim p Perm-prop (λ d. each-Permᴰ d)

pub next-Perm : (c : Call) (xs ys : List Member) → Perm xs ys → Perm (next c xs) (next c ys)
next-Perm (join sock) xs ys p = Perm.append_right ((sock, []) ∷ []) p
next-Perm (subscribe topic sock) xs ys p = each-Perm (with_topic topic sock) p
next-Perm (leave sock) xs ys p = each-Perm (unless_gone sock) p

-- A change of each member that makes no more of any socket.
sharing-each :
    (f : Member → List Member) (u : ℕ) (ms : List Member)
    → ((m : Member) → sharing u (f m) ≤ (if m.0 == u then 1 else 0))
    → sharing u (each f ms) ≤ sharing u ms
sharing-each f u [] h = omega arith
sharing-each f u (m ∷ ms) h = omega (
  arith,
  count_if-append (λ (x : Member). x.0 == u) (f m) (each f ms),
  h m,
  sharing-each f u ms h,
)

with_topic-sharing :
    (topic : List ℕ) (sock u : ℕ) (m : Member)
    → sharing u (with_topic topic sock m) ≤ (if m.0 == u then 1 else 0)
with_topic-sharing topic sock u m = elim (Bool-cases (m.0 == sock)) [
  | inr other ↦ rw other (omega arith)
  | inl same ↦ elim (Bool-cases (knows topic m.1)) [
    | inl has ↦ rw (same, has) (omega arith)
    | inr lacks ↦ rw (same, lacks) (omega arith)
  ]
]

unless_gone-sharing :
    (sock u : ℕ) (m : Member) → sharing u (unless_gone sock m) ≤ (if m.0 == u then 1 else 0)
unless_gone-sharing sock u m = elim (Bool-cases (m.0 == sock)) [
  | inl same ↦ rw same (omega arith)
  | inr other ↦ rw other (omega arith)
]

pub next-Distinct :
    (c : Call) (cs : List Call) (ms : List Member)
    → Distinct ms
    → Fits (c ∷ cs) ms
    → Distinct (next c ms)
next-Distinct (join sock) cs ms one (new, _) u =
    let more = count_if-append (λ (m : Member). m.0 == u) ms ((sock, []) ∷ []) in
    elim (Bool-cases (sock == u)) [
      | inl same ↦
          let e : sock ≡ u = ground (arith, same) in
          let none_yet = rw e at new in let m = rw same at more in omega (arith, m, none_yet)
      | inr other ↦ let m = rw other at more in omega (arith, m, one u)
    ]
next-Distinct (subscribe topic sock) cs ms one fits u =
    omega
      (arith, one u, sharing-each (with_topic topic sock) u ms (with_topic-sharing topic sock u))
next-Distinct (leave sock) cs ms one fits u =
    omega (arith, one u, sharing-each (unless_gone sock) u ms (unless_gone-sharing sock u))
