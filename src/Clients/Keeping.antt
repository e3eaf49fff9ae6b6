-- ===== src/Clients/Keeping.antt =====
-- What the operations of common/handlers/client_list.c keep, for one socket that is not removed.
use mathlib.Core.List.{Perm}
use mathlib.Core.Option.{some-injective}
use mathlib.Core.Path.{subst}
use jm_bus.Common.{
  ℕ, ◌+◌, ◌-◌, ◌<◌, ◌≡◌, ◌≢◌, refl, sym, ap, ◌∙◌, inl, inr, Bool, true, false, ◌&&◌, ltb, ◌==◌,
  some, List, [], ◌∷◌, length, get_elem?, arith, Bool-cases, Option-cases, count_if,
  count_if-append, count_if-perm, Yields, Yields_mono, Yields-and_then, Yields_after, Yields-if,
}
use jm_bus.Arrays.{array_resize, remove_live}
use jm_bus.Arrays.Removal.{remove_live_lem}
use jm_bus.Clients.{
  PollFd, ClientMetadata, ClientList, index_of_fd, client_list_add, client_list_remove,
  remove_found, remove_at, remove_and_shrink, client_metadata_free,
}
use jm_bus.Clients.Adding.{InStep, polled, client_list_add-InStep}
use jm_bus.Cstd.{Array, ArrayLib, Plenty}

-- How many descriptors of the list are the socket's.
abbrev pub polls : ℕ → ClientList → ℕ
polls sock cl = count_if (λ p. p.fd == sock) cl.fds.items

-- Descriptors and metadata are in step, and the socket is polled.
pub record Polling (sock : ℕ) (cl : ClientList) : Type 0 where
  pub in_step : InStep cl
  pub polled_still : 0 < polls sock cl

count_all : {A : Type 0} (xs : List A) → count_if (λ _. true) xs ≡ length xs
count_all [] = refl
count_all (x ∷ xs) = omega (arith, count_all xs)

length-perm : {A : Type 0} (xs ys : List A) → Perm xs ys → length xs ≡ length ys
length-perm xs ys p = sym (count_all xs) ∙ count_if-perm (λ _. true) xs ys p ∙ count_all ys

-- The descriptor at the index that was found is the socket's.
pub index_of_fd-some :
    (sock : ℕ) (ps : List PollFd) (i : ℕ)
    → index_of_fd sock ps ≡ some i
    → (p : PollFd) × (get_elem? ps i ≡ some p) × (p.fd ≡ sock)
unfolding index_of_fd
index_of_fd-some sock [] i e = cc
index_of_fd-some sock (p ∷ ps) i e = elim (Bool-cases (p.fd == sock)) [
  | inl here ↦ let at : i ≡ 0 = ground arith in (p, rw at refl, ground arith)
  | inr other ↦ elim (Option-cases (index_of_fd sock ps)) [
    | inl missing ↦ absurd (ground arith)
    | inr (k, found) ↦
        let at : i ≡ k + 1 = ground arith in
        let (q, here, fd) = index_of_fd-some sock ps k found in
        (q, rw at (ground (arith, here)), fd)
  ]
]

module _ {W : Type 0} (lib : ArrayLib W) where
  pub client_list_add-Polling :
      (sock : ℕ) (cl : ClientList) (new : ℕ) (w : W)
      → Plenty lib
      → Polling sock cl
      → Yields (client_list_add lib cl new w) (λ r _. Polling sock r.1)
  client_list_add-Polling sock cl new w plenty h =
      let (cl', w', run, step, fds, _) = client_list_add-InStep lib cl new w plenty h.in_step in
      let grown : polls sock cl'
          ≡ polls sock cl + count_if (λ (p : PollFd). p.fd == sock) (polled new ∷ []) =
        ap (λ l. count_if (λ (p : PollFd). p.fd == sock) l) fds
        ∙ count_if-append (λ (p : PollFd). p.fd == sock) cl.fds.items (polled new ∷ []) in
      rw run (record { in_step = step; polled_still = omega (arith, h.polled_still, grown) })

  -- A removal that returns leaves the live items without the one at the index.
  pub remove_and_shrink-live :
      {A : Type 0} (a : Array A) (idx : ℕ) (x : A) (w : W)
      → get_elem? a.items idx ≡ some x
      → Yields (remove_and_shrink lib a idx w) (λ r _. remove_live a.items idx ≡ some r.1.items)
  unfolding remove_and_shrink array_resize
  remove_and_shrink-live a idx x w here =
      let (r, e, perm) = remove_live_lem a.items idx x here in
      rw e (elim (Bool-cases (ltb 100 (a.cap - length r))) [
        | inr tight ↦ rw tight refl
        | inl wide ↦ elim (Bool-cases (lib.realloc w).0) [
          | inl moved ↦ rw (wide, moved) tt
          | inr failed ↦ rw (wide, failed) refl
        ]
      ])

  -- It takes one item.
  remove_and_shrink-takes :
      {A : Type 0} (a : Array A) (idx : ℕ) (x : A) (w : W)
      → get_elem? a.items idx ≡ some x
      → Yields (remove_and_shrink lib a idx w) (λ r _. Perm a.items (x ∷ r.1.items))
  remove_and_shrink-takes a idx x w here =
      let (l, e, perm) = remove_live_lem a.items idx x here in
      Yields_mono (remove_and_shrink lib a idx w) (λ r _. remove_live a.items idx ≡ some r.1.items)
        (λ r _. Perm a.items (x ∷ r.1.items)) (remove_and_shrink-live a idx x w here)
        (λ r _ live. subst (λ k. Perm a.items (x ∷ k)) (some-injective _ _ (sym e ∙ live)) perm)

  remove_at-Polling :
      (sock : ℕ) (cl : ClientList) (idx : ℕ) (p : PollFd) (w : W)
      → Polling sock cl
      → get_elem? cl.fds.items idx ≡ some p
      → p.fd ≢ sock
      → Yields (remove_at lib cl idx w) (λ r _. Polling sock r.1)
  unfolding remove_at client_metadata_free
  remove_at-Polling sock cl idx p w h here other =
      Yields-and_then _ _ (λ (f : Bool × Array PollFd) (_ : W). Perm cl.fds.items (p ∷ f.1.items))
        (λ (r : Bool × ClientList) (_ : W). Polling sock r.1)
        (remove_and_shrink-takes cl.fds idx p w here)
        (λ f w₁ taken. elim (Option-cases (get_elem? cl.metadata.items idx)) [
          | inl missing ↦ rw missing tt
          | inr (md, found) ↦ rw found (
              Yields_after _ _ (λ (r : Bool × ClientList) (_ : W). Polling sock r.1)
                (λ _ w₂.
                  Yields-and_then _ _
                    (λ (m : Bool × Array ClientMetadata) (_ : W).
                      Perm cl.metadata.items (md ∷ m.1.items))
                    (λ (r : Bool × ClientList) (_ : W). Polling sock r.1)
                    (remove_and_shrink-takes cl.metadata idx md w₂ found)
                    (λ m w₃ taken_md.
                      Yields-if (f.0 && m.0) _ _ w₃
                        (λ (r : Bool × ClientList) (_ : W). Polling sock r.1)
                        (λ _.
                          let fewer = length-perm cl.fds.items (p ∷ f.1.items) taken in
                          let fewer_md = length-perm cl.metadata.items (md ∷ m.1.items) taken_md in
                          let split =
                            count_if-perm (λ (p : PollFd). p.fd == sock) cl.fds.items
                              (p ∷ f.1.items) taken in
                          let not_it : (p.fd == sock) ≡ false = ground arith in
                          record {
                            in_step = omega (arith, h.in_step);
                            polled_still = ground (arith, h.polled_still);
                          })
                        (λ _. tt))))
        ])

  pub client_list_remove-Polling :
      (sock : ℕ) (cl : ClientList) (old : ℕ) (w : W)
      → Polling sock cl
      → old ≢ sock
      → Yields (client_list_remove lib cl old w) (λ r _. Polling sock r.1)
  unfolding client_list_remove
  client_list_remove-Polling sock cl old w h other =
      elim (Option-cases (index_of_fd old cl.fds.items)) [
        | inl missing ↦ rw missing (unfold remove_found in h)
        | inr (i, found) ↦
            let (p, here, fd) = index_of_fd-some old cl.fds.items i found in
            rw found (
              unfold remove_found in
              remove_at-Polling sock cl i p w h here (λ e. other (sym fd ∙ e)))
      ]
