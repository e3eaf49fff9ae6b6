-- ===== src/Clients/Leaving.antt =====
-- What a removal from the list of common/handlers/client_list.c leaves, whenever it returns.
use mathlib.Core.List.{Perm}
use mathlib.Core.Option.{some-injective}
use mathlib.Core.Path.{subst}
use jm_bus.Common.{
  ℕ, ◌≡◌, refl, sym, ap, ◌∙◌, inl, inr, Bool, ◌&&◌, some, List, ◌∷◌, length, get_elem?, set, All,
  All-set, All-take, All-get, arith, leb, ◌==◌, ◌-◌, Bool-cases, Option-cases, Yields,
  Yields-and_then, Yields_after, Yields-if,
}
use jm_bus.Arrays.{remove_live}
use jm_bus.Arrays.Removal.{remove_live_lem, below_length}
use jm_bus.Clients.{PollFd, ClientMetadata, ClientList, remove_at, client_metadata_free}
use jm_bus.Clients.Adding.{InStep}
use jm_bus.Clients.Keeping.{remove_and_shrink-live}
use jm_bus.Clients.Pairs.{get_elem?-zip, remove_live-zip}
use jm_bus.Clients.Removing.{pairs}
use jm_bus.Cstd.{Array, ArrayLib}

pub All-remove_live :
    {A : Type 0} (P : A → Type 0) (xs ys : List A) (i : ℕ)
    → All P xs
    → remove_live xs i ≡ some ys
    → All P ys
All-remove_live P xs ys i h e = elim (Bool-cases (leb (length xs) i)) [
  | inl outside ↦ absurd (let bad = rw outside at e in cc)
  | inr inside ↦ elim (Bool-cases (i == length xs - 1)) [
    | inl last ↦
        let now = rw (inside, last) at e in
        subst (All P) (some-injective _ _ now) (All-take P (length xs - 1) xs h)
    | inr inner ↦ elim (Option-cases (get_elem? xs (length xs - 1))) [
      | inl missing ↦ absurd (let bad = rw (inside, inner, missing) at e in cc)
      | inr (z, found) ↦
          let now = rw (inside, inner, found) at e in
          subst (All P) (some-injective _ _ now) (
            All-take P (length xs - 1) (set xs i z) (All-set P xs i z h (All-get P xs _ z h found)))
    ]
  ]
]

-- The list without one client.
pub record Left (cl : ClientList) (idx : ℕ) (p : PollFd) (md : ClientMetadata) (cl' : ClientList)
    : Type 0 where
  pub in_step : InStep cl'
  pub others : Perm (pairs cl) ((p, md) ∷ pairs cl')
  pub fds : Perm cl.fds.items (p ∷ cl'.fds.items)
  pub metadata : remove_live cl.metadata.items idx ≡ some cl'.metadata.items

module _ {W : Type 0} (lib : ArrayLib W) where
  pub remove_at-Left :
      (cl : ClientList) (idx : ℕ) (p : PollFd) (md : ClientMetadata) (w : W)
      → InStep cl
      → get_elem? cl.fds.items idx ≡ some p
      → get_elem? cl.metadata.items idx ≡ some md
      → Yields (remove_at lib cl idx w) (λ r _. Left cl idx p md r.1)
  unfolding remove_at client_metadata_free
  remove_at-Left cl idx p md w same at_p at_md =
      Yields-and_then _ _
        (λ (f : Bool × Array PollFd) (_ : W). remove_live cl.fds.items idx ≡ some f.1.items)
        (λ (r : Bool × ClientList) (_ : W). Left cl idx p md r.1)
        (remove_and_shrink-live lib cl.fds idx p w at_p)
        (λ f w₁ live. rw at_md (
          Yields_after _ _ (λ (r : Bool × ClientList) (_ : W). Left cl idx p md r.1)
            (λ _ w₂.
              Yields-and_then _ _
                (λ (m : Bool × Array ClientMetadata) (_ : W).
                  remove_live cl.metadata.items idx ≡ some m.1.items)
                (λ (r : Bool × ClientList) (_ : W). Left cl idx p md r.1)
                (remove_and_shrink-live lib cl.metadata idx md w₂ at_md)
                (λ m w₃ live_md.
                  Yields-if (f.0 && m.0) _ _ w₃
                    (λ (r : Bool × ClientList) (_ : W). Left cl idx p md r.1)
                    (λ _. leaves f.1 m.1 live live_md) (λ _. tt)))))
    where
      leaves :
          (fds : Array PollFd) (mds : Array ClientMetadata)
          → remove_live cl.fds.items idx ≡ some fds.items
          → remove_live cl.metadata.items idx ≡ some mds.items
          → Left cl idx p md (record { fds = fds; metadata = mds })
      leaves fds mds live live_md =
          let (fs, ms, e, e₂, e₃, short, short₂) =
            remove_live-zip cl.fds.items cl.metadata.items idx same
              (below_length cl.fds.items idx p at_p) in
          let is_fs : fs ≡ fds.items = some-injective _ _ (sym e ∙ live) in
          let is_ms : ms ≡ mds.items = some-injective _ _ (sym e₂ ∙ live_md) in
          let (r, here, perm) =
            remove_live_lem (pairs cl) idx (p, md)
              (get_elem?-zip cl.fds.items cl.metadata.items idx p md at_p at_md) in
          let (l, here₂, perm₂) = remove_live_lem cl.fds.items idx p at_p in
          record {
            in_step = omega (arith, ap length is_fs, ap length is_ms, short, short₂, same);
            others =
                subst (λ k. Perm (pairs cl) ((p, md) ∷ k))
                  (some-injective _ _ (sym here ∙ e₃) ∙ rw (is_fs, is_ms) refl) perm;
            fds =
                subst (λ k. Perm cl.fds.items (p ∷ k)) (some-injective _ _ (sym here₂ ∙ live))
                  perm₂;
            metadata = live_md;
          }
