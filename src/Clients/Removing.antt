-- ===== src/Clients/Removing.antt =====
-- `client_list_remove` of common/handlers/client_list.c and the pairs of descriptor and metadata.
use mathlib.Core.List.{Perm}
use mathlib.Core.Option.{some-injective}
use mathlib.Core.Path.{subst}
use native.Mathlib.Decide.{dec_lt}
use jm_bus.Common.{
  ℕ, ◌+◌, ◌-◌, ◌≤◌, ◌<◌, ◌≡◌, refl, sym, ◌∙◌, ◌⊎◌, inl, inr, true, false, Bool-cases, ltb, some,
  List, ◌∷◌, length, get_elem?, arith, ok, fault, exits, bad_free,
}
use jm_bus.Cstd.{Array, ArrayLib, len}
use jm_bus.Arrays.{remove_live, array_resize}
use jm_bus.Arrays.Removal.{remove_live_lem, below_length}
use jm_bus.Clients.{
  PollFd, ClientMetadata, ClientList, index_of_fd, client_metadata_free, remove_found,
  remove_and_shrink, remove_at, client_list_remove,
}
use jm_bus.Clients.Pairs.{zip, get_elem?-zip, remove_live-zip}
use jm_bus.Clients.Adding.{InStep}

-- Each client's descriptor with its metadata.
abbrev pub pairs : ClientList → List (PollFd × ClientMetadata)
pairs cl = zip cl.fds.items cl.metadata.items

module _ {W : Type 0} (lib : ArrayLib W) where
  shrink_tight :
      {A : Type 0} (a : Array A) (idx : ℕ) (r : List A) (w : W)
      → remove_live a.items idx ≡ some r
      → a.cap ≤ length r + 100
      → remove_and_shrink lib a idx w ≡ ok (true, record a { items = r }) w
  unfolding remove_and_shrink
  shrink_tight a idx r w e tight =
      let small : ltb 100 (a.cap - length r) ≡ false = ground arith in rw (e, small) refl

  shrink_wide :
      {A : Type 0} (a : Array A) (idx : ℕ) (r : List A) (w : W)
      → remove_live a.items idx ≡ some r
      → length r + 100 < a.cap
      → (remove_and_shrink lib a idx w ≡ fault bad_free)
        ⊎ ((w' : W) × (remove_and_shrink lib a idx w ≡ ok (false, record a { items = r }) w'))
  unfolding remove_and_shrink array_resize
  shrink_wide a idx r w e wide =
      let big : ltb 100 (a.cap - length r) ≡ true = ground arith in
      elim (Bool-cases (lib.realloc w).0) [
        | inl moved ↦ inl (rw (e, big, moved) refl)
        | inr failed ↦ inr ((lib.realloc w).1, rw (e, big, failed) refl)
      ]

  -- `client_list_remove` of a socket in the list, where the arrays are in step, have fewer than
  -- 100 free cells, and the topics of the client were never advanced: its descriptor goes together
  -- with its metadata, every other pair stays a pair, and the arrays stay in step.
  pub client_list_remove-pairs :
      (cl : ClientList) (sock i : ℕ) (p : PollFd) (md : ClientMetadata) (w : W)
      → InStep cl
      → cl.fds.cap < len cl.fds + 100
      → cl.metadata.cap < len cl.metadata + 100
      → index_of_fd sock cl.fds.items ≡ some i
      → get_elem? cl.fds.items i ≡ some p
      → get_elem? cl.metadata.items i ≡ some md
      → md.topics.offset ≡ 0
      → (cl' : ClientList) × (w' : W) × (client_list_remove lib cl sock w ≡ ok (true, cl') w')
        × InStep cl'
        × Perm (pairs cl) ((p, md) ∷ pairs cl')
  unfolding client_list_remove remove_at client_metadata_free
  client_list_remove-pairs cl sock i p md w same tight tight₂ found at_p at_md start =
      let below : i < length cl.fds.items = below_length cl.fds.items i p at_p in
      let (fs, ms, e, e₂, e₃, short, short₂) =
        remove_live-zip cl.fds.items cl.metadata.items i same below in
      let (r, here, perm) =
        remove_live_lem (pairs cl) i (p, md)
          (get_elem?-zip cl.fds.items cl.metadata.items i p md at_p at_md) in
      let (w₁, freed) = lib.free_start md.topics w start in
      (
        record {
          fds = record (cl.fds) { items = fs };
          metadata = record (cl.metadata) { items = ms };
        },
        w₁,
        rw found (
            unfold remove_found in
            rw
              (
                shrink_tight cl.fds i fs w e (omega arith),
                at_md,
                freed,
                shrink_tight cl.metadata i ms w₁ e₂ (omega arith),
              )
              refl),
        omega arith,
        subst (λ l. Perm (pairs cl) ((p, md) ∷ l)) (some-injective _ _ (sym here ∙ e₃)) perm,
      )

  -- Where the arrays are in step and more than 99 cells behind the descriptors are free before the
  -- removal, `client_list_remove` of a socket in the list, whose topics were never advanced, does
  -- not return: it faults, or the program exits.
  pub client_list_remove_fatal :
      (cl : ClientList) (sock i : ℕ) (md : ClientMetadata) (w : W)
      → InStep cl
      → len cl.fds + 99 < cl.fds.cap
      → index_of_fd sock cl.fds.items ≡ some i
      → get_elem? cl.metadata.items i ≡ some md
      → md.topics.offset ≡ 0
      → (client_list_remove lib cl sock w ≡ fault bad_free)
        ⊎ (client_list_remove lib cl sock w ≡ exits 1)
  unfolding client_list_remove remove_at client_metadata_free
  client_list_remove_fatal cl sock i md w same wide found at_md start =
      let below : i < length cl.fds.items =
        omega (arith, below_length cl.metadata.items i md at_md) in
      let (fs, ms, e, e₂, e₃, short, short₂) =
        remove_live-zip cl.fds.items cl.metadata.items i same below in
      elim (shrink_wide cl.fds i fs w e (omega arith)) [
        | inl broken ↦ inl (rw found (unfold remove_found in rw broken refl))
        | inr (w₁, failed) ↦
            let (w₂, freed) = lib.free_start md.topics w₁ start in
            elim (dec_lt (length ms + 100) cl.metadata.cap) [
              | no tight ↦ inr (
                  rw found (
                    unfold remove_found in
                    rw (failed, at_md, freed, shrink_tight cl.metadata i ms w₂ e₂ (omega arith))
                      refl))
              | yes wide₂ ↦ elim (shrink_wide cl.metadata i ms w₂ e₂ wide₂) [
                | inl broken ↦
                    inl (rw found (unfold remove_found in rw (failed, at_md, freed, broken) refl))
                | inr (w₃, failed₂) ↦
                    inr (rw found (unfold remove_found in rw (failed, at_md, freed, failed₂) refl))
              ]
            ]
      ]
