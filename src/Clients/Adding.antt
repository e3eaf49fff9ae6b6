-- ===== src/Clients/Adding.antt =====
-- `client_list_add` of common/handlers/client_list.c and the two arrays that it appends to.
use jm_bus.Common.{
  ℕ, ◌+◌, ◌≡◌, refl, ap, true, false, none, List, [], ◌∷◌, ◌++◌, length, arith, ok, length-append,
}
use jm_bus.Cstd.{ArrayLib, Plenty, len, fresh}
use jm_bus.Cstd.Loops.{init-fresh, inserts}
use jm_bus.Clients.{PollFd, ClientMetadata, ClientList, pollin, client_list_add}

-- Each descriptor has its metadata at the same index.
abbrev pub InStep : ClientList → Type 0
InStep cl = len cl.fds ≡ len cl.metadata

abbrev pub polled : ℕ → PollFd
polled sock = record { fd = sock; events = pollin; revents = 0 }

module _ {W : Type 0} (lib : ArrayLib W) where
  -- While memory lasts and the arrays are in step, `client_list_add` puts the new socket at the
  -- end, with no topics, and the arrays stay in step.
  pub client_list_add-InStep :
      (cl : ClientList) (sock : ℕ) (w : W)
      → Plenty lib
      → InStep cl
      → (cl' : ClientList) × (w' : W) × (client_list_add lib cl sock w ≡ ok (true, cl') w')
        × InStep cl'
        × (cl'.fds.items ≡ cl.fds.items ++ polled sock ∷ [])
        × (cl'.metadata.items ≡ cl.metadata.items ++ record { topics = fresh 2 } ∷ [])
  unfolding client_list_add
  client_list_add-InStep cl sock w plenty same =
      let good = inserts lib plenty cl.fds (polled sock) w in
      let w₁ = (lib.insert cl.fds (polled sock) w).1 in
      let w₂ = (lib.init {A = List ℕ} 2 w₁).1 in
      let md : ClientMetadata = record { topics = fresh 2 } in
      let stored = inserts lib plenty cl.metadata md w₂ in
      let grown = (lib.insert_true cl.fds (polled sock) w good).0 in
      let grown₂ = (lib.insert_true cl.metadata md w₂ stored).0 in
      (
        record {
          fds = (lib.insert cl.fds (polled sock) w).0.1;
          metadata = (lib.insert cl.metadata md w₂).0.1;
        },
        (lib.insert cl.metadata md w₂).1,
        rw (good, init-fresh lib plenty 2 w₁, stored) refl,
        omega (
          arith,
          ap length grown,
          ap length grown₂,
          length-append cl.fds.items (polled sock ∷ []),
          length-append cl.metadata.items (md ∷ []),
        ),
        grown,
        grown₂,
      )

  -- Where the arrays are in step, the descriptor is stored and the metadata's array cannot be
  -- made, `client_list_add` returns false and leaves the descriptor behind, one more than there
  -- are metadata.
  pub client_list_add_parts :
      (cl : ClientList) (sock : ℕ) (w : W)
      → InStep cl
      → (lib.insert cl.fds (polled sock) w).0.0 ≡ true
      → (lib.init {A = List ℕ} 2 (lib.insert cl.fds (polled sock) w).1).0 ≡ none
      → (cl' : ClientList) × (w' : W) × (client_list_add lib cl sock w ≡ ok (false, cl') w')
        × (len cl'.fds ≡ len cl'.metadata + 1)
  unfolding client_list_add
  client_list_add_parts cl sock w same good short = (
    record cl { fds = (lib.insert cl.fds (polled sock) w).0.1 },
    (lib.init {A = List ℕ} 2 (lib.insert cl.fds (polled sock) w).1).1,
    rw (good, short) refl,
    omega (
      arith,
      ap length (lib.insert_true cl.fds (polled sock) w good).0,
      length-append cl.fds.items (polled sock ∷ []),
    ),
  )
