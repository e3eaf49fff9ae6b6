-- ===== src/Server/Agreement/Refining.antt =====
-- The state of the server stands for its members, over any sequence of calls.
use mathlib.Core.List.{Perm}
use mathlib.Core.List.Perm
use jm_bus.Common.{
  ℕ, ◌≡◌, List, [], ◌∷◌, All, arith, ◌==◌, count_if-perm, ok, Yields, Yields-ok, Yields_both,
  Yields-and_then,
}
use jm_bus.Cstd.{ArrayLib, Plenty}
use jm_bus.Server.{ServerState}
use jm_bus.Server.Agreement.{Separate, Agreed}
use jm_bus.Server.Agreement.Calls.{
  Call, join, subscribe, leave, UsedBy, call_server, call_each, call_server-Agreed,
}
use jm_bus.Server.Agreement.Members.{
  Member, next, next_each, Distinct, Fits, next-Perm, next-Distinct,
}
use jm_bus.Sockets.{Sockets}
use jm_bus.Server.Agreement.Touching.{members}
use jm_bus.Server.Agreement.Following.{Follows, call-Follows}

module _ {W : Type 0} (os : Sockets W) (lib : ArrayLib W) (plenty : Plenty lib)
    (Used : List ℕ → Type 0) (separate : Separate Used) where
  -- The members up to their order.
  pub record Stands (s : ServerState) (ms : List Member) : Type 0 where
    pub agreed : Agreed Used s
    pub stands : Perm (members s) ms

  each-Stands :
      (cs : List Call) (s : ServerState) (ms : List Member) (w : W)
      → Stands s ms
      → Distinct ms
      → Fits cs ms
      → All (UsedBy Used) cs
      → Yields (call_each os lib cs s w) (λ s' _. Stands s' (next_each cs ms))
  unfolding call_each
  each-Stands [] s ms w h one fits used = h
  each-Stands (c ∷ cs) s ms w h one fits (used_c, used) =
      let one_here : Distinct (members s) = λ u.
        omega (arith, one u, count_if-perm (λ (m : Member). m.0 == u) (members s) ms h.stands) in
      Yields-and_then (call_server os lib c s w) _
        (λ r _. Agreed Used r.1 × Perm (members r.1) (next c (members s)))
        (λ s' _. Stands s' (next_each cs (next c ms)))
        (Yields_both (call_server os lib c s w) (λ r _. Agreed Used r.1) (Follows c s)
          (call_server-Agreed os lib plenty Used separate c s w h.agreed used_c)
          (call-Follows os lib plenty Used separate c s w h.agreed one_here used_c))
        (λ r w' done.
          each-Stands cs r.1 (next c ms) w'
            (record {
              agreed = done.0;
              stands = Perm.trans (done.1) (next-Perm c (members s) ms h.stands);
            })
            (next-Distinct c cs ms one fits) (fits_rest c cs ms fits) used)
    where
      fits_rest :
          (c : Call) (cs : List Call) (ms : List Member) → Fits (c ∷ cs) ms → Fits cs (next c ms)
      fits_rest (join sock) cs ms (new, fits) = fits
      fits_rest (subscribe topic sock) cs ms fits = fits
      fits_rest (leave sock) cs ms fits = fits

  -- Any sequence of `server_state_add_client`, `server_state_add_client_topic` and
  -- `server_state_remove_client` that returns, from a state in which clients and topic map agree
  -- and no two clients share a socket, with memory that suffices, topics of which none is the
  -- start of another, and sockets that join being new: clients and map agree in the state it
  -- leaves, and its clients, up to their order, are those that the calls make of a plain list of
  -- sockets with their topics, where joining adds a socket without topics, subscribing adds a
  -- topic that is not there yet, and leaving drops the socket.
  pub call_each-refines :
      (cs : List Call) (s s' : ServerState) (w w' : W)
      → Agreed Used s
      → Distinct (members s)
      → Fits cs (members s)
      → All (UsedBy Used) cs
      → call_each os lib cs s w ≡ ok s' w'
      → Agreed Used s' × Perm (members s') (next_each cs (members s))
  call_each-refines cs s s' w w' g one fits used run =
      let h =
        Yields-ok (call_each os lib cs s w) (λ s' _. Stands s' (next_each cs (members s))) s' w'
          (each-Stands cs s (members s) w (record { agreed = g; stands = Perm.refl (members s) })
            one fits used)
          run in
      (h.agreed, h.stands)
