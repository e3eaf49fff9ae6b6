-- ===== src/Server/Agreement/Calls.antt =====
-- Any sequence of the three calls by which common/handlers/connections.c changes clients and topics.
use jm_bus.Common.{ℕ, Bool, List, [], ◌∷◌, Cmd, pure, ◌>>=◌, Yields}
use jm_bus.Cstd.{ArrayLib, Plenty}
use jm_bus.Server.{
  ServerState, server_state_add_client, server_state_add_client_topic, server_state_remove_client,
}
use jm_bus.Server.Agreement.{Separate, Agreed}
use jm_bus.Server.Agreement.Leaving.{remove_client-Agreed}
use jm_bus.Server.Agreement.Memberships.{add_client-Agreed, add_client_topic-Agreed}
use jm_bus.Sockets.{Sockets}

pub data Call : Type 0 where
  join : ℕ → Call
  subscribe : List ℕ → ℕ → Call
  leave : ℕ → Call

abbrev pub UsedBy : (List ℕ → Type 0) → Call → Type 0
UsedBy Used (join sock) = Unit {0}
UsedBy Used (subscribe topic sock) = Used topic
UsedBy Used (leave sock) = Unit {0}

module _ {W : Type 0} (os : Sockets W) (lib : ArrayLib W) where
  unfoldable pub call_server : Call → ServerState → Cmd W (Bool × ServerState)
  call_server (join sock) s = server_state_add_client lib s sock
  call_server (subscribe topic sock) s = server_state_add_client_topic lib s topic sock
  call_server (leave sock) s = server_state_remove_client os lib s sock

  -- One after the other, whatever each returns.
  unfoldable pub call_each : List Call → ServerState → Cmd W ServerState
  unfolding call_server
  call_each [] s = pure s
  call_each (c ∷ cs) s = do (_, s') ← call_server c s; call_each cs s'

module _ {W : Type 0} (os : Sockets W) (lib : ArrayLib W) (plenty : Plenty lib)
    (Used : List ℕ → Type 0) (separate : Separate Used) where
  pub call_server-Agreed :
      (c : Call) (s : ServerState) (w : W)
      → Agreed Used s
      → UsedBy Used c
      → Yields (call_server os lib c s w) (λ r _. Agreed Used r.1)
  unfolding call_server
  call_server-Agreed (join sock) s w g used = add_client-Agreed lib plenty Used separate s sock w g
  call_server-Agreed (subscribe topic sock) s w g used =
      add_client_topic-Agreed lib plenty Used separate s topic sock w g used
  call_server-Agreed (leave sock) s w g used = remove_client-Agreed os lib Used separate s sock w g
