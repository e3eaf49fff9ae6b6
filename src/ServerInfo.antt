-- ===== src/ServerInfo.antt =====
-- common/handlers/server.c and common/types/server.h: the socket that the server listens on.
use jm_bus.Common.{ℕ, Bool, false, Option, none, some, if◌then◌else◌, Cmd, pure, call, ◌>>=◌, ◌>>◌}
use jm_bus.Network.{Address, Network}
use jm_bus.Sockets.{Sockets}

pub record ServerInfo : Type 0 where
  pub addr : Address
  pub socket : ℕ

module _ {W : Type 0} (net : Network W) where
  -- The info with its socket, where the result is true. A socket that is then given up stays open.
  unfoldable pub server_handler_init : Address → ℕ → ℕ → Cmd W (Option ServerInfo)
  server_handler_init addr type protocol = do
    opened ← call (net.socket addr.sin_family type protocol)
    elim opened [
      | none ↦ pure none
      | some sock ↦ do
        reused ← call (net.setsockopt sock)
        if reused
            then (do
              unblocked ← call (net.ioctl sock)
              if unblocked then pure (some (record { addr = addr; socket = sock })) else pure none)
            else pure none
    ]

  unfoldable pub server_handler_bind_and_listen : ServerInfo → Cmd W Bool
  server_handler_bind_and_listen si = do
    bound ← call (net.bind si.socket si.addr)
    if bound then call (net.listen si.socket 10) else pure false

  unfoldable pub server_handler_close : Sockets W → ServerInfo → Cmd W (Unit {0})
  server_handler_close os si = do call (net.shutdown si.socket); call (os.close si.socket)
