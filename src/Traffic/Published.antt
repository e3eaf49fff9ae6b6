-- ===== src/Traffic/Published.antt =====
-- From `client_publish` of common/handlers/client.c to the subscribers.
use jm_bus.Common.{◌>>=◌}
use jm_bus.Client.{Client}
use jm_bus.Network.{Network}
use jm_bus.Sockets.{Sockets}
