-- ===== src/Client/Exchange.antt =====
-- `client_connect` of common/handlers/client.c and the greeting.
use jm_bus.Common.{ℕ, ◌≡◌, refl, true, some, [], arith, ok, Cmd}
use jm_bus.Client.{Client, is_greeted, client_connect}
use jm_bus.Cstd.{Array, ArrayLib, Plenty}
use jm_bus.Messages.{Message, bufsiz, connection_type}
use jm_bus.Messages.Arrival.{generate_one_frame}
use jm_bus.Messages.Batches.{Frame}
use jm_bus.Messages.Frames.{frame}
use jm_bus.Network.{Network}
use jm_bus.Sockets.{Sockets}

module _ {W : Type 0} (os : Sockets W) (net : Network W) (lib : ArrayLib W)
    (plenty : Plenty lib) where
  -- While memory lasts, `client_connect` is true where the connection is made and the first read
  -- brings a connection frame without topic and body.
  pub client_connect_greeted :
      (gone : Cmd W (Array Message)) (c : Client) (w : W)
      → (net.connect c.socket c.addr w).0 ≡ true
      → (os.recv c.socket bufsiz
          (lib.init {A = ℕ} bufsiz
            (lib.init {A = Message} 2 (net.connect c.socket c.addr w).1).1).1).0
        ≡ some (frame connection_type [] [])
      → (w' : W) × (client_connect os net lib gone c w ≡ ok true w')
  unfolding client_connect is_greeted
  client_connect_greeted gone c w connected received =
      let w₁ = (net.connect c.socket c.addr w).1 in
      let f : Frame = record { type = connection_type; topic = []; body = [] } in
      let (r, w₂, run, (m, out, some_out, items, decoded)) =
        generate_one_frame os lib plenty f c.socket w₁ received (omega arith) in
      (w₂, rw (connected, run, some_out, items, decoded.typed) refl)
