-- ===== src/Messages/Failing.antt =====
-- A `recv` that fails, in common/handlers/messages.c.
use jm_bus.Common.{◌-◌, ◌^◌, ℕ, suc, arith, ◌≡◌, refl, none, fault, out_of_bounds}
use jm_bus.Cstd.{Array, ArrayLib, Plenty, fresh}
use jm_bus.Cstd.Loops.{init-fresh}
use jm_bus.Messages.{Message, bufsiz}
use jm_bus.Messages.Copying.{copy_read-past}
use jm_bus.Messages.Receive.{recv_loop, read_all_raw_bytes, message_array_generate_from_client}
use jm_bus.Sockets.{Sockets}

module _ {W : Type 0} (os : Sockets W) (lib : ArrayLib W) (plenty : Plenty lib) where
  recv_loop-fault :
      (fuel socket : ℕ) (buf : Array ℕ) (w : W)
      → (os.recv socket bufsiz w).0 ≡ none
      → recv_loop os lib (suc fuel) socket buf w ≡ fault out_of_bounds
  unfolding recv_loop
  recv_loop-fault fuel socket buf w failed =
      let w₁ = (os.recv socket bufsiz w).1 in
      rw
        (
          failed,
          copy_read-past os lib plenty (2 ^ 64 - 1) (os.read_buffer w₁) buf w₁
              (omega (arith, os.buffer_size w₁)),
        )
        refl

  -- Where the first `recv` fails, so that its -1 becomes a `size_t`, and memory lasts: the loop of
  -- `message_array_generate_from_client` over the bytes received runs past the end of
  -- `read_buffer` and reads behind it.
  pub failed_recv_overruns :
      (socket : ℕ) (w : W)
      → (os.recv socket bufsiz (lib.init {A = ℕ} bufsiz (lib.init {A = Message} 2 w).1).1).0 ≡ none
      → message_array_generate_from_client os lib socket w ≡ fault out_of_bounds
  unfolding message_array_generate_from_client read_all_raw_bytes
  failed_recv_overruns socket w failed =
      let w₁ = (lib.init {A = Message} 2 w).1 in
      rw
        (
          init-fresh lib plenty {A = Message} 2 w,
          init-fresh lib plenty {A = ℕ} bufsiz w₁,
          recv_loop-fault 524287 socket (fresh bufsiz) (lib.init {A = ℕ} bufsiz w₁).1 failed,
        )
        refl
