-- ===== src/Sockets.antt =====
-- The socket calls of the operating system, and common/helpers/socket.c. A socket is a number; the
-- -1 that a failed call returns is a case of its own.
use jm_bus.Common.{
  ℕ, ◌≤◌, ◌≡◌, Bool, true, false, Option, none, some, List, length, if◌then◌else◌, Cmd, exits, pure,
  call, ◌>>=◌, ◌>>◌,
}
use jm_bus.Cstd.{Array, ArrayLib}
use jm_bus.Messages.{Message, bufsiz, messages_write}

pub record Sockets (W : Type 0) : Type 0 where
  -- `recv(socket, read_buffer, n, 0)`: the bytes received, `none` for -1
  pub recv : ℕ → ℕ → W → Option (List ℕ) × W
  -- what the static `read_buffer` holds
  pub read_buffer : W → List ℕ
  -- `send(socket, bytes, len, 0)`: false for -1
  pub send : ℕ → List ℕ → W → Bool × W
  -- `accept(socket, NULL, NULL)`, `none` for -1
  pub accept : ℕ → W → Option ℕ × W
  pub close : ℕ → W → Unit {0} × W
  -- `static uint8_t read_buffer[BUFSIZ]`
  pub buffer_size : (w : W) → length (read_buffer w) ≤ bufsiz
  -- `recv` returns no more than what fits the buffer.
  pub recv_fits :
      (socket n : ℕ) (w : W) (bytes : List ℕ) → (recv socket n w).0 ≡ some bytes → length bytes ≤ n

module _ {W : Type 0} (os : Sockets W) where
  unfoldable pub send_message : ℕ → Array ℕ → Cmd W Bool
  send_message socket buf = call (os.send socket buf.items)

  module _ (lib : ArrayLib W) where
    unfoldable pub prepare_and_send_message : ℕ → Message → Cmd W Bool
    unfolding send_message
    prepare_and_send_message socket msg = do
      (written, out) ← messages_write lib msg
      elim out [
        | none ↦ pure false
        | some bytes ↦ do
          sent ← send_message socket bytes
          if sent then (lib.free bytes >> pure true) else (λ _. exits 1)
      ]
