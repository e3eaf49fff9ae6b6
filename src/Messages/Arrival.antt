-- ===== src/Messages/Arrival.antt =====
-- One frame that arrives in one read, through all of `message_array_generate_from_client`.
use jm_bus.Common.{
  ℕ, suc, ◌<◌, ◌≡◌, refl, ap, false, some, List, [], ◌∷◌, length, leb, ◌==◌, arith, ok, Returns,
}
use jm_bus.Cstd.{Array, ArrayLib, Plenty, len, fresh}
use jm_bus.Cstd.Loops.{init-fresh, insert_each_all}
use jm_bus.Messages.{Message, bufsiz, large_msg_limit}
use jm_bus.Messages.Batches.{Frame, encode, parse_one_frame}
use jm_bus.Messages.Reading.{Decodes}
use jm_bus.Messages.Copying.{copy_read_all}
use jm_bus.Messages.Receive.{recv_loop, read_all_raw_bytes, message_array_generate_from_client}
use jm_bus.Sockets.{Sockets}

module _ {W : Type 0} (os : Sockets W) (lib : ArrayLib W) (plenty : Plenty lib) where
  -- A read that does not fill its buffer is the last.
  recv_loop_once :
      (fuel socket : ℕ) (bytes : List ℕ) (w : W)
      → (os.recv socket bufsiz w).0 ≡ some bytes
      → length bytes < bufsiz
      → (buf : Array ℕ) × (w' : W) × (recv_loop os lib (suc fuel) socket (fresh bufsiz) w
          ≡ ok (some buf) w')
        × (buf.items ≡ bytes)
        × (buf.offset ≡ 0)
  unfolding recv_loop
  recv_loop_once fuel socket bytes w received short =
      let (b, w', run, i) =
        insert_each_all lib plenty (fresh bufsiz) bytes (os.recv socket bufsiz w).1 in
      let size : len b ≡ length bytes = ap length i.appended in
      let under : leb large_msg_limit (len b) ≡ false = ground arith in
      let rest : (length bytes == bufsiz) ≡ false = ground arith in
      (
        b,
        w',
        rw
            (
              received,
              copy_read_all os lib bytes (fresh bufsiz) (os.recv socket bufsiz w).1,
              run,
              under,
              rest,
            )
            refl,
        i.appended,
        i.based,
      )

  read_all_raw_bytes_once :
      (socket : ℕ) (bytes : List ℕ) (w : W)
      → (os.recv socket bufsiz (lib.init {A = ℕ} bufsiz w).1).0 ≡ some bytes
      → length bytes < bufsiz
      → (buf : Array ℕ) × (w' : W) × (read_all_raw_bytes os lib socket w ≡ ok (some buf) w')
        × (buf.items ≡ bytes)
        × (buf.offset ≡ 0)
  unfolding read_all_raw_bytes
  read_all_raw_bytes_once socket bytes w received short =
      let (b, w', run, items, start) =
        recv_loop_once (recv_rounds_less) socket bytes (lib.init {A = ℕ} bufsiz w).1 received
          short in
      (b, w', rw (init-fresh lib plenty {A = ℕ} bufsiz w) run, items, start)
    where
      recv_rounds_less : ℕ
      recv_rounds_less = 524287

  pub generate_one_frame :
      (f : Frame) (socket : ℕ) (w : W)
      → (os.recv socket bufsiz (lib.init {A = ℕ} bufsiz (lib.init {A = Message} 2 w).1).1).0
        ≡ some (encode f)
      → length (encode f) < bufsiz
      → Returns (message_array_generate_from_client os lib socket w) λ r _.
        (m : Message) × (out : Array Message) × (r ≡ some out)
        × (out.items ≡ m ∷ [])
        × Decodes m f.type f.topic f.body
  unfolding message_array_generate_from_client
  generate_one_frame f socket w received short =
      let w₁ = (lib.init {A = Message} 2 w).1 in
      let (b, w₂, run, items, start) =
        read_all_raw_bytes_once socket (encode f) w₁ received short in
      let (r, w₃, parsed, h) =
        parse_one_frame os lib plenty f b w₂ items start (omega (arith, ap length items)) in
      (r, w₃, rw (init-fresh lib plenty {A = Message} 2 w, run) parsed, h)
