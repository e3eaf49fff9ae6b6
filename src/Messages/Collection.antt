-- ===== src/Messages/Collection.antt =====
-- The `do` loop of `read_all_raw_bytes` in common/handlers/messages.c.
use jm_bus.Common.{
  ◌-◌, ◌^◌, false, ℕ, zero, suc, ◌+◌, ◌*◌, ◌≤◌, ◌<◌, ◌≡◌, ◌≢◌, ap, ◌∙◌, inl, inr, Option, none,
  some, length, leb, ◌==◌, arith, Option-cases, Bool-cases, length-append, out_of_fuel, pure,
  Settles, Settles_mono, Settles-and_then, Ends-not_cut,
}
use jm_bus.Cstd.{Array, ArrayLib, len, fresh}
use jm_bus.Cstd.Ending.{always, free-Ends}
use jm_bus.Cstd.Loops.{init_lem, insert_each_lem}
use jm_bus.Messages.{bufsiz, large_msg_limit}
use jm_bus.Messages.Copying.{copy_read_all, copy_read-settles}
use jm_bus.Messages.Receive.{copy_read, recv_rounds, drop_buffer, recv_loop, read_all_raw_bytes}
use jm_bus.Sockets.{Sockets}

-- The bytes collected are fewer than one buffer past the limit.
abbrev pub Bounded : Option (Array ℕ) → Type 0
Bounded none = Unit {0}
Bounded (some a) = len a < large_msg_limit + bufsiz

module _ {W : Type 0} (os : Sockets W) (lib : ArrayLib W) where
  drop_buffer-settles : (a : Array ℕ) (w : W) → Settles (drop_buffer os lib a w) (λ o _. Bounded o)
  drop_buffer-settles a w =
      Settles-and_then (lib.free a w) (λ _. pure none) (λ _ _. Unit {0}) (λ o _. Bounded o)
        (free-Ends lib a w) (λ _ _ _. tt)

  recv_loop-settles :
      (fuel socket : ℕ) (buf : Array ℕ) (w : W)
      → len buf < large_msg_limit
      → large_msg_limit ≤ len buf + fuel * bufsiz
      → Settles (recv_loop os lib fuel socket buf w) (λ o _. Bounded o)
  unfolding recv_loop
  recv_loop-settles zero socket buf w below enough = absurd (omega arith)
  recv_loop-settles (suc fuel) socket buf w below enough =
      let w₁ = (os.recv socket bufsiz w).1 in
      elim (Option-cases (os.recv socket bufsiz w).0) [
        | inl e ↦ rw e (
            Settles-and_then (copy_read os lib (2 ^ 64 - 1) buf (os.read_buffer w₁) w₁) _
              (λ r _. r.0 ≡ false) (λ o _. Bounded o)
              (copy_read-settles os lib (2 ^ 64 - 1) (os.read_buffer w₁) buf w₁
                (omega (arith, os.buffer_size w₁)))
              (λ r w₂ failed. rw failed (drop_buffer-settles r.1 w₂)))
        | inr (bytes, e) ↦
            let (r, w₂, run, outcome) = insert_each_lem lib (always lib) buf bytes w₁ in
            let fits : length bytes ≤ bufsiz = os.recv_fits socket bufsiz w bytes e in
            elim outcome [
              | inl (_, failed, based) ↦
                  rw (e, copy_read_all os lib bytes buf w₁, run, failed)
                    (drop_buffer-settles r.1 w₂)
              | inr (done, i) ↦
                  let grown : len r.1 ≡ len buf + length bytes =
                    ap length i.appended ∙ length-append buf.items bytes in
                  rw (e, copy_read_all os lib bytes buf w₁, run, done)
                    (elim (Bool-cases (leb large_msg_limit (len r.1))) [
                      | inl over ↦ rw over (omega arith)
                      | inr under ↦ elim (Bool-cases (length bytes == bufsiz)) [
                        | inl full ↦
                            rw (under, full)
                              (recv_loop-settles fuel socket r.1 w₂ (ground arith) (ground arith))
                        | inr rest ↦ rw (under, rest) (omega arith)
                      ]
                    ])
            ]
      ]

  pub read_all_raw_bytes-settles :
      (socket : ℕ) (w : W) → Settles (read_all_raw_bytes os lib socket w) (λ o _. Bounded o)
  unfolding read_all_raw_bytes
  read_all_raw_bytes-settles socket w = elim (init_lem lib (always lib) {A = ℕ} bufsiz w) [
    | inl (_, e) ↦ rw e tt
    | inr e ↦ rw e (
        recv_loop-settles recv_rounds socket (fresh bufsiz) (lib.init {A = ℕ} bufsiz w).1
          (omega arith) (omega arith))
  ]

  -- The `do` loop of `read_all_raw_bytes` calls `recv` no more than `recv_rounds` times, whatever
  -- these calls bring and wherever memory fails, as the limit on the size comes first: if each of
  -- them returns, the function ends.
  pub read_all_raw_bytes-ends :
      (socket : ℕ) (w : W) → read_all_raw_bytes os lib socket w ≢ out_of_fuel
  read_all_raw_bytes-ends socket w = Ends-not_cut (read_all_raw_bytes os lib socket w) (
      Settles_mono (read_all_raw_bytes os lib socket w) (λ o _. Bounded o) (λ _ _. Unit {0})
        (read_all_raw_bytes-settles socket w) (λ _ _ _. tt))
