-- ===== src/Messages/Copying.antt =====
-- The copy loop of `read_all_raw_bytes` in common/handlers/messages.c.
use jm_bus.Common.{
  ℕ, zero, suc, ◌<◌, ◌≡◌, refl, inl, inr, false, List, [], ◌∷◌, length, arith, Bool-cases, fault,
  out_of_bounds, Settles,
}
use jm_bus.Cstd.{Array, ArrayLib, Plenty}
use jm_bus.Cstd.Loops.{insert_each, inserts}
use jm_bus.Messages.Receive.{copy_read}
use jm_bus.Sockets.{Sockets}

module _ {W : Type 0} (os : Sockets W) (lib : ArrayLib W) where
  -- As many as there are.
  pub copy_read_all :
      (bytes : List ℕ) (buf : Array ℕ) (w : W)
      → copy_read os lib (length bytes) buf bytes w ≡ insert_each lib buf bytes w
  unfolding copy_read insert_each
  copy_read_all [] buf w = refl
  copy_read_all (x ∷ bytes) buf w = elim (Bool-cases (lib.insert buf x w).0.0) [
    | inl good ↦ rw good (copy_read_all bytes (lib.insert buf x w).0.1 (lib.insert buf x w).1)
    | inr bad ↦ rw bad refl
  ]

  -- More than there are: if memory lasts, the loop reads behind them.
  pub copy_read-past :
      (plenty : Plenty lib) (n : ℕ) (cells : List ℕ) (buf : Array ℕ) (w : W)
      → length cells < n
      → copy_read os lib n buf cells w ≡ fault out_of_bounds
  unfolding copy_read
  copy_read-past plenty zero cells buf w more = absurd (omega arith)
  copy_read-past plenty (suc n) [] buf w more = refl
  copy_read-past plenty (suc n) (x ∷ cells) buf w more =
      rw (inserts lib plenty buf x w) (
        copy_read-past plenty n cells (lib.insert buf x w).0.1 (lib.insert buf x w).1 (omega arith))

  pub copy_read-settles :
      (n : ℕ) (cells : List ℕ) (buf : Array ℕ) (w : W)
      → length cells < n
      → Settles (copy_read os lib n buf cells w) (λ r _. r.0 ≡ false)
  unfolding copy_read
  copy_read-settles zero cells buf w more = absurd (omega arith)
  copy_read-settles (suc n) [] buf w more = tt
  copy_read-settles (suc n) (x ∷ cells) buf w more = elim (Bool-cases (lib.insert buf x w).0.0) [
    | inl good ↦
        rw good
          (copy_read-settles n cells (lib.insert buf x w).0.1 (lib.insert buf x w).1 (omega arith))
    | inr bad ↦ rw bad refl
  ]
