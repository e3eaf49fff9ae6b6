-- ===== src/Traffic.antt =====
-- What a platform sends, on the record: which bytes went to which socket, in their order.
pub mod Sent
pub mod Relay
pub mod Published
pub mod Members
pub mod Served
use mathlib.Core.Path.{subst}
use jm_bus.Common.{
  ℕ, ◌≡◌, Bool, true, List, [], ◌∷◌, ◌++◌, if◌then◌else◌, Run, Cmd, and_then, Yields,
  Yields-and_then, Yields-if,
}
use jm_bus.Cstd.{Array, ArrayLib}
use jm_bus.Sockets.{Sockets}

abbrev pub Log : Type 0
Log = List (ℕ × List ℕ)

-- The same bytes to each of the sockets.
abbrev pub to_each : List ℕ → List ℕ → Log
to_each bytes [] = []
to_each bytes (sock ∷ socks) = (sock, bytes) ∷ to_each bytes socks

-- The allocator sends nothing.
pub record Silent {W : Type 0} (lib : ArrayLib W) (log : W → Log) : Type 1 where
  pub init_silent : {A : Type 0} (n : ℕ) (w : W) → log (lib.init {A = A} n w).1 ≡ log w
  pub insert_silent : {A : Type 0} (a : Array A) (x : A) (w : W) → log (lib.insert a x w).1 ≡ log w
  pub malloc_silent : (w : W) → log (lib.malloc w).1 ≡ log w
  pub free_silent :
      {A : Type 0} (a : Array A) (w : W) → Yields (lib.free a w) (λ _ w'. log w' ≡ log w)

-- Every `send` is taken, and recorded.
pub record Logged {W : Type 0} (os : Sockets W) (log : W → Log) : Type 0 where
  pub taken : (sock : ℕ) (bytes : List ℕ) (w : W) → (os.send sock bytes w).0 ≡ true
  pub recorded :
      (sock : ℕ) (bytes : List ℕ) (w : W)
      → log (os.send sock bytes w).1 ≡ log w ++ (sock, bytes) ∷ []

abbrev pub Keeps : {W A : Type 0} → (W → Log) → W → Run W A → Type 0
Keeps log w r = Yields r (λ _ w'. log w' ≡ log w)

module _ {W : Type 0} (log : W → Log) where
  pub Keeps-since :
      {A : Type 0} (w' w : W) (r : Run W A) → log w' ≡ log w → Keeps log w' r → Keeps log w r
  Keeps-since w' w r e h = subst (λ l. Yields r (λ _ v. log v ≡ l)) e h

  pub Keeps-and_then :
      {A B : Type 0} (w : W) (r : Run W A) (k : A → Cmd W B)
      → Keeps log w r
      → ((a : A) (w' : W) → Keeps log w' (k a w'))
      → Keeps log w (and_then r k)
  Keeps-and_then w r k h f =
      Yields-and_then r k (λ _ w'. log w' ≡ log w) (λ _ w'. log w' ≡ log w) h
        (λ a w' e. Keeps-since w' w (k a w') e (f a w'))

  pub Keeps-if :
      {A : Type 0} (b : Bool) (m n : Cmd W A) (w : W)
      → Keeps log w (m w)
      → Keeps log w (n w)
      → Keeps log w ((if b then m else n) w)
  Keeps-if b m n w h k = Yields-if b m n w (λ _ w'. log w' ≡ log w) (λ _. h) (λ _. k)
