-- ===== src/Messages/Frames.antt =====
-- The wire format: the type byte, then the topic and the body, each behind its length in four bytes.
use jm_bus.Common.{ℕ, ◌+◌, ◌≡◌, List, ◌∷◌, ◌++◌, length, arith, length-append, ok}
use jm_bus.Bytes.Lengths.{le32}
use jm_bus.Messages.{Slot, unset, zeroed, held, contents}

abbrev pub part : List ℕ → List ℕ
part bytes = le32 (length bytes) ++ bytes

abbrev pub frame : ℕ → List ℕ → List ℕ → List ℕ
frame type topic body = type ∷ (part topic ++ part body)

pub length-frame :
    (type : ℕ) (topic body : List ℕ)
    → length (frame type topic body) ≡ 9 + length topic + length body
length-frame type topic body = omega (arith, length-append topic (part body))

-- The bytes of a field, if it was set.
abbrev pub Holds : Slot → List ℕ → Type 0
Holds unset bytes = ⊥
Holds zeroed bytes = bytes ≡ List.[]
Holds (held a) bytes = a.items ≡ bytes

module _ {W : Type 0} where
  pub contents_lem : (s : Slot) (bytes : List ℕ) (w : W) → Holds s bytes → contents s w ≡ ok bytes w
  unfolding contents
  contents_lem unset bytes w h = absurd h
  contents_lem zeroed bytes w h = ground arith
  contents_lem (held a) bytes w h = ground arith
