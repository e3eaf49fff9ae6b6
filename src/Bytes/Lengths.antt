-- ===== src/Bytes/Lengths.antt =====
-- What the two conversions of common/helpers/bytes.c do with the four bytes of a length.
use jm_bus.Common.{ℕ, ◌+◌, ◌-◌, ◌*◌, ◌/◌, ◌%◌, ◌^◌, ◌≤◌, ◌<◌, ◌≡◌, some, List, [], ◌∷◌, arith}
use jm_bus.Bytes.{convert_64bit_to_n_utf8, convert_n_utf8_to_64bit}

abbrev pub IsByte : ℕ → Type 0
IsByte b = b < 256

-- The little-endian form of a length, written out.
abbrev pub le32 : ℕ → List ℕ
le32 v = v % 256 ∷ v / 256 % 256 ∷ v / 2 ^ 16 % 256 ∷ v / 2 ^ 24 % 256 ∷ []

pub convert-le32 : (v : ℕ) → convert_64bit_to_n_utf8 v 4 ≡ le32 v
unfolding convert_64bit_to_n_utf8
convert-le32 v = ground arith

-- The number that four bytes are read as.
abbrev pub from_le32 : ℕ → ℕ → ℕ → ℕ → ℕ
from_le32 a b c d = a + 256 * b + 2 ^ 16 * c + 2 ^ 24 * d

pub convert-from_le32 :
    (a b c d : ℕ) (rest : List ℕ)
    → IsByte a
    → IsByte b
    → IsByte c
    → d < 128
    → convert_n_utf8_to_64bit (a ∷ b ∷ c ∷ d ∷ rest) 4 ≡ some (from_le32 a b c d)
unfolding convert_n_utf8_to_64bit
convert-from_le32 a b c d rest ha hb hc hd = ground arith

-- Four bytes whose last is 128 or more are read as their little-endian number plus 2^64 - 2^32,
-- the extension of bit 31.
pub convert-sign :
    (a b c d : ℕ) (rest : List ℕ)
    → IsByte a
    → IsByte b
    → IsByte c
    → 128 ≤ d
    → IsByte d
    → convert_n_utf8_to_64bit (a ∷ b ∷ c ∷ d ∷ rest) 4
      ≡ some (from_le32 a b c d + (2 ^ 64 - 2 ^ 32))
unfolding convert_n_utf8_to_64bit
convert-sign a b c d rest ha hb hc hd = ground arith
