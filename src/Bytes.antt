-- ===== src/Bytes.antt =====
-- common/helpers/bytes.c: lengths as little-endian bytes, and copies into byte arrays.
pub mod Lengths
pub mod Copies
pub mod Text
pub mod Ending
use jm_bus.Common.{
  ℕ, zero, suc, ◌+◌, ◌-◌, ◌*◌, ◌/◌, ◌%◌, ◌^◌, Bool, true, false, Option, none, some, List, [], ◌∷◌,
  length, take, drop, get_elem?, if◌then◌else◌, ltb, Cmd, ok, fault, exits, out_of_fuel,
  out_of_bounds, pure, call, ◌>>=◌, ◌>>◌, Run,
}
use jm_bus.Cstd.{Array, ArrayLib, len}
use jm_bus.Cstd.Loops.{insert_each}

-- `uint8_t` and `size_t` (64 bits)
abbrev pub u8 : ℕ → ℕ
u8 v = v % 2 ^ 8

abbrev pub u64 : ℕ → ℕ
u64 v = v % 2 ^ 64

-- An `int` (32 bits) converted to `size_t`: its bit pattern, extended by its sign.
abbrev pub sign_extend : ℕ → ℕ
sign_extend v = let w = v % 2 ^ 32 in if ltb w (2 ^ 31) then w else w + (2 ^ 64 - 2 ^ 32)

-- `out[i] = (uint8_t)(val >> (i * 8))` for `i` up to `n`. The shift stays below 64 for `n ≤ 8`.
to_bytes_loop : ℕ → ℕ → ℕ → List ℕ
to_bytes_loop zero i val = []
to_bytes_loop (suc left) i val = u8 (val / 2 ^ (i * 8)) ∷ to_bytes_loop left (i + 1) val

unfoldable pub convert_64bit_to_n_utf8 : ℕ → ℕ → List ℕ
unfolding to_bytes_loop
convert_64bit_to_n_utf8 val n = to_bytes_loop n 0 val

-- `local += buf[i] << (i * 8)`: the byte is promoted to `int`, and the shift drops what passes bit 31.
-- (The shift count stays below 32 for `n ≤ 4`.) `none`: a read past the end of the buffer.
from_bytes_loop : ℕ → ℕ → List ℕ → ℕ → Option ℕ
from_bytes_loop zero i buf acc = some acc
from_bytes_loop (suc left) i [] acc = none
from_bytes_loop (suc left) i (b ∷ buf) acc =
    from_bytes_loop left (i + 1) buf (u64 (acc + sign_extend (b * 2 ^ (i * 8))))

unfoldable pub convert_n_utf8_to_64bit : List ℕ → ℕ → Option ℕ
unfolding from_bytes_loop
convert_n_utf8_to_64bit buf n = from_bytes_loop n 0 buf 0

module _ {W : Type 0} (lib : ArrayLib W) where
  -- The loop of `read_byte_array` from `i` on; `buf` is what stands from `buf[i]` on. The end is
  -- `arr->cap`, read anew each round, and a byte that cannot be inserted is skipped.
  read_loop : ℕ → ℕ → List ℕ → Array ℕ → Cmd W (Array ℕ)
  read_loop zero i buf arr = λ _. out_of_fuel
  read_loop (suc fuel) i buf arr =
      if ltb i arr.cap
      then elim buf [
        | [] ↦ λ _. fault out_of_bounds
        | b ∷ rest ↦ do (_, arr') ← call (lib.insert arr b); read_loop fuel (i + 1) rest arr'
      ]
      else pure arr

  -- While an array is not full its capacity stays, so `cap` rounds and the last test are enough.
  unfoldable pub read_byte_array : List ℕ → Array ℕ → Cmd W (Array ℕ)
  unfolding read_loop
  read_byte_array buf arr = read_loop (suc arr.cap) 0 buf arr

  -- The bytes of `str` end where its terminator stands; `*out` is set on success only.
  unfoldable pub str_to_byte_array : List ℕ → Cmd W (Option (Array ℕ))
  str_to_byte_array str = do
    made ← call (lib.init {A = ℕ} (length str))
    elim made [
      | none ↦ pure none
      | some local ↦ do
        (inserted, filled) ← insert_each lib local str
        if inserted then pure (some filled) else (lib.free filled >> pure none)
    ]
