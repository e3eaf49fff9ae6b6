-- ===== src/Strings.antt =====
-- common/helpers/strings.c, and the string functions of the C library that the sources call. A string
-- is the list of its bytes, without the terminator; none of them is 0.
use jm_bus.Common.{
  ℕ, zero, suc, ◌+◌, ◌-◌, ◌*◌, ◌^◌, Bool, true, false, ◌&&◌, List, [], ◌∷◌, ◌==◌, if◌then◌else◌,
  ltb,
}
use jm_bus.Bytes.{u64}

-- A `char` is signed: `c` is negative for a byte of 128 or more, and is added modulo 2^64.
abbrev pub signed_char : ℕ → ℕ
signed_char b = if ltb b 128 then b else 2 ^ 64 - 256 + b

-- `hash = ((hash << 5) + hash) + c`
hash_loop : ℕ → List ℕ → ℕ
hash_loop hash [] = hash
hash_loop hash (c ∷ str) = hash_loop (u64 (u64 (hash * 2 ^ 5) + hash + signed_char c)) str

unfoldable pub hash_from_str : List ℕ → ℕ
unfolding hash_loop
hash_from_str str = hash_loop 5381 str

-- `strncmp(s, t, n) == 0`
abbrev pub strncmp_zero : List ℕ → List ℕ → ℕ → Bool
strncmp_zero s t zero = true
strncmp_zero [] [] (suc n) = true
strncmp_zero [] (y ∷ t) (suc n) = false
strncmp_zero (x ∷ s) [] (suc n) = false
strncmp_zero (x ∷ s) (y ∷ t) (suc n) = x == y && strncmp_zero s t n

-- `memchr` for the terminator: the string that a buffer of bytes holds.
abbrev pub c_string : List ℕ → List ℕ
c_string [] = []
c_string (b ∷ bs) = if b == 0 then [] else b ∷ c_string bs
