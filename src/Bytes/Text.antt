-- ===== src/Bytes/Text.antt =====
-- `byte_array_to_str` of common/helpers/bytes.c, the way back from `str_to_byte_array`.
use jm_bus.Common.{ℕ, if◌then◌else◌, Option, some, none, List, Cmd, pure, call, ◌>>=◌}
use jm_bus.Cstd.{ArrayLib}
use jm_bus.Strings.{c_string}

module _ {W : Type 0} (lib : ArrayLib W) where
  -- The string ends at the first 0 among the bytes; a null pointer where memory ran out.
  unfoldable pub byte_array_to_str : List ℕ → Cmd W (Option (List ℕ))
  byte_array_to_str bytes = do
    copied ← call lib.malloc
    if copied then pure (some (c_string bytes)) else pure none
