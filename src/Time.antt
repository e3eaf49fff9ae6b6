-- ===== src/Time.antt =====
-- `sleep_ms` of common/helpers/time.c, on each of the platforms that its preprocessor tells apart.
use jm_bus.Common.{ℕ, ◌+◌, ◌*◌, ◌/◌, ◌%◌, ◌<◌, ◌≡◌, ◌∙◌, refl, arith, Cmd, call, ok}

-- `WIN32`, a `_POSIX_C_SOURCE` of 199309 or more, and neither.
pub data Platform : Type 0 where
  win32 : Platform
  posix : Platform
  other : Platform

pub record Timespec : Type 0 where
  pub tv_sec : ℕ
  pub tv_nsec : ℕ

-- The calls of the system, and how long the program has slept, in nanoseconds.
pub record Clock (W : Type 0) : Type 0 where
  pub sleep : ℕ → W → Unit {0} × W
  pub nanosleep : Timespec → W → Unit {0} × W
  pub usleep : ℕ → W → Unit {0} × W
  pub slept : W → ℕ

-- `Sleep` takes milliseconds, `usleep` microseconds, and `nanosleep` refuses a second's worth of nanoseconds.
pub record Punctual {W : Type 0} (clock : Clock W) : Type 0 where
  pub sleep_lasts : (n : ℕ) (w : W) → clock.slept (clock.sleep n w).1 ≡ clock.slept w + n * 1000000
  pub nanosleep_lasts :
      (ts : Timespec) (w : W)
      → ts.tv_nsec < 1000000000
      → clock.slept (clock.nanosleep ts w).1 ≡ clock.slept w + (ts.tv_sec * 1000000000 + ts.tv_nsec)
  pub usleep_lasts : (n : ℕ) (w : W) → clock.slept (clock.usleep n w).1 ≡ clock.slept w + n * 1000

module _ {W : Type 0} (clock : Clock W) where
  -- For milliseconds that are not negative.
  unfoldable pub sleep_ms : Platform → ℕ → Cmd W (Unit {0})
  sleep_ms win32 milliseconds = call (clock.sleep milliseconds)
  sleep_ms posix milliseconds = call (
      clock.nanosleep
        (record { tv_sec = milliseconds / 1000; tv_nsec = milliseconds % 1000 * 1000000 }))
  sleep_ms other milliseconds = call (clock.usleep (milliseconds % 1000 * 1000))

  -- How many of the milliseconds count.
  abbrev pub counted : Platform → ℕ → ℕ
  counted win32 n = n
  counted posix n = n
  counted other n = n % 1000

  -- `sleep_ms` of a duration that is not negative, where the calls of the system sleep as long as
  -- they are asked to: it sleeps that many milliseconds with `Sleep` and with `nanosleep`, and
  -- with `usleep` only those behind the last whole second.
  pub sleep_ms-lasts :
      (platform : Platform) (milliseconds : ℕ) (w : W)
      → Punctual clock
      → (w' : W) × (sleep_ms platform milliseconds w ≡ ok tt w')
        × (clock.slept w' ≡ clock.slept w + counted platform milliseconds * 1000000)
  unfolding sleep_ms
  sleep_ms-lasts win32 n w punctual = ((clock.sleep n w).1, refl, punctual.sleep_lasts n w)
  sleep_ms-lasts posix n w punctual =
      let ts : Timespec = record { tv_sec = n / 1000; tv_nsec = n % 1000 * 1000000 } in
      ((clock.nanosleep ts w).1, refl, punctual.nanosleep_lasts ts w (omega arith) ∙ omega arith)
  sleep_ms-lasts other n w punctual = (
    (clock.usleep (n % 1000 * 1000) w).1,
    refl,
    punctual.usleep_lasts (n % 1000 * 1000) w ∙ omega arith,
  )
