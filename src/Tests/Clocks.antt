-- ===== src/Tests/Clocks.antt =====
-- A clock that counts nanoseconds.
use jm_bus.Common.{ℕ, ◌+◌, ◌*◌, ◌≡◌, refl, ok}
use jm_bus.Time.{Clock, Punctual, other, sleep_ms, sleep_ms-lasts}

abbrev counter : Clock ℕ
counter = record {
  sleep = λ n w. (tt, w + n * 1000000);
  nanosleep = λ ts w. (tt, w + (ts.tv_sec * 1000000000 + ts.tv_nsec));
  usleep = λ n w. (tt, w + n * 1000);
  slept = λ w. w;
}

counter-Punctual : Punctual counter
counter-Punctual = record {
  sleep_lasts = λ n w. refl;
  nanosleep_lasts = λ ts w h. refl;
  usleep_lasts = λ n w. refl;
}

-- A second and a half, of which half a second is slept.
sleep_ms-lasts_example : (w' : ℕ) × (sleep_ms counter other 1500 0 ≡ ok tt w') × (w' ≡ 500000000)
sleep_ms-lasts_example = sleep_ms-lasts counter other 1500 0 counter-Punctual
