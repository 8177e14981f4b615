-- ===== src/Base/Clock.antt =====
-- Time stamps, as `time.time()` and `time.monotonic()` give them, are whole microseconds.
use Prim.Native.Nat.{ℕ, ◌*◌}

abbrev pub Time : Type 0
Time = ℕ

-- A span of seconds, as the configuration gives it.
abbrev pub seconds : ℕ → Time
seconds n = n * 1000000
