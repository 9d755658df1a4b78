-- ===== src/Base/Times.antt =====
-- Times in nanoseconds, as engine/internal/timefmt writes them: time.RFC3339 has whole seconds.
use Prim.Native.Nat.{ℕ, ◌*◌, ◌/◌, ◌^◌}

abbrev second : ℕ
second = 10 ^ 9

abbrev pub to_second : ℕ → ℕ
to_second t = t / second * second
