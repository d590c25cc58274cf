-- ===== src/Reporting/Clock.antt =====
-- The readings of the clock in a progress (src-tauri/src/playback/server_reporting.rs).
use transonic.Prelude.{ℕ, ◌+◌, ◌≤◌}
use transonic.Reporting.Sessions.{nanos_per_milli, Readings}

-- Readings of a clock that does not run back, behind a time, with at most the given gap between them.
pub record AreRead (since gap : ℕ) (readings : Readings) : Type 0 where
  pub is_later : since ≤ readings.elapsed_at
  pub is_ordered : readings.elapsed_at ≤ readings.set_at
  pub is_quick : readings.set_at ≤ readings.elapsed_at + gap

-- What the two readings of a progress may lose.
abbrev pub loss : ℕ → ℕ
loss gap = nanos_per_milli + gap
