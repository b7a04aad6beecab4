-- ===== src/Go/Platform.antt =====
-- What depends on the platform, or on tables and floating-point steps that stay outside the model.
use service_mesh_nats_go.Prelude.{ℕ, String, Bool}
use service_mesh_nats_go.Prelude.Int.{ℤ}

pub record Platform : Type 0 where
  -- unicode.IsPrint above Latin-1
  pub wide_print : ℕ → Bool
  -- uint64(float64(f) * (float64(unit) / scale)) of time.ParseDuration, given f, unit and scale
  pub scale_fraction : ℕ → ℕ → ℕ → ℕ
  -- runtime.NumCPU
  pub num_cpu : ℕ
  -- Time.Format(time.RFC3339Nano) of a time in nanoseconds, in the local zone
  pub format_time : ℤ → String
