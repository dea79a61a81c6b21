-- ===== src/Scan/Diagnostics/Limits.antt =====
-- The limits on a job's tuning.
use workcentre_3119_modern_d.Prelude.{ℕ, ◌*◌, ◌%◌, ◌≤◌, ◌≡◌, ◌↔◌, arith}
use workcentre_3119_modern_d.Errors.{ok}
use workcentre_3119_modern_d.Scan.Diagnostics.{
  ScanTuning, millisecond, validate, validate_poll_interval, validate_read_buffer_limit,
}

-- A tuning is accepted for a pipe exactly when the interval is 1 to 1000 milliseconds and the buffer a
-- multiple of 1024 bytes, from 1 KiB to 1 MiB, and no larger than the pipe's limit.
pub validate_iff :
    (t : ScanTuning) (limit : ℕ)
    → ((validate t ≡ ok tt) × (validate_read_buffer_limit t.read_buffer_bytes limit ≡ ok tt)) ↔ (
        (millisecond ≤ t.read_poll_interval)
        × (t.read_poll_interval ≤ 1000 * millisecond)
        × (1024 ≤ t.read_buffer_bytes)
        × (t.read_buffer_bytes ≤ 1024 * 1024)
        × (t.read_buffer_bytes % 1024 ≡ 0)
        × (t.read_buffer_bytes ≤ limit))
unfolding validate validate_poll_interval validate_read_buffer_limit
validate_iff t limit = ground arith
