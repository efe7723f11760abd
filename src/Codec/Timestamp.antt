-- ===== src/Codec/Timestamp.antt =====
-- codec/timestamp.rs: the clock of the engine. The reading of `SystemTime`, `none` when it is before
-- the epoch, is an argument.
use z1kv.Common.{ℕ, Option, none, some}

-- The value returned, and the new `LAST_VALID_TS_MILLIS`.
unfoldable pub current_timestamp_millis : Option ℕ → (last_valid : ℕ) → ℕ × ℕ
current_timestamp_millis none last_valid = (last_valid, last_valid)
current_timestamp_millis (some ts) last_valid = (ts, ts)
