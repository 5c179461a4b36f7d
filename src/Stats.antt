-- ===== src/Stats.antt =====
-- stats/history.py and the traffic tables of nodes/store.py: how the bytes that went through the tunnel
-- are counted, kept and shown.
pub mod History
pub mod Recorder
pub mod Minutes
use v2pi.Base.{ℕ, ◌+◌}

-- Bytes in both directions.
pub record Counters : Type 0 where
  pub up : ℕ
  pub down : ℕ

abbrev pub add_counters : Counters → Counters → Counters
add_counters a b = record { up = a.up + b.up; down = a.down + b.down }
