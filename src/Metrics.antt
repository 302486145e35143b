-- ===== src/Metrics.antt =====
-- server/internal/metricsx/metricsx.go: the in-process counters behind /metrics.
pub mod Totals
pub mod Sources
use cryo_lab_telemetry.Prelude.{
  ℕ, ◌+◌, ◌%◌, ◌^◌, Text, Map, lookup, insert, Option, none, some, List, [], ◌∷◌, if◌then◌else◌,
}
use cryo_lab_telemetry.Prelude.Int.{ℤ, pos, ◌-ℤ◌}
use cryo_lab_telemetry.Values.{Time, is_zero}

-- An int64 counter as its bit pattern: additions wrap modulo 2 ^ 64.
abbrev pub add64 : ℕ → ℕ → ℕ
add64 a b = (a + b) % 2 ^ 64

pub record SourceStat : Type 0 where
  pub rows : ℕ
  pub last_received : Time

pub record Tracker : Type 0 where
  pub start : Time
  pub total : ℕ
  pub per_source : Map SourceStat

-- newWithClock, at the clock's `now`
unfoldable pub new : Time → Tracker
new now = record { start = now; total = 0; per_source = [] }

-- t.perSource[source], with &sourceStat{} where it is nil
abbrev pub or_zero : Option SourceStat → SourceStat
or_zero none = record { rows = 0; last_received = pos 0 }
or_zero (some st) = st

-- RecordIngest
unfoldable pub record_ingest : Tracker → Text → ℕ → Time → Tracker
record_ingest t source n now =
    let st = or_zero (lookup source t.per_source) in
    record t {
      total = add64 t.total n;
      per_source =
          insert source (record { rows = add64 st.rows n; last_received = now }) t.per_source;
    }

pub record SourceSnapshot : Type 0 where
  pub rows_since_start : ℕ
  pub last_received : Option Time

abbrev pub source_snapshot : SourceStat → SourceSnapshot
source_snapshot st = record {
  rows_since_start = st.rows;
  last_received = if is_zero st.last_received then none else some st.last_received;
}

pub snapshots : Map SourceStat → Map SourceSnapshot
snapshots [] = []
snapshots ((src, st) ∷ rest) = (src, source_snapshot st) ∷ snapshots rest

-- Snapshot: the uptime in nanoseconds, the total and the sources
unfoldable pub snapshot : Tracker → Time → ℤ × ℕ × Map SourceSnapshot
snapshot t now = (now -ℤ t.start, t.total, snapshots t.per_source)
