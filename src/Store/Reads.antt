-- ===== src/Store/Reads.antt =====
-- The other reads of server/internal/store/store.go: Ping, Channels, SourceLastSeen and TotalRows.
pub mod Latest
use mathlib.Core.List.{Memᴰ}
use cryo_lab_telemetry.Prelude.{
  ℕ, ◌*◌, ◌-◌, ◌≡◌, ◌↔◌, Text, Map, insert, Option, none, some, List, [], ◌∷◌, ◌++◌, length, All,
}
use cryo_lab_telemetry.Prelude.Int.{ℤ, pos, negsuc, ◌≤ℤ◌, ◌<ℤ◌, ◌+ℤ◌}
use cryo_lab_telemetry.Values.{Time, second}
use cryo_lab_telemetry.Store.Data.{Row, Channel, Tables}
use cryo_lab_telemetry.Store.World.{World}
use cryo_lab_telemetry.Store.Series.{Bucket, SeriesQueries}

-- Of `rows`, those of a source and metric.
abbrev pub SameChannel : Row → Row → Type 0
SameChannel a b = (a.source ≡ b.source) × (a.metric ≡ b.metric)

-- The rows that SELECT DISTINCT ON (source, metric) … ORDER BY source, metric, ts DESC answers:
-- some of the table's, and for each row of the table one of its source and metric that is no
-- older.
pub record IsLatest (rows l : List Row) : Type 0 where
  pub stored : (x : Row) → Memᴰ x l → Memᴰ x rows
  pub newest :
      (r : Row) → Memᴰ r rows → (x : Row) × Memᴰ x l × SameChannel x r × (r.stamp ≤ℤ x.stamp)
  pub one_each : (x y : Row) → Memᴰ x l → Memᴰ y l → SameChannel x y → x ≡ y

-- The rows that SELECT source, max(ts) … GROUP BY source answers.
pub record IsLastSeen (rows : List Row) (l : List (Text × ℤ)) : Type 0 where
  pub reached :
      (source : Text) (m : ℤ)
      → Memᴰ (source, m) l
      → (r : Row) × Memᴰ r rows × (r.source ≡ source) × (r.stamp ≡ m)
  pub every : (r : Row) → Memᴰ r rows → (m : ℤ) × Memᴰ (r.source, m) l × (r.stamp ≤ℤ m)
  pub one_each : (source : Text) (m n : ℤ) → Memᴰ (source, m) l → Memᴰ (source, n) l → m ≡ n

-- An instant of the years 0 to 9999; the year 0 has 366 days.
abbrev pub InYears : Time → Type 0
InYears t = (negsuc (366 * 86400 * second - 1) ≤ℤ t) × (t <ℤ pos (315_537_897_600 * second))

-- The statements that only read, for a world: a failure is `none`. None of them changes a table.
pub record Reads (w : World) : Type 0 where
  -- the time.Time that a TIMESTAMPTZ is scanned as
  pub instant : ℤ → Time
  pub instant_mono : (a b : ℤ) → a ≤ℤ b → instant a ≤ℤ instant b
  -- TIMESTAMPTZ has a resolution of one microsecond
  pub instant_law :
      (t : Time)
      → InYears t
      → (t <ℤ instant (w.stamp t) +ℤ pos 1000) × (instant (w.stamp t) <ℤ t +ℤ pos 1000)
  -- pool.Ping
  pub ping : w.State → Option (Unit {0}) × w.State
  pub select_channels : w.State → Option (List Row) × w.State
  pub select_last_seen : w.State → Option (List (Text × ℤ)) × w.State
  -- SELECT count(*) FROM readings
  pub select_count : w.State → Option ℕ × w.State
  pub series : SeriesQueries w.State
  pub ping_keeps : (s : w.State) → w.tables (ping s).1 ≡ w.tables s
  pub channels_keeps : (s : w.State) → w.tables (select_channels s).1 ≡ w.tables s
  pub last_seen_keeps : (s : w.State) → w.tables (select_last_seen s).1 ≡ w.tables s
  pub count_keeps : (s : w.State) → w.tables (select_count s).1 ≡ w.tables s
  pub raw_keeps :
      (step source metric : Text) (from to : Time) (s : w.State)
      → w.tables (series.raw step source metric from to s).1 ≡ w.tables s
  pub rollup_keeps :
      (view step source metric : Text) (from to : Time) (s : w.State)
      → w.tables (series.rollup view step source metric from to s).1 ≡ w.tables s
  pub channels_law :
      (s : w.State) (l : List Row)
      → (select_channels s).0 ≡ some l
      → IsLatest (w.tables s).readings l
  pub last_seen_law :
      (s : w.State) (l : List (Text × ℤ))
      → (select_last_seen s).0 ≡ some l
      → IsLastSeen (w.tables s).readings l
  pub count_law :
      (s : w.State) (n : ℕ) → (select_count s).0 ≡ some n → n ≡ length (w.tables s).readings

-- the loop of Channels: each row is scanned and appended to `out`
unfoldable pub collect_channels : (ℤ → Time) → List Row → List Channel → List Channel
collect_channels instant [] out = out
collect_channels instant (r ∷ rows) out = collect_channels instant rows (
    out
    ++ record {
      source = r.source;
      metric = r.metric;
      last_ts = instant r.stamp;
      last_value = r.value;
    }
      ∷ [])

-- the loop of SourceLastSeen: out[src] = ts
collect_last_seen : (ℤ → Time) → List (Text × ℤ) → Map Time → Map Time
collect_last_seen instant [] out = out
collect_last_seen instant ((src, ts) ∷ rows) out =
    collect_last_seen instant rows (insert src (instant ts) out)

module _ (w : World) (q : Reads w) where
  -- Ping
  unfoldable pub ping : w.State → Option (Unit {0}) × w.State
  ping s = q.ping s

  -- Channels
  unfoldable pub channels : w.State → Option (List Channel) × w.State
  channels s =
      let (rows, s') = q.select_channels s in
      elim rows [ none ↦ (none, s') | some l ↦ (some (collect_channels q.instant l []), s') ]

  -- SourceLastSeen
  pub source_last_seen : w.State → Option (Map Time) × w.State
  source_last_seen s =
      let (rows, s') = q.select_last_seen s in
      elim rows [ none ↦ (none, s') | some l ↦ (some (collect_last_seen q.instant l []), s') ]

  -- TotalRows
  unfoldable pub total_rows : w.State → Option ℕ × w.State
  total_rows s = q.select_count s
