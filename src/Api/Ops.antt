-- ===== src/Api/Ops.antt =====
-- The handlers that only read of server/internal/api/ops.go and channels.go.
pub mod Telemetry
use cryo_lab_telemetry.Prelude.{
  ℕ, Text, text, Map, lookup, insert, Option, none, some, List, [], ◌∷◌, true, false,
}
use cryo_lab_telemetry.Prelude.Int.{ℤ, pos}
use cryo_lab_telemetry.Values.{Time}
use cryo_lab_telemetry.Store.Data.{Channel}
use cryo_lab_telemetry.Store.World.{World}
use cryo_lab_telemetry.Store.Reads.{Reads, ping, channels, source_last_seen, total_rows}
use cryo_lab_telemetry.Metrics.{SourceSnapshot, snapshot}
use cryo_lab_telemetry.Api.Http.{
  SourceMetrics, MetricsResponse, health, metrics_response, channels_response, Response,
  write_error, write_json, Server,
}

-- What the handlers take from the package time.
pub record Clock : Type 0 where
  -- int64(d.Seconds())
  pub whole_seconds : ℤ → ℤ
  -- t.UTC().Format(time.RFC3339)
  pub rfc3339_utc : Time → Text

-- the loop over the counters of this process
seed : Map SourceSnapshot → Map SourceMetrics → Map SourceMetrics
seed [] sources = sources
seed ((src, st) ∷ rest) sources = seed rest (
    insert src
      (record {
        rows_since_start = st.rows_since_start;
        last_received = st.last_received;
        last_reading_ts = none;
      })
      sources)

-- resp.Sources[src], or the zero value
abbrev pub or_zero : Option SourceMetrics → SourceMetrics
or_zero none = record { rows_since_start = 0; last_received = none; last_reading_ts = none }
or_zero (some m) = m

-- the loop over what the database has
enrich : Map Time → Map SourceMetrics → Map SourceMetrics
enrich [] sources = sources
enrich ((src, ts) ∷ rest) sources =
    let m = or_zero (lookup src sources) in
    enrich rest (insert src (record m { last_reading_ts = some ts }) sources)

enriched : Option (Map Time) → Map SourceMetrics → Map SourceMetrics
enriched none sources = sources
enriched (some last_seen) sources = enrich last_seen sources

abbrev pub counted : Option ℕ → ℕ
counted none = 0
counted (some n) = n

module _ (w : World) (q : Reads w) where
  -- handleHealth
  unfoldable pub handle_health : w.State → Response × w.State
  handle_health s =
      let (done, s') = ping w q s in
      elim done [
        | none ↦ (write_json 503 (health (text "degraded") false), s')
        | some _ ↦ (write_json 200 (health (text "ok") true), s')
      ]

  -- handleMetrics
  pub handle_metrics : Clock → Server → w.State → Response × w.State
  handle_metrics c srv s =
      let (uptime, total, in_mem) = snapshot srv.metrics (w.now s) in
      let (n, s1) = total_rows w q s in
      let (last_seen, s2) = source_last_seen w q s1 in
      (
        write_json 200 (
            metrics_response (record {
              uptime_seconds = c.whole_seconds uptime;
              started_at = c.rfc3339_utc srv.started_at;
              rows_ingested_since_start = total;
              total_rows_in_db = counted n;
              sources = enriched last_seen (seed in_mem []);
            })),
        s2,
      )

  -- handleChannels
  unfoldable pub handle_channels : w.State → Response × w.State
  handle_channels s =
      let (l, s') = channels w q s in
      elim l [
        | none ↦ (write_error 500 (text "query failed"), s')
        | some cs ↦ (write_json 200 (channels_response cs), s')
      ]
