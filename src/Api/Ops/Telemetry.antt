-- ===== src/Api/Ops/Telemetry.antt =====
-- What /metrics says of each source.
use mathlib.Core.Path.{subst}
use cryo_lab_telemetry.Prelude.{
  ◌≡◌, ◌∙◌, refl, sym, ap, ◌⊎◌, inl, inr, Text, text_eq, text_eq_iff, Map, IsMap, lookup, insert,
  lookup-insert, lookup-insert_same, Option, none, some, [], ◌∷◌, length, Option-cases, Bool-cases,
}
use cryo_lab_telemetry.Values.{Time}
use cryo_lab_telemetry.Store.Data.{Tables}
use cryo_lab_telemetry.Store.World.{World}
use cryo_lab_telemetry.Store.Reads.{Reads, source_last_seen, total_rows}
use cryo_lab_telemetry.Store.Reads.Latest.{
  NewestOf, source_last_seen-tables, source_last_seen-IsMap, source_last_seen-NewestOf,
}
use cryo_lab_telemetry.Metrics.{SourceStat, SourceSnapshot, snapshots, snapshot, source_snapshot}
use cryo_lab_telemetry.Metrics.Sources.{snapshot_of, lookup-snapshots, snapshots-IsMap}
use cryo_lab_telemetry.Api.Http.{
  SourceMetrics, MetricsResponse, metrics_response, write_json, Server,
}
use cryo_lab_telemetry.Api.Ops.{Clock, seed, or_zero, enrich, enriched, counted, handle_metrics}

abbrev from_snapshot : SourceSnapshot → SourceMetrics
from_snapshot st = record {
  rows_since_start = st.rows_since_start;
  last_received = st.last_received;
  last_reading_ts = none;
}

abbrev seeded : Option SourceSnapshot → Option SourceMetrics → Option SourceMetrics
seeded none old = old
seeded (some st) old = some (from_snapshot st)

lookup-seed :
    (m : Map SourceSnapshot) (sources : Map SourceMetrics) (src : Text)
    → IsMap m
    → lookup src (seed m sources) ≡ seeded (lookup src m) (lookup src sources)
unfolding seed lookup
lookup-seed [] sources src h = refl
lookup-seed ((k, st) ∷ m) sources src (fresh, h) = elim (Bool-cases (text_eq k src)) [
  | inl same ↦
      let e : k ≡ src = (text_eq_iff k src).0 same in
      let gone : lookup src m ≡ none = ap (λ (t : Text). lookup t m) (sym e) ∙ fresh in
      rw same (
        lookup-seed m _ src h
        ∙ ap
            (λ (o : Option SourceSnapshot).
              seeded o (lookup src (insert k (from_snapshot st) sources)))
            gone
        ∙ lookup-insert_same k src (from_snapshot st) sources e)
  | inr other ↦ rw other (
      lookup-seed m _ src h
      ∙ ap (seeded (lookup src m)) (lookup-insert k src _ sources ∙ rw other refl))
]

abbrev with_date : Time → Option SourceMetrics → SourceMetrics
with_date ts old = let m = or_zero old in record m { last_reading_ts = some ts }

abbrev dated : Option Time → Option SourceMetrics → Option SourceMetrics
dated none old = old
dated (some ts) old = some (with_date ts old)

lookup-enrich :
    (m : Map Time) (sources : Map SourceMetrics) (src : Text)
    → IsMap m
    → lookup src (enrich m sources) ≡ dated (lookup src m) (lookup src sources)
unfolding enrich lookup
lookup-enrich [] sources src h = refl
lookup-enrich ((k, ts) ∷ m) sources src (fresh, h) = elim (Bool-cases (text_eq k src)) [
  | inl same ↦
      let e : k ≡ src = (text_eq_iff k src).0 same in
      let gone : lookup src m ≡ none = ap (λ (t : Text). lookup t m) (sym e) ∙ fresh in
      rw same (
        lookup-enrich m _ src h
        ∙ ap
            (λ (o : Option Time).
              dated o (lookup src (insert k (with_date ts (lookup k sources)) sources)))
            gone
        ∙ lookup-insert_same k src (with_date ts (lookup k sources)) sources e
        ∙ ap (λ (t : Text). dated (some ts) (lookup t sources)) e)
  | inr other ↦ rw other (
      lookup-enrich m _ src h
      ∙ ap (dated (lookup src m)) (lookup-insert k src _ sources ∙ rw other refl))
]

-- The entry of a source: what this process has counted, and the time of its newest stored reading.
abbrev pub shown : Option SourceStat → Option Time → Option SourceMetrics
shown none none = none
shown none (some ts) =
    some (record { rows_since_start = 0; last_received = none; last_reading_ts = some ts })
shown (some st) newest = some (record {
  rows_since_start = st.rows;
  last_received = (source_snapshot st).last_received;
  last_reading_ts = newest;
})

shown_lem :
    (st : Option SourceStat) (newest : Option Time)
    → dated newest (seeded (snapshot_of st) none) ≡ shown st newest
shown_lem none none = refl
shown_lem none (some ts) = refl
shown_lem (some st) none = refl
shown_lem (some st) (some ts) = refl

module _ (w : World) (q : Reads w) where
  total_rows-cases :
      (s : w.State)
      → ((total_rows w q s).0 ≡ some (length (w.tables s).readings)) ⊎ ((total_rows w q s).0 ≡ none)
  unfolding total_rows
  total_rows-cases s = elim (Option-cases (q.select_count s).0) [
    | inl failed ↦ inr failed
    | inr (n, got) ↦ inl (got ∙ ap some (q.count_law s n got))
  ]

  -- Where the total is: as many as there are stored readings, or 0 where the query fails.
  abbrev pub Totals : w.State → MetricsResponse → Type 0
  Totals s resp =
      (((total_rows w q s).0 ≡ some (length (w.tables s).readings))
        × (resp.total_rows_in_db ≡ length (w.tables s).readings))
      ⊎ (((total_rows w q s).0 ≡ none) × (resp.total_rows_in_db ≡ 0))

  -- What the entry of a source says: of the stored readings, or of none where the query fails.
  abbrev pub Entry : w.State → Server → MetricsResponse → Text → Type 0
  Entry s srv resp src =
      (newest : Option Time) × (lookup src resp.sources
        ≡ shown (lookup src srv.metrics.per_source) newest)
      × (NewestOf q.instant (w.tables s).readings src newest
          ⊎ (((source_last_seen w q (total_rows w q s).1).0 ≡ none) × (newest ≡ none)))

  -- the entries of this process's counters
  seeds : Server → Map SourceMetrics
  seeds srv = seed (snapshots srv.metrics.per_source) []

  lookup-seeds :
      (srv : Server) (src : Text)
      → IsMap srv.metrics.per_source
      → lookup src (seeds srv) ≡ seeded (snapshot_of (lookup src srv.metrics.per_source)) none
  unfolding seeds lookup seed
  lookup-seeds srv src h =
      lookup-seed (snapshots srv.metrics.per_source) [] src
        (snapshots-IsMap srv.metrics.per_source h)
      ∙ ap (λ (o : Option SourceSnapshot). seeded o none)
          (lookup-snapshots srv.metrics.per_source src)

  entry :
      (srv : Server) (s : w.State) (src : Text)
      → IsMap srv.metrics.per_source
      → (newest : Option Time) × (lookup src
            (enriched (source_last_seen w q (total_rows w q s).1).0 (seeds srv))
          ≡ shown (lookup src srv.metrics.per_source) newest)
        × (NewestOf q.instant (w.tables s).readings src newest
            ⊎ (((source_last_seen w q (total_rows w q s).1).0 ≡ none) × (newest ≡ none)))
  unfolding enriched total_rows
  entry srv s src h =
      let st = lookup src srv.metrics.per_source in
      let s' = (total_rows w q s).1 in
      elim (Option-cases (source_last_seen w q s').0) [
        | inl failed ↦
            (none, rw failed (lookup-seeds srv src h ∙ shown_lem st none), inr (failed, refl))
        | inr (m, got) ↦
            let kept : (w.tables s').readings ≡ (w.tables s).readings =
              ap (λ (t : Tables). t.readings) (q.count_keeps s) in
            (
              lookup src m,
              rw got (
                  lookup-enrich m (seeds srv) src (source_last_seen-IsMap w q s' m got)
                  ∙ ap (dated (lookup src m)) (lookup-seeds srv src h)
                  ∙ shown_lem st (lookup src m)),
              inl (
                  subst (λ rows. NewestOf q.instant rows src (lookup src m)) kept
                    (source_last_seen-NewestOf w q s' m src got)),
            )
      ]

  -- Where the counters have each source once, as in any Go map: GET /metrics answers 200 and
  -- changes no table. The total is the number of stored readings, or 0 where its query fails. A
  -- source has an entry exactly when this process has counted readings of it or the database
  -- answers that it stores one; the entry has the counter and the time of receipt of this process,
  -- and the time of the newest stored reading of the source, or none where the query fails.
  pub metrics_lem :
      (c : Clock) (srv : Server) (s : w.State)
      → IsMap srv.metrics.per_source
      → (resp : MetricsResponse) × ((handle_metrics w q c srv s).0
          ≡ write_json 200 (metrics_response resp))
        × (w.tables (handle_metrics w q c srv s).1 ≡ w.tables s)
        × (resp.rows_ingested_since_start ≡ srv.metrics.total)
        × Totals s resp
        × ((src : Text) → Entry s srv resp src)
  unfolding handle_metrics snapshot total_rows seeds
  metrics_lem c srv s h = (
    _,
    refl,
    source_last_seen-tables w q (total_rows w q s).1 ∙ q.count_keeps s,
    refl,
    elim (total_rows-cases s) [
      | inl got ↦ inl (got, ap counted got)
      | inr failed ↦ inr (failed, ap counted failed)
    ],
    λ src. entry srv s src h,
  )

  pub handle_metrics-tables :
      (c : Clock) (srv : Server) (s : w.State)
      → w.tables (handle_metrics w q c srv s).1 ≡ w.tables s
  unfolding handle_metrics total_rows
  handle_metrics-tables c srv s = source_last_seen-tables w q (total_rows w q s).1 ∙ q.count_keeps s
