-- ===== src/Api/Series/Unchanged.antt =====
-- The reads of a series and its export change no table.
use cryo_lab_telemetry.Prelude.{
  ◌≡◌, refl, ◌∙◌, ◌⊎◌, inl, inr, Text, Option, List, [], ◌∷◌, ◌||◌, Option-cases, Bool-cases,
  is_empty,
}
use cryo_lab_telemetry.Prelude.Int.{pos, leb_ℤ}
use cryo_lab_telemetry.Values.{Time}
use cryo_lab_telemetry.Store.World.{World}
use cryo_lab_telemetry.Store.Reads.{Reads, channels}
use cryo_lab_telemetry.Store.Reads.Latest.{channels-tables}
use cryo_lab_telemetry.Store.Series.{query_series, step_seconds}
use cryo_lab_telemetry.Api.Series.{
  Query, CsvFormats, Range, range, bad_range, parse_time_range, resolve_step, handle_series,
  resolve_export_metrics, export_rows, handle_export_csv,
}

Range-cases :
    (r : Range)
    → ((msg : Text) × (r ≡ bad_range msg)) ⊎ ((from : Time) × (to : Time) × (r ≡ range from to))
Range-cases (range from to) = inr (from, to, refl)
Range-cases (bad_range msg) = inl (msg, refl)

module _ (w : World) (q : Reads w) where
  open w use {State, tables}

  query_series-tables :
      (source metric : Text) (from to : Time) (step : Text) (s : State)
      → tables (query_series q.series source metric from to step s).1 ≡ tables s
  unfolding query_series
  query_series-tables source metric from to step s =
      let sec = step_seconds step in
      elim (Bool-cases (leb_ℤ (pos 60) sec)) [
        | inl long ↦ rw (long, query_series) (q.rollup_keeps _ step source metric from to s)
        | inr under ↦ elim (Bool-cases (leb_ℤ (pos 1) sec)) [
          | inl mid ↦ rw (under, mid, query_series) (q.rollup_keeps _ step source metric from to s)
          | inr none_given ↦
              rw (under, none_given, query_series) (q.raw_keeps step source metric from to s)
        ]
      ]

  module _ (parse_rfc3339 : Text → Option Time) where
    pub handle_series-tables :
        (query : Query) (s : State)
        → tables (handle_series q.series (channels w q) w.now parse_rfc3339 query s).1 ≡ tables s
    unfolding handle_series
    handle_series-tables query s =
        elim (Bool-cases (is_empty query.source || is_empty query.metric)) [
          | inl missing ↦ rw (missing, handle_series)
          | inr named ↦ elim (Range-cases (parse_time_range parse_rfc3339 (w.now s) query)) [
            | inl (msg, bad) ↦ rw (named, bad, handle_series)
            | inr (from, to, ok) ↦
                let step = resolve_step query.step from to in
                elim (Option-cases
                  (query_series q.series query.source query.metric from to step s).0) [
                    | inl failed ↦
                        rw (named, ok, failed, handle_series)
                          (query_series-tables query.source query.metric from to step s)
                    | inr (bs, got) ↦
                        rw (named, ok, got, handle_series)
                          (query_series-tables query.source query.metric from to step s)
                  ]
          ]
        ]

    resolve_export_metrics-tables :
        (source param : Text) (s : State)
        → tables
            (resolve_export_metrics q.series (channels w q) w.now parse_rfc3339 source param s).1
          ≡ tables s
    unfolding resolve_export_metrics
    resolve_export_metrics-tables source [] s = channels-tables w q s
    resolve_export_metrics-tables source (c ∷ param) s = refl

    export_rows-tables :
        (csv : CsvFormats) (source : Text) (from to : Time) (step : Text) (ms : List Text)
        (s : State)
        → tables
            (export_rows q.series (channels w q) w.now parse_rfc3339 csv source from to step ms s).1
          ≡ tables s
    unfolding export_rows
    export_rows-tables csv source from to step [] s = refl
    export_rows-tables csv source from to step (m ∷ ms) s =
        let (r, s') = query_series q.series source m from to step s in
        let kept =
          export_rows-tables csv source from to step ms s'
          ∙ query_series-tables source m from to step s in
        elim (Option-cases (query_series q.series source m from to step s).0) [
          | inl failed ↦ rw (failed, export_rows) kept
          | inr (bs, got) ↦ rw (got, export_rows) kept
        ]

    pub handle_export_csv-tables :
        (csv : CsvFormats) (query : Query) (s : State)
        → tables (handle_export_csv q.series (channels w q) w.now parse_rfc3339 csv query s).1
          ≡ tables s
    unfolding handle_export_csv
    handle_export_csv-tables csv query s = elim (Bool-cases (is_empty query.source)) [
      | inl missing ↦ rw (missing, handle_export_csv)
      | inr named ↦ elim (Range-cases (parse_time_range parse_rfc3339 (w.now s) query)) [
        | inl (msg, bad) ↦ rw (named, bad, handle_export_csv)
        | inr (from, to, ok) ↦
            rw (named, ok, handle_export_csv)
              (export_rows-tables csv query.source from to (resolve_step query.step from to) _ _
                ∙ resolve_export_metrics-tables query.source query.metric s)
      ]
    ]
