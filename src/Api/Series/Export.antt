-- ===== src/Api/Series/Export.antt =====
-- The metrics and the records of an exported file.
use mathlib.Core.List.{Memᴰ}
use cryo_lab_telemetry.Store.Data.{Channel}
use cryo_lab_telemetry.Prelude.{
  ◌≡◌, refl, ap, Text, Option, List, [], ◌∷◌, All, Option-cases, All-append, inl, inr,
}
use cryo_lab_telemetry.Prelude.Split.Laws.{join, Without, IsTrimmed, keep_trimmed-join}
use cryo_lab_telemetry.Values.{Time}
use cryo_lab_telemetry.Store.Series.{Bucket, SeriesQueries, query_series}
use cryo_lab_telemetry.Api.Series.{
  resolve_export_metrics, file_name, CsvFormats, csv_rows, export_rows,
}

module _ {S : Type 0} (queries : SeriesQueries S) (select_channels : S → Option (List Channel) × S)
    (now : S → Time) (parse_rfc3339 : Text → Option Time) where
  -- A record of the source, of one of the metrics.
  pub record IsRecord (f : CsvFormats) (source : Text) (metrics : List Text) (row : List Text)
      : Type 0 where
    pub metric : Text
    pub bucket : Bucket
    pub listed : Memᴰ metric metrics
    pub fields : row ≡ f.rfc3339_utc bucket.ts ∷ source ∷ metric ∷ f.float_g bucket.value ∷ []

  csv_rows-IsRecord :
      (f : CsvFormats) (source m : Text) (ms : List Text) (bs : List Bucket)
      → All
          (IsRecord f source (m ∷ ms))
          (csv_rows queries select_channels now parse_rfc3339 f source m bs)
  unfolding csv_rows
  csv_rows-IsRecord f source m ms [] = tt
  csv_rows-IsRecord f source m ms (b ∷ bs) = (
    record { metric = m; bucket = b; listed = Memᴰ.head refl; fields = refl },
    csv_rows-IsRecord f source m ms bs,
  )

  one_more :
      (f : CsvFormats) (source m : Text) (ms : List Text) (rows : List (List Text))
      → All (IsRecord f source ms) rows
      → All (IsRecord f source (m ∷ ms)) rows
  one_more f source m ms [] h = tt
  one_more f source m ms (r ∷ rs) (h, hs) = (
    record { metric = h.metric; bucket = h.bucket; listed = Memᴰ.tail h.listed; fields = h.fields },
    one_more f source m ms rs hs,
  )

  -- Whatever queries fail, each record of an export is one bucket of the source and of a metric
  -- that the file is to hold.
  pub export_rows-IsRecord :
      (f : CsvFormats) (source : Text) (from to : Time) (step : Text) (ms : List Text) (s : S)
      → All
          (IsRecord f source ms)
          (export_rows queries select_channels now parse_rfc3339 f source from to step ms s).0
  unfolding export_rows
  export_rows-IsRecord f source from to step [] s = tt
  export_rows-IsRecord f source from to step (m ∷ ms) s =
      let answer = query_series queries source m from to step s in
      let rest =
        one_more f source m ms _ (export_rows-IsRecord f source from to step ms answer.1) in
      elim (Option-cases answer.0) [
        | inl failed ↦ rw (failed, export_rows) rest
        | inr (bs, got) ↦
            rw (got, export_rows) (All-append _ _ _ (csv_rows-IsRecord f source m ms bs) rest)
      ]

  -- A parameter that lists metrics with commas between them, each trimmed, exports exactly those,
  -- in that order; no channel is looked up.
  pub resolve_export_metrics-join :
      (source m : Text) (ms : List Text) (s : S)
      → All (Without b',') (m ∷ ms)
      → All IsTrimmed (m ∷ ms)
      → resolve_export_metrics queries select_channels now parse_rfc3339 source
          (join b',' (m ∷ ms))
          s
        ≡ ((m ∷ ms, file_name source (m ∷ ms)), s)
  unfolding resolve_export_metrics
  resolve_export_metrics-join source [] ms s h (k, _) = elim k [ ]
  resolve_export_metrics-join source (c ∷ m) [] s h k =
      ap (λ l. ((l, file_name source l), s)) (keep_trimmed-join (c ∷ m) [] h k)
  resolve_export_metrics-join source (c ∷ m) (x ∷ xs) s h k =
      ap (λ l. ((l, file_name source l), s)) (keep_trimmed-join (c ∷ m) (x ∷ xs) h k)
