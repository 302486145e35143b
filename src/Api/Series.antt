-- ===== src/Api/Series.antt =====
-- server/internal/api/series.go: the read of a series and its CSV export.
pub mod Pattern
pub mod Steps
pub mod Answers
pub mod Export
pub mod Unchanged
pub mod Ranged
use cryo_lab_telemetry.Prelude.{
  ℕ, zero, suc, ◌*◌, ◌-◌, ◌^◌, Text, text, text_eq, is_empty, Option, none, some, List, [], ◌∷◌,
  ◌++◌, Bool, true, false, not, ◌&&◌, ◌||◌, ◌==◌, leb, if◌then◌else◌,
}
use cryo_lab_telemetry.Prelude.Int.{ℤ, pos, negsuc, leb_ℤ, ltb_ℤ, ◌-ℤ◌}
use cryo_lab_telemetry.Prelude.Split.{split_on, keep_trimmed}
use cryo_lab_telemetry.Values.{Float64, Time, second}
use cryo_lab_telemetry.Store.Data.{Channel}
use cryo_lab_telemetry.Store.Series.{Bucket, SeriesQueries, query_series}

-- The parameters of a request's URL; a missing one is "".
pub record Query : Type 0 where
  pub source : Text
  pub metric : Text
  pub from : Text
  pub to : Text
  pub step : Text

abbrev default_range : ℤ
default_range = pos (3 * 3600 * second)

abbrev pub minutes : ℕ → ℤ
minutes n = pos (n * 60 * second)

abbrev is_digit : ℕ → Bool
is_digit c = leb b'0' c && leb c b'9'

abbrev is_unit : ℕ → Bool
is_unit c = c == b's' || c == b'm' || c == b'h' || c == b'd'

-- `(s|m|h|d)$`
unit_end : Text → Bool
unit_end [] = false
unit_end (c ∷ []) = is_unit c
unit_end (c ∷ d ∷ s) = false

-- a digit, up to `n` more of them, and a unit at the end
digits_end : ℕ → Text → Bool
unfolding unit_end
digits_end n [] = false
digits_end zero (c ∷ s) = is_digit c && unit_end s
digits_end (suc n) (c ∷ s) = let more = digits_end n s in is_digit c && (unit_end s || more)

-- stepPattern: ^[0-9]{1,4}(s|m|h|d)$
unfoldable pub step_pattern : Text → Bool
unfolding digits_end unit_end
step_pattern t = digits_end 3 t

-- t.Sub(u): a difference that no int64 of nanoseconds holds is cut off at the largest or smallest.
pub sub_time : Time → Time → ℤ
unfolding ◌-ℤ◌
sub_time t u =
    let d = t -ℤ u in
    if ltb_ℤ (pos (2 ^ 63 - 1)) d
    then pos (2 ^ 63 - 1)
    else if ltb_ℤ d (negsuc (2 ^ 63 - 1))
    then negsuc (2 ^ 63 - 1)
    else d

auto_step : ℤ → Text
auto_step span =
    if leb_ℤ span (minutes 60)
    then text "5s"
    else if leb_ℤ span (minutes 360)
    then text "30s"
    else if leb_ℤ span (minutes 1440)
    then text "2m"
    else if leb_ℤ span (minutes 10080)
    then text "15m"
    else if leb_ℤ span (minutes 44640)
    then text "1h"
    else text "6h"

-- resolveStep
pub resolve_step : Text → Time → Time → Text
unfolding step_pattern sub_time auto_step
resolve_step requested from to =
    if step_pattern requested then requested else auto_step (sub_time to from)

-- What parseTimeRange returns: the bounds, or the text of an error.
pub data Range : Type 0 where
  range : Time → Time → Range
  bad_range : Text → Range

-- A bound of the range: the default where the parameter is missing, `none` where it does not parse.
-- The function is time.Parse(time.RFC3339, _).
abbrev bound_or : (Text → Option Time) → Time → Text → Option Time
bound_or parse_rfc3339 default v = if is_empty v then some default else parse_rfc3339 v

ordered_range : Time → Time → Range
ordered_range from to =
    if ltb_ℤ from to then range from to else bad_range (text "'from' must be before 'to'")

-- parseTimeRange
pub parse_time_range : (Text → Option Time) → Time → Query → Range
unfolding ordered_range
parse_time_range parse_rfc3339 now q = elim (bound_or parse_rfc3339 now q.to) [
  | none ↦ bad_range (text "invalid 'to' (want RFC3339)")
  | some to ↦ elim (bound_or parse_rfc3339 (to -ℤ default_range) q.from) [
    | none ↦ bad_range (text "invalid 'from' (want RFC3339)")
    | some from ↦ ordered_range from to
  ]
]

-- The metrics of the source among the channels.
metrics_of : Text → List Channel → List Text
metrics_of source [] = []
metrics_of source (c ∷ cs) =
    let rest = metrics_of source cs in if text_eq c.source source then c.metric ∷ rest else rest

pub file_name : Text → List Text → Text
file_name source (m ∷ []) = source ++ (text "_" ++ (m ++ text ".csv"))
file_name source _ = source ++ text ".csv"

-- The answers of the two handlers; a file is its name and its records.
pub data Answer : Type 0 where
  error : ℕ → Text → Answer
  series : Text → Text → Text → Time → Time → List Bucket → Answer
  file : Text → List (List Text) → Answer

-- The texts that the file holds for an instant in UTC and for a value.
pub record CsvFormats : Type 0 where
  pub rfc3339_utc : Time → Text
  pub float_g : Float64 → Text

-- The parameters: the state of the world, its series queries, the rows of Channels, time.Now and
-- time.Parse.
module _ {S : Type 0} (queries : SeriesQueries S) (select_channels : S → Option (List Channel) × S)
    (now : S → Time) (parse_rfc3339 : Text → Option Time) where
  -- handleSeries
  pub handle_series : Query → S → Answer × S
  handle_series q s =
      if is_empty q.source || is_empty q.metric
      then (error 400 (text "source and metric are required"), s)
      else elim (parse_time_range parse_rfc3339 (now s) q) [
        | bad_range msg ↦ (error 400 msg, s)
        | range from to ↦
            let step = resolve_step q.step from to in
            let (buckets, s') = query_series queries q.source q.metric from to step s in
            elim buckets [
              | none ↦ (error 500 (text "query failed"), s')
              | some bs ↦ (series q.source q.metric step from to bs, s')
            ]
      ]

  -- resolveExportMetrics
  pub resolve_export_metrics : Text → Text → S → (List Text × Text) × S
  resolve_export_metrics source [] s =
      let (channels, s') = select_channels s in
      let metrics : List Text = elim channels [ none ↦ [] | some cs ↦ metrics_of source cs ] in
      ((metrics, source ++ text "_all.csv"), s')
  resolve_export_metrics source (c ∷ param) s =
      let metrics = keep_trimmed (split_on b',' (c ∷ param)) in
      ((metrics, file_name source metrics), s)

  csv_rows : CsvFormats → Text → Text → List Bucket → List (List Text)
  csv_rows f source metric [] = []
  csv_rows f source metric (b ∷ bs) =
      (f.rfc3339_utc b.ts ∷ source ∷ metric ∷ f.float_g b.value ∷ []) ∷ csv_rows f source metric bs

  -- the loop over the metrics; one whose query fails is passed over
  pub export_rows : CsvFormats → Text → Time → Time → Text → List Text → S → List (List Text) × S
  export_rows f source from to step [] s = ([], s)
  export_rows f source from to step (m ∷ ms) s =
      let (buckets, s') = query_series queries source m from to step s in
      let (rest, s'') = export_rows f source from to step ms s' in
      elim buckets [ none ↦ (rest, s'') | some bs ↦ (csv_rows f source m bs ++ rest, s'') ]

  -- handleExportCSV
  pub handle_export_csv : CsvFormats → Query → S → Answer × S
  handle_export_csv f q s =
      if is_empty q.source
      then (error 400 (text "source is required"), s)
      else elim (parse_time_range parse_rfc3339 (now s) q) [
        | bad_range msg ↦ (error 400 msg, s)
        | range from to ↦
            let step = resolve_step q.step from to in
            let ((metrics, name), s') = resolve_export_metrics q.source q.metric s in
            let (rows, s'') = export_rows f q.source from to step metrics s' in
            (
              file name ((text "ts" ∷ text "source" ∷ text "metric" ∷ text "value" ∷ []) ∷ rows),
              s'',
            )
      ]
