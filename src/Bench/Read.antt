-- ===== src/Bench/Read.antt =====
-- The read mode of the bench: cmdRead and discoverChannels of bench/commands.go, up to the requests
-- that its workers send.
pub mod Chosen
pub mod Accepted
pub mod After
use mathlib.Core.List.{Memᴰ}
use cryo_lab_telemetry.Prelude.{
  ℕ, ◌*◌, ◌/◌, Text, text, text_eq, is_empty, Option, none, some, List, [], ◌∷◌, ◌++◌, ◌||◌,
  if◌then◌else◌,
}
use cryo_lab_telemetry.Prelude.Int.{ℤ, pos, negsuc, ◌-ℤ◌}
use cryo_lab_telemetry.Values.{Time, second}
use cryo_lab_telemetry.Store.Data.{Channel}
use cryo_lab_telemetry.Api.Series.{Query}

-- What the read of /api/channels comes to.
pub data Listed : Type 0 where
  -- client.Get returns an error
  unreachable : Listed
  -- the response has no JSON that decodes
  unreadable : Listed
  -- the channels of the response; of any other JSON, there are none
  listed : List Channel → Listed

-- the loop over the channels
unfoldable pub metrics_of_source : Text → List Channel → List Text → List Text
metrics_of_source source [] metrics = metrics
metrics_of_source source (c ∷ cs) metrics =
    metrics_of_source source cs
      (if text_eq c.source source then metrics ++ c.metric ∷ [] else metrics)

-- discoverChannels: a source, and its metrics
unfoldable pub discover_channels : Listed → Text × List Text
discover_channels (listed (c ∷ cs)) = (c.source, metrics_of_source c.source (c ∷ cs) [])
discover_channels _ = ([], [])

-- The source and the metrics that are read, for the flags -source and -metric; `none` where there
-- are none, and the bench exits.
unfoldable pub to_read : Text → Text → Listed → Option (Text × List Text)
to_read source_flag metric_flag found =
    let (source, metrics) =
      if is_empty source_flag || is_empty metric_flag
      then discover_channels found
      else (source_flag, metric_flag ∷ []) in
    if is_empty source || is_empty metrics then none else some (source, metrics)

abbrev pub hours : ℕ → ℕ
hours n = n * 3600 * second

-- the ranges, in nanoseconds
abbrev pub ranges : List ℕ
ranges = hours 1 ∷ hours 24 ∷ hours (7 * 24) ∷ hours (40 * 24) ∷ []

-- The query of a request at the time `to`, where `rfc3339` is Format(time.RFC3339). Its encoding
-- in a URL is left out.
pub read_query : (Time → Text) → Text → Text → ℕ → Time → Query
read_query rfc3339 source metric span to = record {
  source = source;
  metric = metric;
  from = rfc3339 (to -ℤ pos span);
  to = rfc3339 to;
  step = [];
}
