-- ===== src/Api/Ingest.antt =====
-- server/internal/api/ingest.go, with `requireIngestToken` of middleware.go.
pub mod Confined
pub mod Stored
pub mod Kept
pub mod Concurrent
use cryo_lab_telemetry.Prelude.{
  ℕ, suc, ◌+◌, Text, text, text_eq, is_empty, Option, none, some, List, [], ◌∷◌, ◌++◌, Bool, true,
  false, not, ◌&&◌, ltb, length, if◌then◌else◌,
}
use cryo_lab_telemetry.Prelude.Decimal.{itoa}
use cryo_lab_telemetry.Prelude.Int.{pos}
use cryo_lab_telemetry.Values.{Float64, is_finite, Time, is_zero}
use cryo_lab_telemetry.Store.Data.{Reading}
use cryo_lab_telemetry.Store.World.{World}
use cryo_lab_telemetry.Store.Insert.{Inserted, insert_readings}
use cryo_lab_telemetry.Alert.Firing.{Formats, check}
use cryo_lab_telemetry.Auth.{source_for_token}
use cryo_lab_telemetry.Metrics.{record_ingest}
use cryo_lab_telemetry.Api.Http.{
  Decoded, decoded, malformed, ingest_response, Response, write_error, write_json, Server, Handled,
}

abbrev pub max_batch_readings : ℕ
max_batch_readings = 50_000

-- The fields are those of a stored reading; the source may be "".
abbrev pub IngestReading : Type 0
IngestReading = Reading

-- The reason why a reading is refused; `none` is "".
unfoldable pub validate_reading : IngestReading → Text → Option Text
validate_reading b token_source =
    if is_empty b.metric
    then some (text "metric is required")
    else if not (is_empty b.source) && not (text_eq b.source token_source)
    then some (text "source does not match API token")
    else if is_zero b.ts
    then some (text "ts is required (RFC3339)")
    else if not (is_finite b.value)
    then some (text "value must be a finite number")
    else none

-- The loop over the batch: the readings to store, or the index and reason of the first refused.
pub data Checked : Type 0 where
  readings : List Reading → Checked
  refused : ℕ → Text → Checked

unfoldable pub validate_from : ℕ → List IngestReading → List Reading → Text → Checked
validate_from i [] acc source = readings acc
validate_from i (b ∷ bs) acc source =
    let rest =
      validate_from (suc i) bs
        (acc ++ record { source = source; metric = b.metric; ts = b.ts; value = b.value } ∷ [])
        source in
    elim (validate_reading b source) [ some reason ↦ refused i reason | none ↦ rest ]

module _ (w : World) (f : Formats) where
  open w use {State, now}

  unfoldable pub refuse : Server → ℕ → Text → State → Handled State
  refuse srv status msg s = record {
    response = write_error status msg;
    server = srv;
    messages = [];
    world = s;
  }

  -- the answer where `InsertReadings` returns an error
  unfoldable pub storing_failed : Server → State → Handled State
  storing_failed srv s = refuse srv 500 (text "failed to store readings") s

  -- what follows an `InsertReadings` that returned no error
  unfoldable pub accepted : Server → Text → List Reading → ℕ → ℕ → State → Handled State
  accepted srv source rs received inserted s =
      let metrics = record_ingest srv.metrics source inserted (now s) in
      let (alerter, out, s') = check w f srv.alerter rs s in
      record {
        response = write_json 200 (ingest_response received inserted);
        server = record srv { metrics = metrics; alerter = alerter };
        messages = out;
        world = s';
      }

  -- The `none` of `insert_readings` stands for a call that does not return.
  unfoldable pub respond :
      Server → Text → List Reading → ℕ → Option Inserted × State → Handled State
  respond srv source rs received (out, s) = elim out [
    | none ↦ storing_failed srv s
    | some ins ↦
        if ins.failed then storing_failed srv s else accepted srv source rs received ins.rows s
  ]

  unfoldable pub ingest_batch : Server → Text → List IngestReading → State → Handled State
  ingest_batch srv source [] s = record {
    response = write_json 200 (ingest_response 0 0);
    server = srv;
    messages = [];
    world = s;
  }
  ingest_batch srv source (b ∷ bs) s =
      let batch = b ∷ bs in
      if ltb max_batch_readings (length batch)
      then refuse srv 413 (text "batch too large") s
      else elim (validate_from 0 batch [] source) [
        | refused i reason ↦
            refuse srv 400 (text "reading " ++ (itoa (pos i) ++ (text ": " ++ reason))) s
        | readings rs ↦ respond srv source rs (length batch) (insert_readings w rs s)
      ]

  -- handleIngest, for the source that the middleware put into the context
  unfoldable pub handle_ingest :
      Server → Text → Decoded (List IngestReading) → State → Handled State
  handle_ingest srv source (malformed msg) s = refuse srv 400 (text "invalid JSON body: " ++ msg) s
  handle_ingest srv source (decoded batch) s = ingest_batch srv source batch s

  -- POST /ingest: requireIngestToken, then handleIngest. The text is the header X-Api-Key.
  unfoldable pub ingest : Server → Text → Decoded (List IngestReading) → State → Handled State
  ingest srv token body s = elim (source_for_token srv.tokens token) [
    | none ↦ refuse srv 401 (text "invalid or missing X-Api-Key") s
    | some source ↦ handle_ingest srv source body s
  ]
