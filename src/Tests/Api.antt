-- ===== src/Tests/Api.antt =====
-- The API's theorems at concrete inputs.
use cryo_lab_telemetry.Store.Cursor.{complete, scan_rows, collect}
use cryo_lab_telemetry.Store.Data.{Channel}
use cryo_lab_telemetry.Prelude.{
  arith, ◌≢◌, ℕ, suc, ◌+◌, ◌*◌, ◌≡◌, ◌≤◌, ◌<◌, ◌⊎◌, inl, inr, refl, Text, text, Option, none, some,
  List, [], ◌∷◌,
}
use cryo_lab_telemetry.Prelude.Int.{pos, ◌≤ℤ◌, ◌<ℤ◌, ◌-ℤ◌, ◌+ℤ◌}
use cryo_lab_telemetry.Values.{second, Time}
use cryo_lab_telemetry.Store.Data.{set_key}
use cryo_lab_telemetry.Store.Series.{Bucket, SeriesQueries, step_seconds, query_series}
use cryo_lab_telemetry.Store.Series.Steps.{IsStep}
use cryo_lab_telemetry.Prelude.Decimal.{itoa}
use cryo_lab_telemetry.Auth.{source_for_token}
use cryo_lab_telemetry.Api.Http.{decoded, ConfigPayload}
use cryo_lab_telemetry.Api.Ingest.{ingest_batch, ingest}
use cryo_lab_telemetry.Api.Ingest.Confined.{Adds, ingest-Adds}
use cryo_lab_telemetry.Api.Ingest.Stored.{Answer, ingest_batch-Answer}
use cryo_lab_telemetry.Api.Config.{sampling_interval_key, put_config}
use cryo_lab_telemetry.Api.Config.Put as Put
use cryo_lab_telemetry.Api.Config.Partial.{put_config-partial}
use cryo_lab_telemetry.Api.Series.{Query, minutes, step_pattern, resolve_step, handle_series}
use cryo_lab_telemetry.Api.Series.Steps.{resolve_step-auto, query_series-IsStep}
use cryo_lab_telemetry.Api.Series.Answers.{Served, handle_series-Served}
use cryo_lab_telemetry.Tests.Memory.{
  Mem, tables_of, memory, formats, start, batch, sample, server, limits, temp, lab,
}

ingest_batch-Answer_example :
    let h = ingest_batch memory formats server lab batch start in
    Answer memory formats server lab batch start h
ingest_batch-Answer_example = ingest_batch-Answer memory formats server lab batch start

ingest-Adds_example :
    let t = tables_of start in
    let u = tables_of (ingest memory formats server (text "secret") (decoded batch) start).world in
    ((source_for_token server.tokens (text "secret") ≡ none) × (u ≡ t))
    ⊎ ((source : Text) × (source_for_token server.tokens (text "secret") ≡ some source)
        × Adds source t u)
ingest-Adds_example = ingest-Adds memory formats server (text "secret") (decoded batch) start

abbrev request : ConfigPayload
request = record {
  sampling_interval_seconds = pos 20;
  alert_max_emails_per_day = pos 0;
  thresholds = limits ∷ [];
}

put_config-Answer_example :
    let h = put_config memory server (decoded request) start in
    Put.Answer memory server request start (tables_of h.world) h.response h.server
put_config-Answer_example = Put.put_config-Answer memory server request start

resolve_step-auto_example :
    (secs : ℕ) × (step_seconds (resolve_step [] (pos 0) (minutes 600)) ≡ pos secs)
    × (5 ≤ secs)
    × ((minutes 600 -ℤ pos 0 ≤ℤ minutes 44640) → minutes 600 -ℤ pos 0 ≤ℤ pos (744 * secs * second))
    × ((minutes 600 -ℤ pos 0 ≤ℤ minutes 44640)
        → (origin : Time) (i j : ℕ) → (pos 0 <ℤ origin +ℤ pos (suc i * (secs * second)))
        → (origin +ℤ pos (j * (secs * second)) <ℤ minutes 600)
        → j ≤ i + 744)
    × ((minutes 60 <ℤ minutes 600 -ℤ pos 0) → 30 ≤ secs)
unfolding step_pattern
resolve_step-auto_example = resolve_step-auto [] (pos 0) (minutes 600) refl (omega arith)

-- Queries that answer one bucket.
abbrev one_bucket : List Bucket
one_bucket = record { ts = pos 0; value = (sample 0 20).value } ∷ []

abbrev queries : SeriesQueries Mem
queries = record {
  raw = λ step source metric from to m. (none, m);
  rollup = λ view step source metric from to m. (some (complete one_bucket), m);
}

abbrev channels : Mem → Option (List Channel) × Mem
channels m = (none, m)

abbrev two_minutes : IsStep (text "2m") 2 60
two_minutes = record {
  digits = b'2' ∷ [];
  unit = b'm';
  parts = refl;
  all_digits = ((omega arith, omega arith), tt);
  some_digit = omega arith;
  few = omega arith;
  number = refl;
  seconds = inr (inl (refl, refl));
}

query_series-IsStep_example :
    let answer = query_series queries lab temp (pos 0) (pos 9) (text "2m") start in
    ((2 * 60 ≡ 0) × (answer ≡ (none, start)))
    ⊎ ((1 ≤ 2 * 60) × (2 * 60 < 60) × (answer ≡ (some one_bucket, start)))
    ⊎ ((60 ≤ 2 * 60) × (answer ≡ (some one_bucket, start)))
unfolding scan_rows collect
query_series-IsStep_example =
    query_series-IsStep queries lab temp (text "2m") (pos 0) (pos 9) 2 60 start two_minutes

abbrev query : Query
query = record { source = lab; metric = temp; from = []; to = []; step = text "2m" }

handle_series-Served_example :
    let (a, s') = handle_series queries channels (λ m. m.clock) (λ t. none) query start in
    Served queries channels (λ m. m.clock) (λ t. none) query start a s'
handle_series-Served_example =
    handle_series-Served queries channels (λ m. m.clock) (λ t. none) query start

-- The interval is valid, the cap is not.
abbrev half_valid : ConfigPayload
half_valid = record {
  sampling_interval_seconds = pos 20;
  alert_max_emails_per_day = pos 2000;
  thresholds = [];
}

put_config-partial_example :
    let h = put_config memory server (decoded half_valid) start in
    let t = tables_of start in
    (h.response.status ≡ 400)
    × (h.server ≡ server)
    × (tables_of h.world
        ≡ record t { config = set_key sampling_interval_key (itoa (pos 20)) t.config })
put_config-partial_example =
    put_config-partial memory server half_valid start (λ e. not_zero 20 (omega arith) e)
      (omega arith) (omega arith) (omega arith) refl
  where
    not_zero : (n : ℕ) → 1 ≤ n → pos n ≢ pos 0
    not_zero n h e = ground arith
