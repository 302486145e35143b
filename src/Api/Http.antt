-- ===== src/Api/Http.antt =====
-- Requests and responses (server/internal/api/server.go, middleware.go), and the server's state.
use cryo_lab_telemetry.Prelude.{ℕ, Text, Map, Option, List, Bool}
use cryo_lab_telemetry.Prelude.Int.{ℤ}
use cryo_lab_telemetry.Values.{Time}
use cryo_lab_telemetry.Store.Data.{Threshold, Channel}
use cryo_lab_telemetry.Alert.{Alerter}
use cryo_lab_telemetry.Alert.Firing.{Message}
use cryo_lab_telemetry.Metrics.{Tracker}

-- What `Decode` made of a request body: a value, or the text of its error.
pub data Decoded {ℓ} (A : Type ℓ) : Type ℓ where
  decoded : A → Decoded A
  malformed : Text → Decoded A

-- configPayload
pub record ConfigPayload : Type 0 where
  pub sampling_interval_seconds : ℤ
  pub alert_max_emails_per_day : ℤ
  pub thresholds : List Threshold

-- sourceMetrics; the keys of the JSON objects are left out
pub record SourceMetrics : Type 0 where
  pub rows_since_start : ℕ
  pub last_received : Option Time
  pub last_reading_ts : Option Time

-- metricsResponse, but for the note, which is a constant
pub record MetricsResponse : Type 0 where
  pub uptime_seconds : ℤ
  pub started_at : Text
  pub rows_ingested_since_start : ℕ
  pub total_rows_in_db : ℕ
  pub sources : Map SourceMetrics

-- The JSON bodies that the handlers write.
pub data Body : Type 0 where
  error : Text → Body
  ingest_response : ℕ → ℕ → Body
  config_response : ConfigPayload → Body
  login_response : Text → Time → Body
  health : Text → Bool → Body
  metrics_response : MetricsResponse → Body
  channels_response : List Channel → Body

pub record Response : Type 0 where
  pub status : ℕ
  pub body : Body

-- writeError
abbrev pub write_error : ℕ → Text → Response
write_error status msg = record { status = status; body = error msg }

-- writeJSON
abbrev pub write_json : ℕ → Body → Response
write_json status v = record { status = status; body = v }

-- The part of `Server` that the handlers change, beside the world: the alerter and the counters.
pub record Server : Type 0 where
  pub tokens : Map Text
  pub alerter : Alerter
  pub metrics : Tracker
  pub started_at : Time

-- NewServer, at the clock's `now`
pub new_server : Map Text → Alerter → Tracker → Time → Server
new_server tokens alerter metrics now = record {
  tokens = tokens;
  alerter = alerter;
  metrics = metrics;
  started_at = now;
}

-- What a handler leaves: its response, the server, the messages sent off and the world.
pub record Handled (S : Type 0) : Type 0 where
  pub response : Response
  pub server : Server
  pub messages : List Message
  pub world : S
