-- ===== src/Api/Router.antt =====
-- server/internal/api/server.go: the routes and the middleware around the handlers. The router
-- of chi and the decoding of JSON are parameters.
pub mod Unchanged
pub mod Effect
pub mod Histories
pub mod ReadBack
use mathlib.Core.List.{Memᴰ}
use cryo_lab_telemetry.Prelude.{
  ℕ, ◌≡◌, Text, text, text_eq, Option, none, some, List, [], ◌∷◌, ◌++◌, Bool, true, false,
  if◌then◌else◌,
}
use cryo_lab_telemetry.Values.{Time}
use cryo_lab_telemetry.Store.World.{World}
use cryo_lab_telemetry.Store.Reads.{Reads, channels}
use cryo_lab_telemetry.Alert.Firing.{Formats, Message}
use cryo_lab_telemetry.Auth.Admin.{JwtLibrary, JwtManager}
use cryo_lab_telemetry.Api.Http.{Decoded, ConfigPayload, Response, Server, Handled}
use cryo_lab_telemetry.Api.Ingest.{IngestReading, ingest}
use cryo_lab_telemetry.Api.Config.{get_config}
use cryo_lab_telemetry.Api.Series.{Query, Answer, CsvFormats, handle_series, handle_export_csv}
use cryo_lab_telemetry.Api.Admin.{LoginRequest, handle_login, update_config}
use cryo_lab_telemetry.Api.Ops.{Clock, handle_health, handle_metrics, handle_channels}

-- What a router finds for a request: a handler, no route with the path, or none with the method.
pub data Found (E : Type 0) : Type 0 where
  matched : E → Found E
  not_found : Found E
  not_allowed : Found E

-- A route: its method, its path and its handler.
pub record Route (E : Type 0) : Type 0 where
  pub method : Text
  pub path : Text
  pub handler : E

-- chi's router, for routes without parameters in their paths.
pub record Mux : Type 1 where
  pub find : {E : Type 0} → List (Route E) → Text → Text → Found E
  pub matched_law :
      {E : Type 0} (rs : List (Route E)) (method path : Text) (x : E)
      → find rs method path ≡ matched x
      → Memᴰ (record { method = method; path = path; handler = x }) rs

-- The handlers, each with the guard that its route puts before it.
pub data Endpoint : Type 0 where
  health metrics ingest_batch login channel_list series export_csv read_config write_config :
      Endpoint

abbrev pub on : Text → Text → Endpoint → Route Endpoint
on method path handler = record { method = method; path = path; handler = handler }

-- the routes of Router
unfoldable pub routes : List (Route Endpoint)
routes =
    on (text "GET") (text "/healthz") health
    ∷ on (text "GET") (text "/metrics") metrics
    ∷ on (text "POST") (text "/ingest") ingest_batch
    ∷ on (text "POST") (text "/api/login") login
    ∷ on (text "GET") (text "/api/channels") channel_list
    ∷ on (text "GET") (text "/api/series") series
    ∷ on (text "GET") (text "/api/export.csv") export_csv
    ∷ on (text "GET") (text "/api/config") read_config
    ∷ on (text "PUT") (text "/api/config") write_config
    ∷ []

pub record Request : Type 0 where
  pub method : Text
  pub path : Text
  -- the headers X-Api-Key and Authorization
  pub api_key : Text
  pub authorization : Text
  pub query : Query
  pub body : Text

-- What is answered: JSON, an answer of the series handlers, or a status alone.
pub data Reply : Type 0 where
  json : Response → Reply
  answer : Answer → Reply
  empty : ℕ → Reply

-- What the server runs on.
pub record Setup : Type 1 where
  pub world : World
  pub reads : Reads world
  pub formats : Formats
  pub jwt_library : JwtLibrary
  pub jwt : JwtManager
  pub clock : Clock
  pub csv : CsvFormats
  pub parse_rfc3339 : Text → Option Time
  pub decode_readings : Text → Decoded (List IngestReading)
  pub decode_login : Text → Decoded LoginRequest
  pub decode_config : Text → Decoded ConfigPayload
  pub mux : Mux

-- What a request leaves: the reply with the headers that corsPublic set, the server, the messages
-- sent off and the world.
pub record Served (S : Type 0) : Type 0 where
  pub headers : List (Text × Text)
  pub reply : Reply
  pub server : Server
  pub messages : List Message
  pub world : S

abbrev pub cors_headers : List (Text × Text)
cors_headers =
    (text "Access-Control-Allow-Origin", text "*")
    ∷ (text "Access-Control-Allow-Methods", text "GET, POST, PUT, OPTIONS")
    ∷ (text "Access-Control-Allow-Headers", text "Content-Type, Authorization, X-Api-Key")
    ∷ []

module _ (e : Setup) where
  abbrev pub State : Type 0
  State = e.world.State

  -- a handler that changes no state of the server
  abbrev only : Server → Reply × State → Served State
  only srv (r, s) = record {
    headers = cors_headers;
    reply = r;
    server = srv;
    messages = [];
    world = s;
  }

  abbrev as_json : Response × State → Reply × State
  as_json (r, s) = (json r, s)

  abbrev as_answer : Answer × State → Reply × State
  as_answer (a, s) = (answer a, s)

  abbrev handled : Handled State → Served State
  handled h = record {
    headers = cors_headers;
    reply = json h.response;
    server = h.server;
    messages = h.messages;
    world = h.world;
  }

  unfoldable pub dispatch : Endpoint → Request → Server → State → Served State
  dispatch health req srv s = only srv (as_json (handle_health e.world e.reads s))
  dispatch metrics req srv s = only srv (as_json (handle_metrics e.world e.reads e.clock srv s))
  dispatch ingest_batch req srv s =
      handled (ingest e.world e.formats srv req.api_key (e.decode_readings req.body) s)
  dispatch login req srv s =
      only srv
        (json (handle_login e.jwt_library e.jwt (e.world.now s) (e.decode_login req.body)), s)
  dispatch channel_list req srv s = only srv (as_json (handle_channels e.world e.reads s))
  dispatch series req srv s = only srv (
      as_answer (
        handle_series e.reads.series (channels e.world e.reads) e.world.now e.parse_rfc3339
          req.query s))
  dispatch export_csv req srv s = only srv (
      as_answer (
        handle_export_csv e.reads.series (channels e.world e.reads) e.world.now e.parse_rfc3339
          e.csv req.query s))
  dispatch read_config req srv s = handled (get_config e.world srv s)
  dispatch write_config req srv s =
      handled (
        update_config e.jwt_library e.jwt e.world srv req.authorization (e.decode_config req.body)
          s)

  unfoldable pub routed : Found Endpoint → Request → Server → State → Served State
  routed (matched x) req srv s = dispatch x req srv s
  routed not_found req srv s = only srv (empty 404, s)
  routed not_allowed req srv s = only srv (empty 405, s)

  -- A request through corsPublic and the router.
  unfoldable pub serve : Request → Server → State → Served State
  serve req srv s =
      if text_eq req.method (text "OPTIONS")
      then only srv (empty 204, s)
      else routed (e.mux.find routes req.method req.path) req srv s
