-- ===== src/Api/Router/Effect.antt =====
-- What a request can change, and what it has to bring for it.
use mathlib.Core.List.{Memᴰ}
use mathlib.Core.Path.{subst}
use cryo_lab_telemetry.Prelude.{
  ◌≡◌, refl, sym, ap, ◌⊎◌, inl, inr, Text, text, text_eq, IsMap, some, List, [], ◌∷◌, ◌++◌, All,
  Bool-cases,
}
use cryo_lab_telemetry.Auth.{source_for_token}
use cryo_lab_telemetry.Auth.Admin.{verify}
use cryo_lab_telemetry.Metrics.{Tracker}
use cryo_lab_telemetry.Api.Http.{Server, Handled}
use cryo_lab_telemetry.Api.Ingest.Confined.{Adds, ingest-Adds}
use cryo_lab_telemetry.Api.Ingest.Kept.{SameServer, ingest-SameServer, ingest_unknown}
use cryo_lab_telemetry.Api.Config.Kept.{SameReadings, put_config-SameReadings, get_config-keeps}
use cryo_lab_telemetry.Api.Series.Unchanged.{handle_series-tables, handle_export_csv-tables}
use cryo_lab_telemetry.Api.Admin.{bearer}
use cryo_lab_telemetry.Api.Admin.Guarded.{update_config-guarded, update_config-silent}
use cryo_lab_telemetry.Api.Ops.Telemetry.{handle_metrics-tables}
use cryo_lab_telemetry.Api.Router.{
  Found, matched, not_found, not_allowed, Route, Endpoint, health, metrics, ingest_batch, login,
  channel_list, series, export_csv, read_config, write_config, routes, Request, Setup, Served,
  dispatch, routed, serve,
}
use cryo_lab_telemetry.Api.Router.Unchanged.{handle_health-tables, handle_channels-tables}

-- The request bears the header of an administrator: a token that verifies now.
abbrev pub IsAdmin : (e : Setup) → Request → e.world.State → Type 0
IsAdmin e req s =
    (token : Text) × (subject : Text) × (req.authorization ≡ bearer ++ token)
    × (verify e.jwt_library e.jwt (e.world.now s) token ≡ some subject)

-- What a request has done.
pub data Effect (e : Setup) (req : Request) (srv : Server) (s : e.world.State)
    (out : Served e.world.State) : Type 0 where
  -- no table, no part of the server has changed, and no message is sent
  unchanged :
      e.world.tables out.world ≡ e.world.tables s
      → out.server ≡ srv
      → out.messages ≡ []
      → Effect e req srv s out
  -- POST /ingest with a token that speaks for the source: only readings of it are added
  ingested :
      (source : Text)
      → req.method ≡ text "POST"
      → req.path ≡ text "/ingest"
      → source_for_token srv.tokens req.api_key ≡ some source
      → Adds source (e.world.tables s) (e.world.tables out.world)
      → SameServer srv out.server
      → Effect e req srv s out
  -- PUT /api/config of an administrator: readings and alert log are as they were
  configured :
      req.method ≡ text "PUT"
      → req.path ≡ text "/api/config"
      → IsAdmin e req s
      → SameReadings (e.world.tables s) (e.world.tables out.world)
      → SameServer srv out.server
      → out.messages ≡ []
      → Effect e req srv s out

all_mem : {A : Type 0} (P : A → Type 0) (x : A) (l : List A) → All P l → Memᴰ x l → P x
all_mem P x [] h i = elim i [ ]
all_mem P x (y ∷ l) (h, hs) (Memᴰ.head e) = subst P (sym e) h
all_mem P x (y ∷ l) (h, hs) (Memᴰ.tail i) = all_mem P x l hs i

-- the two routes that can change something
abbrev At : Endpoint → Text → Text → Type 0
At ingest_batch method path = (method ≡ text "POST") × (path ≡ text "/ingest")
At write_config method path = (method ≡ text "PUT") × (path ≡ text "/api/config")
At _ method path = Unit

routes-At : (r : Route Endpoint) → Memᴰ r routes → At r.handler r.method r.path
unfolding routes
routes-At r i =
    all_mem (λ (x : Route Endpoint). At x.handler x.method x.path) r routes
      (tt, (tt, ((refl, refl), (tt, (tt, (tt, (tt, (tt, ((refl, refl), tt))))))))) i

Found-cases :
    (f : Found Endpoint) → ((x : Endpoint) × (f ≡ matched x)) ⊎ (f ≡ not_found) ⊎ (f ≡ not_allowed)
Found-cases (matched x) = inl (x, refl)
Found-cases not_found = inr (inl refl)
Found-cases not_allowed = inr (inr refl)

module _ (e : Setup) (req : Request) (srv : Server) (s : e.world.State)
    (h : IsMap srv.metrics.per_source) where
  dispatch-Effect :
      (x : Endpoint) → At x req.method req.path → Effect e req srv s (dispatch e x req srv s)
  unfolding dispatch
  dispatch-Effect health at = unchanged (handle_health-tables e.world e.reads s) refl refl
  dispatch-Effect metrics at =
      unchanged (handle_metrics-tables e.world e.reads e.clock srv s) refl refl
  dispatch-Effect ingest_batch (method, path) =
      let body = e.decode_readings req.body in
      elim (ingest-Adds e.world e.formats srv req.api_key body s) [
        | inl (unknown, u) ↦
            let (same, silent, _) =
              ingest_unknown e.world e.formats srv req.api_key body s unknown in
            unchanged u same silent
        | inr (source, known, adds) ↦
            ingested source method path known adds
              (ingest-SameServer e.world e.formats srv h req.api_key body s)
      ]
  dispatch-Effect login at = unchanged refl refl refl
  dispatch-Effect channel_list at = unchanged (handle_channels-tables e.world e.reads s) refl refl
  dispatch-Effect series at =
      unchanged (handle_series-tables e.world e.reads e.parse_rfc3339 req.query s) refl refl
  dispatch-Effect export_csv at =
      unchanged (handle_export_csv-tables e.world e.reads e.parse_rfc3339 e.csv req.query s) refl
        refl
  dispatch-Effect read_config at =
      let (u, same, silent) = get_config-keeps e.world srv s in unchanged u same silent
  dispatch-Effect write_config (method, path) =
      let body = e.decode_config req.body in
      let silent = update_config-silent e.jwt_library e.jwt e.world srv req.authorization body s in
      elim (update_config-guarded e.jwt_library e.jwt e.world srv req.authorization body s) [
        | inl (status, same, kept, _) ↦ unchanged (ap e.world.tables same) kept silent
        | inr (token, subject, bears, valid, done) ↦
            let (same, tokens, started, counters, _) = put_config-SameReadings e.world srv body s in
            configured method path (token, subject, bears, valid)
              (subst
                (λ (x : Handled e.world.State).
                  SameReadings (e.world.tables s) (e.world.tables x.world))
                (sym done) same)
              (subst (λ (x : Handled e.world.State). SameServer srv x.server) (sym done)
                (tokens, started, subst (λ (t : Tracker). IsMap t.per_source) (sym counters) h))
              silent
      ]

  -- Where the counters have each source once, as in any Go map: a request changes no table and
  -- no part of the server and sends nothing; or it is POST /ingest with a token that speaks for
  -- a source, and adds only readings of that source, each with a metric and a finite value; or
  -- it is PUT /api/config with a token of an administrator that is in force, and leaves the
  -- readings and the alert log as they are. The ingest tokens stay, and the counters still have
  -- each source once.
  pub serve-Effect : Effect e req srv s (serve e req srv s)
  unfolding serve routed
  serve-Effect = elim (Bool-cases (text_eq req.method (text "OPTIONS"))) [
    | inl options ↦ rw (options, serve) (unchanged refl refl refl)
    | inr other ↦ elim (Found-cases (e.mux.find routes req.method req.path)) [
      | inl (x, found) ↦
          rw (other, found, serve)
            (dispatch-Effect x (routes-At _ (e.mux.matched_law routes req.method req.path x found)))
      | inr (inl missing) ↦ rw (other, missing, serve) (unchanged refl refl refl)
      | inr (inr refused) ↦ rw (other, refused, serve) (unchanged refl refl refl)
    ]
  ]
