-- ===== src/Api/Router/Histories.antt =====
-- Histories of the server: requests, reloads of the alerter and waiting, in any order.
use mathlib.Core.List.{append_assoc}
use mathlib.Core.Path.{subst}
use cryo_lab_telemetry.Prelude.{
  ◌≡◌, ◌≢◌, true, refl, sym, ap, ◌∙◌, ◌⊎◌, inl, inr, Text, Map, IsMap, some, List, [], ◌∷◌, ◌++◌,
  All, All-append,
}
use cryo_lab_telemetry.Values.{is_finite}
use cryo_lab_telemetry.Store.Data.{Row, Tables}
use cryo_lab_telemetry.Store.Insert.Rows.{IsUnique, insert_rows-IsUnique}
use cryo_lab_telemetry.Alert.Firing.{reload}
use cryo_lab_telemetry.Alert.Firing.Frame.{reload-tables}
use cryo_lab_telemetry.Auth.{source_for_token}
use cryo_lab_telemetry.Api.Http.{Server}
use cryo_lab_telemetry.Api.Ingest.Confined.{Adds, IsRowFrom}
use cryo_lab_telemetry.Api.Ingest.Kept.{SameServer}
use cryo_lab_telemetry.Api.Router.{Request, Setup, serve}
use cryo_lab_telemetry.Api.Router.Effect.{IsAdmin, unchanged, ingested, configured, serve-Effect}

-- One tick of the goroutine that `Start` runs.
abbrev pub reloaded : (e : Setup) → Server → e.world.State → Server
reloaded e srv s = record srv { alerter = (reload e.world srv.alerter s).0 }

-- From a server and a world to others.
pub data History (e : Setup) (srv0 : Server) (s0 : e.world.State)
    : Server → e.world.State → Type 0 where
  begin : History e srv0 s0 srv0 s0
  request :
      {srv : Server} {s : e.world.State}
      → History e srv0 s0 srv s
      → (req : Request) → History e srv0 s0 (serve e req srv s).server (serve e req srv s).world
  tick :
      {srv : Server} {s : e.world.State}
      → History e srv0 s0 srv s
      → History e srv0 s0 (reloaded e srv s) (reload e.world srv.alerter s).1
  -- time passes
  wait :
      {srv : Server} {s : e.world.State}
      → History e srv0 s0 srv s
      → (s' : e.world.State) → e.world.tables s' ≡ e.world.tables s
      → History e srv0 s0 srv s'

-- Some request of the history bore the header of an administrator.
abbrev pub HasAdmin :
    (e : Setup) (srv0 : Server) (s0 : e.world.State) (srv : Server) (s : e.world.State)
    → History e srv0 s0 srv s
    → Type 0
HasAdmin e srv0 s0 srv s begin = ⊥
HasAdmin e srv0 s0 srv s (request {srv = srv1} {s = s1} h req) =
    IsAdmin e req s1 ⊎ HasAdmin e srv0 s0 srv1 s1 h
HasAdmin e srv0 s0 srv s (tick {srv = srv1} {s = s1} h) = HasAdmin e srv0 s0 srv1 s1 h
HasAdmin e srv0 s0 srv s (wait {srv = srv1} {s = s1} h s' same) = HasAdmin e srv0 s0 srv1 s1 h

-- The row is of a source that a token speaks for, and has a metric and a finite value.
abbrev pub IsIngested : Map Text → Row → Type 0
IsIngested tokens x =
    (token : Text) × (source_for_token tokens token ≡ some x.source)
    × (x.metric ≢ [])
    × (is_finite x.value ≡ true)

-- What has become of the tables `t` and the server `srv0`.
pub record Grown (srv0 : Server) (t : Tables) (srv : Server) (u : Tables) : Type 0 where
  pub new : List Row
  pub added : u.readings ≡ new ++ t.readings
  pub from : All (IsIngested srv0.tokens) new
  pub unique : IsUnique u.readings
  pub server : SameServer srv0 srv

module _ (srv0 : Server) (t : Tables) (srv : Server) (u : Tables) (g : Grown srv0 t srv u) where
  Grown-same :
      (srv' : Server) (v : Tables)
      → SameServer srv srv'
      → v.readings ≡ u.readings
      → Grown srv0 t srv' v
  Grown-same srv' v (tokens, started, counters) same = record {
    new = g.new;
    added = same ∙ g.added;
    from = g.from;
    unique = subst (λ rows. IsUnique rows) (sym same) g.unique;
    server = (tokens ∙ g.server.0, started ∙ g.server.1, counters);
  }

  Grown-Adds :
      (source token : Text) (srv' : Server) (v : Tables)
      → source_for_token srv.tokens token ≡ some source
      → Adds source u v
      → SameServer srv srv'
      → Grown srv0 t srv' v
  Grown-Adds source token srv' v known adds (tokens, started, counters) = record {
    new = adds.new ++ g.new;
    added =
        adds.added ∙ ap (λ l. adds.new ++ l) g.added ∙ sym (append_assoc adds.new g.new t.readings);
    from = All-append (IsIngested srv0.tokens) adds.new g.new (each adds.new adds.from) g.from;
    unique =
        subst (λ rows. IsUnique rows) (sym adds.inserted)
          (insert_rows-IsUnique adds.given u.readings g.unique);
    server = (tokens ∙ g.server.0, started ∙ g.server.1, counters);
  }
    where
      each : (l : List Row) → All (IsRowFrom source) l → All (IsIngested srv0.tokens) l
      each [] h = tt
      each (x ∷ l) ((e, named, finite), h) = (
        (
          token,
          subst (λ m. source_for_token m token ≡ some x.source) g.server.0
              (known ∙ ap some (sym e)),
          named,
          finite,
        ),
        each l h,
      )

module _ (e : Setup) (srv0 : Server) (s0 : e.world.State) (one_each : IsMap srv0.metrics.per_source)
    (keys : IsUnique (e.world.tables s0).readings) where
  abbrev GrownTo : Server → e.world.State → Type 0
  GrownTo srv s = Grown srv0 (e.world.tables s0) srv (e.world.tables s)

  request-Grown :
      (srv : Server) (s : e.world.State) (req : Request)
      → GrownTo srv s
      → GrownTo (serve e req srv s).server (serve e req srv s).world
  request-Grown srv s req g =
      let out = serve e req srv s in
      elim (serve-Effect e req srv s g.server.2) [
        | unchanged same kept _ ↦
            Grown-same srv0 (e.world.tables s0) srv _ g out.server _
              (
                ap (λ (x : Server). x.tokens) kept,
                ap (λ (x : Server). x.started_at) kept,
                subst (λ (x : Server). IsMap x.metrics.per_source) (sym kept) g.server.2,
              )
              (ap (λ (x : Tables). x.readings) same)
        | ingested source _ _ known adds server ↦
            Grown-Adds srv0 (e.world.tables s0) srv _ g source req.api_key out.server _ known adds
              server
        | configured _ _ _ same server _ ↦
            Grown-same srv0 (e.world.tables s0) srv _ g out.server _ server same.readings
      ]

  -- From a server whose counters have each source once, and tables in which no two readings have
  -- the same source, metric and time, whatever requests, reloads and waits come, in whatever
  -- order: every stored reading is still there, as it was; each new one is of a source that a
  -- token of the server speaks for, and has a metric and a finite value; still no two readings
  -- have the same source, metric and time; and the server has the tokens that it had.
  pub History-Grown :
      (srv : Server) (s : e.world.State)
      → History e srv0 s0 srv s
      → Grown srv0 (e.world.tables s0) srv (e.world.tables s)
  History-Grown srv s begin = record {
    new = [];
    added = refl;
    from = tt;
    unique = keys;
    server = (refl, refl, one_each);
  }
  History-Grown srv s (request {srv = srv1} {s = s1} h req) =
      request-Grown srv1 s1 req (History-Grown srv1 s1 h)
  History-Grown srv s (tick {srv = srv1} {s = s1} h) =
      let g = History-Grown srv1 s1 h in
      Grown-same srv0 (e.world.tables s0) srv1 _ g (reloaded e srv1 s1) _ (refl, refl, g.server.2)
        (ap (λ (x : Tables). x.readings) (reload-tables e.world srv1.alerter s1))
  History-Grown srv s (wait {srv = srv1} {s = s1} h s' same) =
      let g = History-Grown srv1 s1 h in
      Grown-same srv0 (e.world.tables s0) srv1 _ g srv1 _ (refl, refl, g.server.2)
        (ap (λ (x : Tables). x.readings) same)

  -- From a server whose counters have each source once, and tables without a double key, the
  -- configuration and the thresholds are after any history as before it, unless a request of the
  -- history bore a token of an administrator that was in force then.
  pub History-config :
      (srv : Server) (s : e.world.State) (h : History e srv0 s0 srv s)
      → ((((e.world.tables s).config ≡ (e.world.tables s0).config)
          × ((e.world.tables s).thresholds ≡ (e.world.tables s0).thresholds)))
        ⊎ HasAdmin e srv0 s0 srv s h
  History-config srv s begin = inl (refl, refl)
  History-config srv s (request {srv = srv1} {s = s1} h req) = elim (History-config srv1 s1 h) [
    | inr admin ↦ inr (inr admin)
    | inl (config, thresholds) ↦
        elim (serve-Effect e req srv1 s1 (History-Grown srv1 s1 h).server.2) [
          | unchanged same _ _ ↦ inl (
            ap (λ (x : Tables). x.config) same ∙ config,
            ap (λ (x : Tables). x.thresholds) same ∙ thresholds,
          )
          | ingested source _ _ _ adds _ ↦ inl (adds.config ∙ config, adds.thresholds ∙ thresholds)
          | configured _ _ admin _ _ _ ↦ inr (inl admin)
        ]
  ]
  History-config srv s (tick {srv = srv1} {s = s1} h) =
      let same = reload-tables e.world srv1.alerter s1 in
      elim (History-config srv1 s1 h) [
        | inr admin ↦ inr admin
        | inl (config, thresholds) ↦ inl (
          ap (λ (x : Tables). x.config) same ∙ config,
          ap (λ (x : Tables). x.thresholds) same ∙ thresholds,
        )
      ]
  History-config srv s (wait {srv = srv1} {s = s1} h s' same) = elim (History-config srv1 s1 h) [
    | inr admin ↦ inr admin
    | inl (config, thresholds) ↦ inl (
      ap (λ (x : Tables). x.config) same ∙ config,
      ap (λ (x : Tables). x.thresholds) same ∙ thresholds,
    )
  ]
