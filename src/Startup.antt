-- ===== src/Startup.antt =====
-- server/cmd/server/main.go: how the server comes up. `run` is modelled up to the point where it
-- listens.
pub mod Connect
pub mod Order
pub mod Exit
use cryo_lab_telemetry.Prelude.{
  ℕ, zero, suc, ◌+◌, ◌≡◌, Text, text, is_empty, Option, none, some, List, [], ◌∷◌, ◌++◌, Bool, true,
  false, not, ◌&&◌, ltb, length, if◌then◌else◌,
}
use cryo_lab_telemetry.Prelude.Int.{ℤ, pos, ltb_ℤ, to_int32}
use cryo_lab_telemetry.Values.{Time}
use cryo_lab_telemetry.Store.Migrate.{DirEntry, MigrationDb, migrate}
use cryo_lab_telemetry.Auth.Admin.{JwtManager}
use cryo_lab_telemetry.Config.{SmtpConfig, enabled, Config, Loaded, loaded, load_error, load}
use cryo_lab_telemetry.Alert.{Alerter}
use cryo_lab_telemetry.Alert.Notifiers.{Notifier, email, slack, new_email_notifier}
use cryo_lab_telemetry.Metrics
use cryo_lab_telemetry.Alert
use cryo_lab_telemetry.Api.Http.{Server, new_server}

-- pgxpool and the select of `connectWithRetry`, over the states of what is outside.
pub record PoolLibrary (S : Type 0) : Type 1 where
  pub PoolConfig : Type 0
  pub Pool : Type 0
  -- the pools that are open, the latest first
  pub open_pools : S → List Pool
  -- pgxpool.ParseConfig
  pub parse_config : Text → Option PoolConfig
  -- cfg.MaxConns = n
  pub set_max_conns : ℤ → PoolConfig → PoolConfig
  -- pgxpool.NewWithConfig
  pub new_with_config : PoolConfig → S → Option Pool × S
  pub ping : Pool → S → Option (Unit {0}) × S
  pub close : Pool → S → S
  -- select: `true` where the context is done before the two seconds are over
  pub wait : S → Bool × S
  pub new_law :
      (c : PoolConfig) (s : S) (p : Pool)
      → (new_with_config c s).0 ≡ some p
      → open_pools (new_with_config c s).1 ≡ p ∷ open_pools s
  pub new_failed_law :
      (c : PoolConfig) (s : S)
      → (new_with_config c s).0 ≡ none
      → open_pools (new_with_config c s).1 ≡ open_pools s
  pub ping_keeps : (p : Pool) (s : S) → open_pools (ping p s).1 ≡ open_pools s
  -- closing the latest pool
  pub close_law :
      (p : Pool) (ps : List Pool) (s : S) → open_pools s ≡ p ∷ ps → open_pools (close p s) ≡ ps
  pub wait_keeps : (s : S) → open_pools (wait s).1 ≡ open_pools s

-- What `connectWithRetry` returns: a store, ctx.Err(), or the last error.
pub data Connected (P : Type 0) : Type 0 where
  connected : P → Connected P
  cancelled : Connected P
  gave_up : Connected P

abbrev pub attempts : ℕ
attempts = 30

module _ {S : Type 0} (l : PoolLibrary S) where
  open l use {Pool, PoolConfig}

  pub with_max_conns : ℤ → PoolConfig → PoolConfig
  with_max_conns n c = if ltb_ℤ (pos 0) n then l.set_max_conns n c else c

  unfoldable pub pinged : Option Pool × S → Option Pool × S
  pinged (none, s) = (none, s)
  pinged (some p, s) =
      let (up, s') = l.ping p s in elim up [ none ↦ (none, l.close p s') | some _ ↦ (some p, s') ]

  -- store.New
  unfoldable pub new_store : Text → ℤ → S → Option Pool × S
  new_store url max_conns s = elim (l.parse_config url) [
    | none ↦ (none, s)
    | some c ↦ pinged (l.new_with_config (with_max_conns max_conns c) s)
  ]

  -- the loop of `connectWithRetry`, with the attempts that are left
  connect_loop : ℕ → Text → ℤ → S → Connected Pool × S
  connect_loop zero url max_conns s = (gave_up, s)
  connect_loop (suc left) url max_conns s =
      let (st, s1) = new_store url max_conns s in
      let (done, s2) = l.wait s1 in
      let again = connect_loop left url max_conns s2 in
      elim st [ some p ↦ (connected p, s1) | none ↦ if done then (cancelled, s2) else again ]

  -- connectWithRetry
  pub connect_with_retry : Text → ℤ → S → Connected Pool × S
  connect_with_retry url max_conns s = connect_loop attempts url max_conns s

email_notifiers : Config → List Notifier
email_notifiers cfg =
    if enabled cfg.smtp && not (is_empty cfg.alert_email_to)
    then email (
        new_email_notifier cfg.smtp.host cfg.smtp.port cfg.smtp.username cfg.smtp.password
          cfg.smtp.from cfg.alert_email_to)
      ∷ []
    else []

slack_notifiers : Config → List Notifier
slack_notifiers cfg =
    if is_empty cfg.slack_webhook_url then [] else slack cfg.slack_webhook_url ∷ []

-- buildNotifiers
pub build_notifiers : Config → List Notifier
build_notifiers cfg = email_notifiers cfg ++ slack_notifiers cfg

-- The server that is about to listen.
pub record Listening (P : Type 0) : Type 0 where
  pub address : Text
  pub store : P
  pub jwt : JwtManager
  pub notifiers : List Notifier
  pub server : Server

-- Where `run` returns an error, or what listens.
pub data Started (P : Type 0) : Type 0 where
  no_config : Text → Started P
  no_store : Started P
  not_migrated : Started P
  listening : Listening P → Started P

-- the dependencies, at the clock's `now`
pub assemble : {P : Type 0} → Config → P → Time → Listening P
assemble cfg store now =
    let notifiers = build_notifiers cfg in
    record {
      address = cfg.http_addr;
      store = store;
      jwt = record {
        secret = cfg.jwt_secret;
        ttl = cfg.jwt_ttl;
        username = cfg.admin_username;
        password = cfg.admin_password;
      };
      notifiers = notifiers;
      server =
          new_server cfg.ingest_tokens (Alert.new (length notifiers) cfg.alert_max_emails_day)
            (Metrics.new now) now;
    }

-- The environment, the embedded files and the clock.
module _ {S : Type 0} (l : PoolLibrary S) (db : l.Pool → MigrationDb S) (sscanf_d : Text → Option ℤ)
    (read_file : Text → Option Text) (dir : Option (List DirEntry)) (now : S → Time) where
  open l use {Pool}

  -- what follows a connection; the deferred Close runs where `run` returns
  migrated : Config → Pool → S → Started Pool × S
  migrated cfg p s =
      let (done, s') = migrate (db p) read_file dir s in
      elim done [
        | none ↦ (not_migrated, l.close p s')
        | some _ ↦ (listening (assemble cfg p (now s')), s')
      ]

  with_store : Config → Connected Pool × S → Started Pool × S
  with_store cfg (connected p, s) = migrated cfg p s
  with_store cfg (_, s) = (no_store, s)

  with_config : Loaded → S → Started Pool × S
  with_config (load_error msg) s = (no_config msg, s)
  with_config (loaded cfg) s =
      with_store cfg (connect_with_retry l cfg.database_url (to_int32 cfg.db_max_conns) s)

  -- run
  pub start : (Text → Text) → S → Started Pool × S
  start env s = with_config (load sscanf_d env) s
