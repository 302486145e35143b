-- ===== src/Startup/Exit.antt =====
-- server/cmd/server/main.go: how the server ends. `run` from where it listens, and `main`.
pub mod Codes
use cryo_lab_telemetry.Prelude.{ℕ, Text, Option, none, some, List}
use cryo_lab_telemetry.Prelude.Int.{ℤ}
use cryo_lab_telemetry.Values.{Time}
use cryo_lab_telemetry.Prelude.{◌≡◌}
use cryo_lab_telemetry.Store.Migrate.{DirEntry, MigrationDb}
use cryo_lab_telemetry.Startup.{
  PoolLibrary, Listening, Started, no_config, no_store, not_migrated, listening, start,
}

-- What the select of `run` receives: an error of ListenAndServe, or the end of the context.
pub data Waited : Type 0 where
  -- http.ErrServerClosed
  server_closed : Waited
  -- any other error
  serve_failed : Text → Waited
  -- SIGINT or SIGTERM
  signalled : Waited

-- The server of net/http, over the states of what is outside, where `Pool` are the pools.
pub record HttpServer (S : Type 0) (Pool : Type 0) (open_pools : S → List Pool) : Type 0 where
  -- ListenAndServe in its goroutine, with the requests that come, up to the select's choice
  pub listen_and_serve : Text → S → Waited × S
  -- Shutdown, with ten seconds; `none` is an error
  pub shutdown : S → Option (Unit {0}) × S
  -- requests neither open nor close a pool
  pub serve_keeps :
      (address : Text) (s : S) → open_pools (listen_and_serve address s).1 ≡ open_pools s
  pub shutdown_keeps : (s : S) → open_pools (shutdown s).1 ≡ open_pools s

-- What `run` returns: nil, or an error by where it comes from.
pub data RunResult : Type 0 where
  succeeded : RunResult
  config_error : Text → RunResult
  store_error : RunResult
  migrate_error : RunResult
  serve_error : Text → RunResult
  shutdown_error : RunResult

-- The exit code of `main`.
unfoldable pub exit_code : RunResult → ℕ
exit_code succeeded = 0
exit_code _ = 1

-- the result of Shutdown
abbrev pub shut_down : Option (Unit {0}) → RunResult
shut_down none = shutdown_error
shut_down (some _) = succeeded

module _ {S : Type 0} (l : PoolLibrary S) (h : HttpServer S l.Pool l.open_pools) where
  open l use {Pool}

  -- the cases of the select
  unfoldable pub selected : Waited × S → RunResult × S
  selected (server_closed, s) = (succeeded, s)
  selected (serve_failed msg, s) = (serve_error msg, s)
  selected (signalled, s) = let (done, s') = h.shutdown s in (shut_down done, s')

  -- the deferred Close
  unfoldable pub closed : Pool → RunResult × S → RunResult × S
  closed p (r, s) = (r, l.close p s)

  -- `run` behind the migrations
  unfoldable pub serve_until_done : Started Pool × S → RunResult × S
  serve_until_done (no_config msg, s) = (config_error msg, s)
  serve_until_done (no_store, s) = (store_error, s)
  serve_until_done (not_migrated, s) = (migrate_error, s)
  serve_until_done (listening x, s) = closed x.store (selected (h.listen_and_serve x.address s))

  module _ (db : Pool → MigrationDb S) (sscanf_d : Text → Option ℤ) (read_file : Text → Option Text)
      (dir : Option (List DirEntry)) (now : S → Time) where
    -- run
    unfoldable pub run : (Text → Text) → S → RunResult × S
    run env s = serve_until_done (start l db sscanf_d read_file dir now env s)

    -- main, with the code that the process exits with
    unfoldable pub main : (Text → Text) → S → ℕ × S
    main env s = let (r, s') = run env s in (exit_code r, s')
