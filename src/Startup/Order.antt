-- ===== src/Startup/Order.antt =====
-- The order in which the server comes up.
use cryo_lab_telemetry.Prelude.{
  ◌≡◌, ◌≢◌, refl, sym, ap, ◌∙◌, inl, inr, Text, Option, some, List, ◌∷◌,
}
use cryo_lab_telemetry.Prelude.Int.{ℤ, to_int32}
use cryo_lab_telemetry.Values.{Time}
use cryo_lab_telemetry.Store.Migrate.{DirEntry, MigrationDb, migration_names, migrate}
use cryo_lab_telemetry.Store.Migrate.Runs.{Quiet, pending, recorded_all, migrate-Recorded}
use cryo_lab_telemetry.Store.Migrate.Frame.{LeavesPart, migrate-Kept}
use cryo_lab_telemetry.Config.{Config, Loaded, loaded, load_error, load}
use cryo_lab_telemetry.Startup.{
  PoolLibrary, Connected, connected, connect_with_retry, Listening, Started, listening, assemble,
  migrated, with_store, with_config, start,
}
use cryo_lab_telemetry.Startup.Connect.{up, stopped, exhausted, connect_with_retry-Ended}

module _ {S : Type 0} (l : PoolLibrary S) (db : l.Pool → MigrationDb S) (sscanf_d : Text → Option ℤ)
    (read_file : Text → Option Text) (dir : Option (List DirEntry)) (now : S → Time) where
  open l use {Pool, open_pools}

  abbrev NotListening : Started Pool → Type 0
  NotListening r = (x : Listening Pool) → r ≢ listening x

  -- How `run` comes to listen, or does not. `names` are the embedded migrations.
  pub data Outcome (names : List Text) (env : Text → Text) (s : S) (r : Started Pool × S)
      : Type 0 where
    -- The settings are valid, the store is the one that was connected to, every migration is
    -- recorded, and what listens is made of the settings; the store's pool is the only one opened.
    serves :
        (cfg : Config) (p : Pool) (s1 : S)
        → load sscanf_d env ≡ loaded cfg
        → connect_with_retry l cfg.database_url (to_int32 cfg.db_max_conns) s ≡ (connected p, s1)
        → r.0 ≡ listening (assemble cfg p (now r.1))
        → (db p).recorded r.1
          ≡ recorded_all (pending ((db p).recorded s1) names) ((db p).recorded s1)
        → open_pools r.1 ≡ p ∷ open_pools s
        → Outcome names env s r
    -- Nothing listens, and no pool is left open.
    ends : NotListening r.0 → open_pools r.1 ≡ open_pools s → Outcome names env s r

  module _ (names : List Text)
      (quiet : (name sql : Text) → read_file name ≡ some sql → (p : Pool) → Quiet (db p) sql)
      (found : migration_names dir ≡ some names)
      (keeps : (p : Pool) → LeavesPart (db p) open_pools) where
    migrated-Outcome :
        (env : Text → Text) (cfg : Config) (p : Pool) (s s1 : S)
        → load sscanf_d env ≡ loaded cfg
        → connect_with_retry l cfg.database_url (to_int32 cfg.db_max_conns) s ≡ (connected p, s1)
        → open_pools s1 ≡ p ∷ open_pools s
        → Outcome names env s (migrated l db sscanf_d read_file dir now cfg p s1)
    unfolding migrated
    migrated-Outcome env cfg p s s1 valid got u =
        let kept = migrate-Kept (db p) open_pools (keeps p) read_file dir s1 ∙ u in
        elim (migrate-Recorded (db p) read_file dir names s1 (λ name sql e. quiet name sql e p)
          found) [
            | inl (done, all) ↦ rw (done, migrated) (serves cfg p s1 valid got refl all kept)
            | inr (lost, _) ↦
                rw (lost, migrated)
                  (ends (λ x e. cc)
                    (l.close_law p (open_pools s) (migrate (db p) read_file dir s1).1 kept))
          ]

    with_config-Outcome :
        (env : Text → Text) (s : S) (o : Loaded)
        → load sscanf_d env ≡ o
        → Outcome names env s (with_config l db sscanf_d read_file dir now o s)
    unfolding with_config with_store
    with_config-Outcome env s (load_error msg) e = ends (λ x h. cc) refl
    with_config-Outcome env s (loaded cfg) valid =
        let n = to_int32 cfg.db_max_conns in
        elim (connect_with_retry-Ended l cfg.database_url n s) [
          | up k p lt h got e u ↦ rw e (
              migrated-Outcome env cfg p s _ valid e
                (ap (λ (r : Connected Pool × S). open_pools r.1) (sym e) ∙ u))
          | stopped k lt h down done e u ↦
              rw e (ends (λ x h. cc) (ap (λ (r : Connected Pool × S). open_pools r.1) (sym e) ∙ u))
          | exhausted h e u ↦
              rw e (ends (λ x h. cc) (ap (λ (r : Connected Pool × S). open_pools r.1) (sym e) ∙ u))
        ]

    -- Where the embedded migrations can be listed, their statements leave the log of the migrations
    -- alone, and no statement opens or closes a pool: the server listens only with valid settings,
    -- connected to its database, with all migrations recorded, and is made of those settings;
    -- otherwise it ends with no pool left open.
    pub start-Outcome :
        (env : Text → Text) (s : S)
        → Outcome names env s (start l db sscanf_d read_file dir now env s)
    unfolding start
    start-Outcome env s = with_config-Outcome env s (load sscanf_d env) refl
