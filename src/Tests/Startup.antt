-- ===== src/Tests/Startup.antt =====
-- A start of the server, and a mail, at concrete inputs.
use cryo_lab_telemetry.Store.Cursor.{complete, complete_same}
use cryo_lab_telemetry.Prelude.{
  ℕ, ap, ◌-◌, ◌≡◌, refl, ◌⊎◌, inl, inr, Option-cases, Text, text, Option, none, some, List, [], ◌∷◌,
  false, leb, if◌then◌else◌, arith,
}
use cryo_lab_telemetry.Prelude.Int.{ℤ, pos}
use cryo_lab_telemetry.Alert.Notifiers.{EmailNotifier, email_message}
use cryo_lab_telemetry.Alert.Notifiers.Mail.{header_lines, read_message, read_message-email_message}
use cryo_lab_telemetry.Store.Migrate.{is_applied, Run, MigrationDb, split_statements}
use cryo_lab_telemetry.Store.Migrate.Frame.{LeavesPart}
use cryo_lab_telemetry.Startup.Order.{Outcome, start-Outcome}
use cryo_lab_telemetry.Tests.Store.{files, names, migration_names-files, every_quiet}
use cryo_lab_telemetry.Startup.{
  start, PoolLibrary, connected, new_store, pinged, connect_with_retry,
}
use cryo_lab_telemetry.Startup.Exit.{HttpServer, signalled, main}
use cryo_lab_telemetry.Startup.Exit.Codes.{Said, main-Said}
use cryo_lab_telemetry.Startup.Connect.{after, Failing, connect_with_retry-connected}

-- A database that is down for some attempts: the pools that are open, and how many attempts fail
-- yet.
pub record Outside : Type 0 where
  pub pools : List ℕ
  pub down : ℕ
  -- the migrations that are recorded
  pub log : List Text

abbrev pop : ℕ → List ℕ → List ℕ
pop p [] = []
pop p (x ∷ xs) = xs

abbrev ping_outside : ℕ → Outside → Option (Unit {0}) × Outside
ping_outside p s = if leb 1 s.down then (none, s) else (some tt, s)

pub ping_outside-pools : (p : ℕ) (s : Outside) → (ping_outside p s).1.pools ≡ s.pools
ping_outside-pools p s = ground arith

pub pop-pools : (p : ℕ) (ps : List ℕ) (s : Outside) → s.pools ≡ p ∷ ps → pop p s.pools ≡ ps
pop-pools p ps s h = rw h refl

pub pool_of : (p : ℕ) (s : Outside) → some 0 ≡ some p → ◌≡◌ {A = List ℕ} (0 ∷ s.pools) (p ∷ s.pools)
pool_of p s h = cc

pub never_lost :
    (s : Outside) → ◌≡◌ {A = Option ℕ} (some 0) none → ◌≡◌ {A = List ℕ} (0 ∷ s.pools) s.pools
never_lost s h = cc

abbrev library : PoolLibrary Outside
library = record {
  PoolConfig = ℤ;
  Pool = ℕ;
  open_pools = λ s. s.pools;
  parse_config = λ url. some (pos 4);
  set_max_conns = λ n c. n;
  new_with_config = λ c s. (some 0, record s { pools = 0 ∷ s.pools });
  ping = ping_outside;
  close = λ p s. record s { pools = pop p s.pools };
  wait = λ s. (false, record s { down = s.down - 1 });
  new_law = λ c s p h. pool_of p s h;
  new_failed_law = λ c s h. never_lost s h;
  ping_keeps = ping_outside-pools;
  close_law = λ p ps s h. pop-pools p ps s h;
  wait_keeps = λ s. refl;
}

abbrev two_down : Outside
two_down = record { pools = []; down = 2; log = [] }

two-Failing : Failing library (text "postgres://") (pos 10) 2 two_down
unfolding new_store pinged
two-Failing = (refl, refl, (refl, refl, tt))

third-up :
    (new_store library
      (text "postgres://")
      (pos 10)
      (after library (text "postgres://") (pos 10) 2 two_down)).0
    ≡ some 0
unfolding new_store pinged
third-up = refl

connect_with_retry-connected_example :
    connect_with_retry library (text "postgres://") (pos 10) two_down ≡ (
      connected 0,
      (new_store library
          (text "postgres://")
          (pos 10)
          (after library (text "postgres://") (pos 10) 2 two_down)).1,
    )
connect_with_retry-connected_example =
    connect_with_retry-connected library (text "postgres://") (pos 10) 2 two_down 0 (omega arith)
      two-Failing third-up

-- A transaction that is rolled back where its body fails.
pub transaction : Run Outside → Run Outside
transaction body s =
    let (done, after) = body s in elim done [ none ↦ (none, s) | some _ ↦ (some tt, after) ]

pub transaction_law :
    (body : Run Outside) (s : Outside)
    → (((transaction body s).0 ≡ none) × ((transaction body s).1.log ≡ s.log))
      ⊎ (((body s).0 ≡ some tt) × ((transaction body s).1.log ≡ (body s).1.log))
unfolding transaction
transaction_law body s = elim (Option-cases (body s).0) [
  | inl failed ↦ rw (failed, transaction) (inl (refl, refl))
  | inr (_, ran) ↦ rw (ran, transaction) (inr (refl, refl))
]

pub transaction-pools :
    (body : Run Outside)
    → ((s : Outside) → (body s).1.pools ≡ s.pools)
    → (s : Outside) → (transaction body s).1.pools ≡ s.pools
unfolding transaction
transaction-pools body h s = elim (Option-cases (body s).0) [
  | inl failed ↦ rw (failed, transaction) refl
  | inr (_, ran) ↦ rw (ran, transaction) (h s)
]

abbrev database : ℕ → MigrationDb Outside
database p = record {
  recorded = λ s. s.log;
  Leaves = λ q. Unit;
  create_log = λ s. (some tt, s);
  select_names = λ s. (some (complete s.log), s);
  exec = λ q s. (some tt, s);
  insert_name = λ n s. (some tt, record s { log = n ∷ s.log });
  begin_func = transaction;
  create_log_law = λ s. refl;
  select_names_keeps = λ s. refl;
  select_names_law =
      λ out s e. λ name. ap (λ (x : List Text). is_applied x name) (complete_same out s.log e);
  exec_law = λ q s h. refl;
  insert_name_law = λ n s. inl (refl, refl);
  begin_func_law = transaction_law;
}

keeps_pools : (p : ℕ) → LeavesPart (database p) (λ (s : Outside). s.pools)
keeps_pools p = record {
  create_log = λ s. refl;
  select_names = λ s. refl;
  exec = λ q s. refl;
  insert_name = λ n s. refl;
  begin_func = transaction-pools;
}

-- Every variable has the text of 16 letters.
abbrev environment : Text → Text
environment key = text "lab1:secretsecre"

start-Outcome_example :
    Outcome library database
      (λ t. none)
      (λ n. some (text "SELECT 1;"))
      files
      (λ s. pos 0)
      names
      environment
      two_down
      (start library database
        (λ t. none)
        (λ n. some (text "SELECT 1;"))
        files
        (λ s. pos 0)
        environment
        two_down)
start-Outcome_example =
    start-Outcome library database (λ t. none) (λ n. some (text "SELECT 1;")) files (λ s. pos 0)
      names (λ n sql e p. (tt, every_quiet (split_statements sql))) migration_names-files
      keeps_pools environment two_down

-- A server that gets a signal and shuts down.
abbrev web : HttpServer Outside ℕ (λ s. s.pools)
web = record {
  listen_and_serve = λ address s. (signalled, s);
  shutdown = λ s. (some tt, s);
  serve_keeps = λ address s. refl;
  shutdown_keeps = λ s. refl;
}

main-Said_example :
    let started =
      start library database
        (λ t. none)
        (λ n. some (text "SELECT 1;"))
        files
        (λ s. pos 0)
        environment
        two_down in
    let (code, s) =
      main library web database
        (λ t. none)
        (λ n. some (text "SELECT 1;"))
        files
        (λ s. pos 0)
        environment
        two_down in
    Said library web started code × (s.pools ≡ two_down.pools)
main-Said_example =
    main-Said library web database (λ t. none) (λ n. some (text "SELECT 1;")) files (λ s. pos 0)
      names (λ n sql e p. (tt, every_quiet (split_statements sql))) migration_names-files
      keeps_pools environment two_down

abbrev relay : EmailNotifier
relay = record {
  host = text "mail";
  port = text "587";
  auth = none;
  from = text "lab@example.org";
  to = text "a@example.org" ∷ text "b@example.org" ∷ [];
}

read_message-email_message_example :
    read_message (email_message relay (text "temp back to normal") (text "It is 20."))
    ≡ some (header_lines relay (text "temp back to normal"), text "It is 20.")
read_message-email_message_example =
    read_message-email_message relay (text "temp back to normal") (text "It is 20.") (omega arith)
      (omega arith, (omega arith, tt)) (omega arith)
