-- ===== src/Tests/Store.antt =====
-- The store's theorems at concrete inputs.
use cryo_lab_telemetry.Store.Cursor.{complete, complete_same}
use cryo_lab_telemetry.Prelude.{
  ap, arith, ℕ, ◌≡◌, ◌⊎◌, Option-cases, inl, inr, refl, Text, text, text_eq, Option, none, some,
  List, [], ◌∷◌, true, false, take, All,
}
use cryo_lab_telemetry.Store.World.{bound_rows}
use cryo_lab_telemetry.Store.Insert.{arguments, placeholders, insert_readings}
use cryo_lab_telemetry.Store.Insert.Binding.{bound_rows_lem}
use cryo_lab_telemetry.Store.Insert.Chunks.{merged, Outcome, insert_readings-Outcome}
use cryo_lab_telemetry.Store.Insert.Retry.{deliver, deliver-Delivered}
use cryo_lab_telemetry.Prelude.{◌+◌, ◌*◌, ◌≤◌, length}
use cryo_lab_telemetry.Prelude.Weights.{weigh}
use cryo_lab_telemetry.Store.Insert.Rows.{IsUnique}
use cryo_lab_telemetry.Store.Data.{Reading}
use cryo_lab_telemetry.Store.Insert.Interleaved as Interleaved
use cryo_lab_telemetry.Store.Insert.Interleaved.{Shared, after_chunk, chunk_answer, round}
use cryo_lab_telemetry.Store.Insert.Interleaved.Rounds.{counted, failures, Held}
use cryo_lab_telemetry.Store.Insert.Interleaved.Counted.{Run-counted}
use cryo_lab_telemetry.Store.Series.Steps.{IsStep}
use cryo_lab_telemetry.Store.Migrate.{
  is_applied, Run, MigrationDb, DirEntry, migration_names, split_statements, migrate,
}
use cryo_lab_telemetry.Store.Migrate.Runs.{pending, recorded_all, migrate-Recorded}
use cryo_lab_telemetry.Tests.Memory.{Mem, tables_of, memory, start, batch, sample}

bound_rows_lem_example : bound_rows (arguments batch) (placeholders 0 batch) ≡ some batch
bound_rows_lem_example = bound_rows_lem batch

insert_readings-Outcome_example :
    Outcome memory (tables_of start) batch (insert_readings memory batch start)
insert_readings-Outcome_example = insert_readings-Outcome memory batch start

deliver-Delivered_example :
    ((deliver memory 3 batch start).0 ≡ true)
      × (tables_of (deliver memory 3 batch start).1 ≡ merged memory (tables_of start) batch)
    ⊎ ((k : ℕ) × ((deliver memory 3 batch start).0 ≡ false)
        × (tables_of (deliver memory 3 batch start).1
            ≡ merged memory (tables_of start) (take k batch)))
deliver-Delivered_example = deliver-Delivered memory 3 batch start

-- a state in which the batch is stored
abbrev once : Mem
once = record start { readings = (merged memory (tables_of start) batch).readings }

abbrev two_minutes : IsStep (text "2m") 2 60
two_minutes = record {
  digits = b'2' ∷ [];
  unit = b'm';
  parts = refl;
  all_digits = ((omega arith, omega arith), tt);
  some_digit = omega arith;
  few = omega arith;
  number = refl;
  seconds = inr (inl (refl, refl));
}

-- A transaction that is rolled back where its body fails.
transaction : Run (List Text) → Run (List Text)
transaction body l =
    let (done, after) = body l in elim done [ none ↦ (none, l) | some _ ↦ (some tt, after) ]

transaction_law :
    (body : Run (List Text)) (l : List Text)
    → (((transaction body l).0 ≡ none) × ((transaction body l).1 ≡ l))
      ⊎ (((body l).0 ≡ some tt) × ((transaction body l).1 ≡ (body l).1))
unfolding transaction
transaction_law body l = elim (Option-cases (body l).0) [
  | inl failed ↦ rw (failed, transaction) (inl (refl, refl))
  | inr (_, ran) ↦ rw (ran, transaction) (inr (refl, refl))
]

-- A log of migrations in memory: the names, the latest first.
abbrev log : MigrationDb (List Text)
log = record {
  recorded = λ l. l;
  Leaves = λ q. Unit;
  create_log = λ l. (some tt, l);
  select_names = λ l. (some (complete l), l);
  exec = λ q l. (some tt, l);
  insert_name = λ n l. (some tt, n ∷ l);
  begin_func = transaction;
  create_log_law = λ l. refl;
  select_names_keeps = λ l. refl;
  select_names_law =
      λ out l e. λ name. ap (λ (x : List Text). is_applied x name) (complete_same out l e);
  exec_law = λ q l h. refl;
  insert_name_law = λ n l. inl (refl, refl);
  begin_func_law = transaction_law;
}

abbrev pub files : Option (List DirEntry)
files = some (
    record { name = text "0002_b.sql"; is_dir = false }
    ∷ record { name = text "0001_a.sql"; is_dir = false }
    ∷ [])

abbrev pub names : List Text
names = text "0001_a.sql" ∷ text "0002_b.sql" ∷ []

pub migration_names-files : migration_names files ≡ some names
unfolding migration_names text_eq
migration_names-files = refl

abbrev first : List Text
first = text "0001_a.sql" ∷ []

pub every_quiet : (qs : List Text) → All (λ q. Unit {0}) qs
every_quiet [] = tt
every_quiet (q ∷ qs) = (tt, every_quiet qs)

migrate-Recorded_example :
    let after = migrate log (λ n. some (text "SELECT 1;")) files first in
    let new = pending first names in
    ((after.0 ≡ some tt) × (after.1 ≡ recorded_all new first))
    ⊎ ((after.0 ≡ none) × ((k : ℕ) × (after.1 ≡ recorded_all (take k new) first)))
migrate-Recorded_example =
    migrate-Recorded log (λ n. some (text "SELECT 1;")) files names first
      (λ n sql e. (tt, every_quiet (split_statements sql))) migration_names-files

-- One call of one sample, after its round.
abbrev one_sample : List Reading
one_sample = sample 1 20 ∷ []

abbrev one_round : Shared Mem
one_round =
    let (answer, m) = chunk_answer memory one_sample 0 start in
    record { world = m; calls = after_chunk one_sample 0 0 answer ∷ [] }

Run-counted_example :
    IsUnique (tables_of one_round.world).readings
    × All (Held memory (tables_of one_round.world).readings) one_round.calls
    × (0 + weigh counted one_round.calls ≤ length (tables_of one_round.world).readings)
    × (length (tables_of one_round.world).readings
        ≤ 0 + weigh counted one_round.calls + 1000 * weigh failures one_round.calls)
Run-counted_example =
    Run-counted memory start (one_sample ∷ []) one_round tt
      (Interleaved.next Interleaved.begin (round [] [] one_sample 0 0 refl (omega arith) refl))
