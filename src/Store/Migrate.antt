-- ===== src/Store/Migrate.antt =====
-- server/internal/store/migrate.go: the migrations that run at each start.
pub mod Runs
pub mod Frame
use cryo_lab_telemetry.Prelude.{
  ℕ, ◌+◌, Text, text, text_eq, Option, none, some, List, [], ◌∷◌, ◌++◌, ◌≡◌, ◌⊎◌, Bool, true, false,
  not, ◌&&◌, ◌||◌, ◌==◌, ltb, length, if◌then◌else◌, drop, ◌-◌,
}
use cryo_lab_telemetry.Store.Cursor.{Cursor, scan_rows, complete}
use cryo_lab_telemetry.Prelude.Split.{split_on, trim_space, keep_trimmed, has_prefix}

-- What the statements of a runner do to a state of the world.
abbrev pub Run : Type 0 → Type 0
Run S = S → Option (Unit {0}) × S

-- applied[name], of a map that is the list of its keys
pub is_applied : List Text → Text → Bool
is_applied [] name = false
is_applied (a ∷ as') name = text_eq a name || is_applied as' name

-- The database as the runner uses it. `recorded` are the names in schema_migrations, the latest
-- first, and `Leaves q` says that the statements `q` do not change that table's rows.
pub record MigrationDb (S : Type 0) : Type 1 where
  pub recorded : S → List Text
  pub Leaves : Text → Type 0
  -- CREATE TABLE IF NOT EXISTS schema_migrations (…)
  pub create_log : Run S
  -- SELECT name FROM schema_migrations
  pub select_names : S → Option (Cursor Text) × S
  pub exec : Text → Run S
  -- INSERT INTO schema_migrations (name) VALUES ($1)
  pub insert_name : Text → Run S
  -- pgx.BeginFunc
  pub begin_func : Run S → Run S
  pub create_log_law : (s : S) → recorded (create_log s).1 ≡ recorded s
  pub select_names_keeps : (s : S) → recorded (select_names s).1 ≡ recorded s
  -- the rows come in any order
  pub select_names_law :
      (out : List Text) (s : S)
      → (select_names s).0 ≡ some (complete out)
      → (name : Text) → is_applied out name ≡ is_applied (recorded s) name
  pub exec_law : (q : Text) (s : S) → Leaves q → recorded (exec q s).1 ≡ recorded s
  -- A statement that fails has had no effect, or was committed and its answer lost.
  pub insert_name_law :
      (name : Text) (s : S)
      → (((insert_name name s).0 ≡ some tt) × (recorded (insert_name name s).1 ≡ name ∷ recorded s))
        ⊎ (((insert_name name s).0 ≡ none)
            × ((recorded (insert_name name s).1 ≡ recorded s)
                ⊎ (recorded (insert_name name s).1 ≡ name ∷ recorded s)))
  -- The transaction is rolled back and an error returned, or the body has succeeded and is
  -- committed.
  pub begin_func_law :
      (body : Run S) (s : S)
      → (((begin_func body s).0 ≡ none) × (recorded (begin_func body s).1 ≡ recorded s))
        ⊎ (((body s).0 ≡ some tt) × (recorded (begin_func body s).1 ≡ recorded (body s).1))

-- a <= b, as sort.Strings orders them
text_le : Text → Text → Bool
text_le [] t = true
text_le (c ∷ s) [] = false
text_le (c ∷ s) (d ∷ t) = let rest = text_le s t in ltb c d || (c == d && rest)

insert_sorted : Text → List Text → List Text
insert_sorted x [] = x ∷ []
insert_sorted x (y ∷ ys) =
    let rest = insert_sorted x ys in if text_le x y then x ∷ y ∷ ys else y ∷ rest

-- sort.Strings
sort_strings : List Text → List Text
sort_strings [] = []
sort_strings (x ∷ xs) = insert_sorted x (sort_strings xs)

-- An entry of the embedded directory.
pub record DirEntry : Type 0 where
  pub name : Text
  pub is_dir : Bool

is_migration : DirEntry → Bool
is_migration e =
    not e.is_dir && ltb 4 (length e.name) && text_eq (drop (length e.name - 4) e.name) (text ".sql")

names_of : List DirEntry → List Text
names_of [] = []
names_of (e ∷ es) = let rest = names_of es in if is_migration e then e.name ∷ rest else rest

-- migrationNames
unfoldable pub migration_names : Option (List DirEntry) → Option (List Text)
unfolding sort_strings names_of insert_sorted is_migration text_le
migration_names none = none
migration_names (some es) = some (sort_strings (names_of es))

-- the part of a line before the first "--"
drop_comment : Text → Text
drop_comment [] = []
drop_comment (c ∷ []) = c ∷ []
drop_comment (c ∷ d ∷ s) =
    let rest = drop_comment (d ∷ s) in if c == b'-' && d == b'-' then [] else c ∷ rest

newline : ℕ
newline = 10

strip_comments : List Text → Text
strip_comments [] = []
strip_comments (l ∷ ls) = drop_comment l ++ newline ∷ strip_comments ls

-- splitStatements
pub split_statements : Text → List Text
split_statements sql = keep_trimmed (split_on b';' (strip_comments (split_on newline sql)))

abbrev no_tx_marker : Text
no_tx_marker = text "-- migrate:no-transaction"

module _ {S : Type 0} (db : MigrationDb S) where
  exec_all : List Text → Run S
  exec_all [] s = (some tt, s)
  exec_all (q ∷ qs) s =
      let (done, s') = db.exec q s in
      let rest = exec_all qs s' in elim done [ none ↦ (none, s') | some _ ↦ rest ]

  and_record : Text → Run S → Run S
  and_record name run s =
      let (done, s') = run s in
      let recorded = db.insert_name name s' in elim done [ none ↦ (none, s') | some _ ↦ recorded ]

  -- applyOneNoTx
  apply_one_no_tx : Text → Text → Run S
  apply_one_no_tx name sql = and_record name (exec_all (split_statements sql))

  -- applyOne
  apply_one : Text → Text → Run S
  apply_one name sql s =
      if has_prefix (trim_space sql) no_tx_marker
      then apply_one_no_tx name sql s
      else db.begin_func (and_record name (db.exec sql)) s

  -- The loop over the names; `read_file` is the embedded file system.
  apply_names : (Text → Option Text) → List Text → List Text → Run S
  apply_names read_file applied [] s = (some tt, s)
  apply_names read_file applied (n ∷ ns) s =
      let skip = apply_names read_file applied ns s in
      if is_applied applied n then skip else elim (read_file n) [
        | none ↦ (none, s)
        | some sql ↦
            let (done, s') = apply_one n sql s in
            let rest = apply_names read_file applied ns s' in
            elim done [ none ↦ (none, s') | some _ ↦ rest ]
      ]

  -- what follows a read of the names that are applied
  apply_pending : (Text → Option Text) → Option (List DirEntry) → List Text → Run S
  apply_pending read_file dir applied s = elim (migration_names dir) [
    | none ↦ (none, s)
    | some names ↦ apply_names read_file applied names s
  ]

  -- appliedMigrations; a map to `true` is the list of its keys
  unfoldable pub applied_migrations : S → Option (List Text) × S
  applied_migrations s = let (rows, s') = db.select_names s in (scan_rows rows, s')

  -- Migrate
  pub migrate : (Text → Option Text) → Option (List DirEntry) → Run S
  migrate read_file dir s =
      let (made, s1) = db.create_log s in
      let (applied, s2) = applied_migrations s1 in
      elim made [
        | none ↦ (none, s1)
        | some _ ↦ elim applied [
          | none ↦ (none, s2)
          | some names ↦ apply_pending read_file dir names s2
        ]
      ]
