-- ===== src/Store/Migrate/Runs.antt =====
-- What a run of the migrations records.
use cryo_lab_telemetry.Prelude.{
  ℕ, suc, ◌≡◌, ◌⊎◌, inl, inr, refl, sym, ap, ◌∙◌, Text, Option, none, some, List, [], ◌∷◌,
  Bool-cases, Option-cases, All, take, if◌then◌else◌,
}
use cryo_lab_telemetry.Prelude.Split.{trim_space, has_prefix}
use cryo_lab_telemetry.Store.Cursor.{scan_rows, scan_rows_iff}
use cryo_lab_telemetry.Store.Migrate.{
  applied_migrations, Run, MigrationDb, DirEntry, migration_names, split_statements, no_tx_marker,
  is_applied, exec_all, and_record, apply_one_no_tx, apply_one, apply_names, apply_pending, migrate,
}

-- The names that are not applied yet, in order.
abbrev pub pending : List Text → List Text → List Text
pending applied [] = []
pending applied (n ∷ ns) =
    if is_applied applied n then pending applied ns else n ∷ pending applied ns

-- It matters which names are applied, not in which order.
pending-cong :
    (as' bs names : List Text)
    → ((name : Text) → is_applied as' name ≡ is_applied bs name)
    → pending as' names ≡ pending bs names
pending-cong as' bs [] h = refl
pending-cong as' bs (n ∷ ns) h = rw (h n, pending-cong as' bs ns h) refl

-- The log with more names recorded one after the other.
abbrev pub recorded_all : List Text → List Text → List Text
recorded_all [] log = log
recorded_all (n ∷ ns) log = recorded_all ns (n ∷ log)

module _ {S : Type 0} (db : MigrationDb S) where
  open db use {recorded, Leaves}

  -- A migration succeeds and is recorded; or it fails, and is recorded or not.
  abbrev Applies : Text → Run S → Type 0
  Applies name run =
      (s : S)
      → (((run s).0 ≡ some tt) × (recorded (run s).1 ≡ name ∷ recorded s))
        ⊎ (((run s).0 ≡ none)
            × ((recorded (run s).1 ≡ recorded s) ⊎ (recorded (run s).1 ≡ name ∷ recorded s)))

  exec_all-recorded :
      (qs : List Text) (s : S) → All Leaves qs → recorded (exec_all db qs s).1 ≡ recorded s
  unfolding exec_all
  exec_all-recorded [] s h = refl
  exec_all-recorded (q ∷ qs) s (h, hs) = elim (Option-cases (db.exec q s).0) [
    | inl failed ↦ rw (failed, exec_all) (db.exec_law q s h)
    | inr (_, ran) ↦
        rw (ran, exec_all) (exec_all-recorded qs (db.exec q s).1 hs ∙ db.exec_law q s h)
  ]

  and_record-Applies :
      (name : Text) (run : Run S)
      → ((s : S) → recorded (run s).1 ≡ recorded s)
      → Applies name (and_record db name run)
  unfolding and_record
  and_record-Applies name run h s = elim (Option-cases (run s).0) [
    | inl failed ↦ rw (failed, and_record) (inr (refl, inl (h s)))
    | inr (_, ran) ↦
        rw (ran, and_record)
          (elim (db.insert_name_law name (run s).1) [
            | inl (r, u) ↦ inl (r, u ∙ ap (λ l. name ∷ l) (h s))
            | inr (r, inl u) ↦ inr (r, inl (u ∙ h s))
            | inr (r, inr u) ↦ inr (r, inr (u ∙ ap (λ l. name ∷ l) (h s)))
          ])
  ]

  -- The statements of a file leave the log alone.
  abbrev pub Quiet : Text → Type 0
  Quiet sql = Leaves sql × All Leaves (split_statements sql)

  begin_func-Applies :
      (name : Text) (body : Run S) → Applies name body → Applies name (db.begin_func body)
  begin_func-Applies name body h s = elim (db.begin_func_law body s) [
    | inl (r, u) ↦ inr (r, inl u)
    | inr (ran, u) ↦ elim (h s) [
      | inr (failed, _) ↦ absurd (some_none tt (sym ran ∙ failed))
      | inl (_, v) ↦ elim (Option-cases (db.begin_func body s).0) [
        | inl lost ↦ inr (lost, inr (u ∙ v))
        | inr (_, done) ↦ inl (done, u ∙ v)
      ]
    ]
  ]
    where
      some_none : {A : Type 0} → (a : A) → some a ≡ none → ⊥
      some_none a e = cc

  apply_one-Applies : (name sql : Text) → Quiet sql → Applies name (apply_one db name sql)
  unfolding apply_one apply_one_no_tx
  apply_one-Applies name sql (h, hs) s =
      elim (Bool-cases (has_prefix (trim_space sql) no_tx_marker)) [
        | inl marked ↦
            rw (marked, apply_one)
              (and_record-Applies name (exec_all db (split_statements sql))
                (λ u. exec_all-recorded (split_statements sql) u hs) s)
        | inr plain ↦
            rw (plain, apply_one)
              (begin_func-Applies name (and_record db name (db.exec sql))
                (and_record-Applies name (db.exec sql) (λ u. db.exec_law sql u h)) s)
      ]

  -- What a loop over the names records: all that are pending, or the first `k` of them.
  abbrev pub Recorded : List Text → Run S → Type 0
  Recorded new run =
      (s : S)
      → (((run s).0 ≡ some tt) × (recorded (run s).1 ≡ recorded_all new (recorded s)))
        ⊎ (((run s).0 ≡ none)
            × ((k : ℕ) × (recorded (run s).1 ≡ recorded_all (take k new) (recorded s))))

  Recorded-step :
      (n : Text) (new : List Text) (one rest : Run S)
      → Applies n one
      → Recorded new rest
      → (s : S)
      → let both : Option (Unit {0}) × S = elim (one s).0 [
        | none ↦ (none, (one s).1)
        | some _ ↦ rest (one s).1
      ] in
        ((both.0 ≡ some tt) × (recorded both.1 ≡ recorded_all (n ∷ new) (recorded s)))
        ⊎ ((both.0 ≡ none)
            × ((k : ℕ) × (recorded both.1 ≡ recorded_all (take k (n ∷ new)) (recorded s))))
  Recorded-step n new one rest h k s = elim (h s) [
    | inr (r, inl u) ↦ rw r (inr (refl, (0, u)))
    | inr (r, inr u) ↦ rw r (inr (refl, (1, u)))
    | inl (r, u) ↦ rw r (elim (k (one s).1) [
      | inl (r', u') ↦ inl (r', u' ∙ ap (recorded_all new) u)
      | inr (r', (j, u')) ↦ inr (r', (suc j, u' ∙ ap (recorded_all (take j new)) u))
    ])
  ]

  abbrev pub AllQuiet : (Text → Option Text) → Type 0
  AllQuiet read_file = (name sql : Text) → read_file name ≡ some sql → Quiet sql

  apply_names-Recorded :
      (read_file : Text → Option Text) (applied names : List Text)
      → AllQuiet read_file
      → Recorded (pending applied names) (apply_names db read_file applied names)
  unfolding apply_names
  apply_names-Recorded read_file applied [] quiet s = inl (refl, refl)
  apply_names-Recorded read_file applied (n ∷ ns) quiet s =
      elim (Bool-cases (is_applied applied n)) [
        | inl old ↦ rw (old, apply_names) (apply_names-Recorded read_file applied ns quiet s)
        | inr new ↦ elim (Option-cases (read_file n)) [
          | inl lost ↦ rw (new, lost, apply_names) (inr (refl, (0, refl)))
          | inr (sql, got) ↦
              rw (new, got, apply_names)
                (Recorded-step n (pending applied ns) (apply_one db n sql)
                  (apply_names db read_file applied ns) (apply_one-Applies n sql (quiet n sql got))
                  (apply_names-Recorded read_file applied ns quiet) s)
        ]
      ]

  applied_migrations_lem :
      (s : S)
      → (recorded (applied_migrations db s).1 ≡ recorded s)
        × (((applied_migrations db s).0 ≡ none)
            ⊎ ((out : List Text) × ((applied_migrations db s).0 ≡ some out)
                × ((name : Text) → is_applied out name ≡ is_applied (recorded s) name)))
  unfolding applied_migrations
  applied_migrations_lem s = (
    db.select_names_keeps s,
    elim (Option-cases (scan_rows (db.select_names s).0)) [
      | inl failed ↦ inl failed
      | inr (out, got) ↦ inr (out, got, db.select_names_law out s ((scan_rows_iff _ out).0 got))
    ],
  )

  -- Where the files leave the log alone, a run that succeeds has recorded exactly those of the
  -- migrations that were not recorded before, in their order; one that fails has recorded the first
  -- `k` of them, for some `k`, and no other.
  pub migrate-Recorded :
      (read_file : Text → Option Text) (dir : Option (List DirEntry)) (names : List Text) (s : S)
      → ((name sql : Text) → read_file name ≡ some sql → Quiet sql)
      → migration_names dir ≡ some names
      → let after = migrate db read_file dir s in
        let new = pending (recorded s) names in
        ((after.0 ≡ some tt) × (recorded after.1 ≡ recorded_all new (recorded s)))
        ⊎ ((after.0 ≡ none)
            × ((k : ℕ) × (recorded after.1 ≡ recorded_all (take k new) (recorded s))))
  unfolding migrate apply_pending
  migrate-Recorded read_file dir names s quiet e =
      let s1 = (db.create_log s).1 in
      let s2 = (applied_migrations db s1).1 in
      let u1 = db.create_log_law s in
      let (u2, answer) = applied_migrations_lem s1 in
      let same : (cut : List Text → List Text)
          → recorded_all (cut (pending (recorded s1) names)) (recorded s2)
            ≡ recorded_all (cut (pending (recorded s) names)) (recorded s) =
        λ cut.
          ap (recorded_all (cut (pending (recorded s1) names))) (u2 ∙ u1)
          ∙ ap (λ l. recorded_all (cut (pending l names)) (recorded s)) u1 in
      elim (Option-cases (db.create_log s).0) [
        | inl failed ↦ rw (failed, migrate) (inr (refl, (0, u1)))
        | inr (_, made) ↦ elim answer [
          | inl failed ↦ rw (made, failed, migrate) (inr (refl, (0, u2 ∙ u1)))
          | inr (out, got, members) ↦
              let alike = λ (cut : List Text → List Text).
                ap (λ l. recorded_all (cut l) (recorded s2))
                  (pending-cong out (recorded s1) names members)
                ∙ same cut in
              rw (made, got, migrate, e, apply_pending)
                (elim (apply_names-Recorded read_file out names quiet s2) [
                  | inl (r, u) ↦ inl (r, u ∙ alike (λ l. l))
                  | inr (r, (k, u)) ↦ inr (r, (k, u ∙ alike (take k)))
                ])
        ]
      ]
