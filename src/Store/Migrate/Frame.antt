-- ===== src/Store/Migrate/Frame.antt =====
-- A part of the world that no statement of the runner changes is as it was after a run.
use cryo_lab_telemetry.Prelude.{
  ◌≡◌, refl, ◌∙◌, Text, Option, List, [], ◌∷◌, Bool-cases, Option-cases, inl, inr,
}
use cryo_lab_telemetry.Prelude.Split.{trim_space, has_prefix}
use cryo_lab_telemetry.Store.Migrate.{
  applied_migrations, Run, MigrationDb, DirEntry, migration_names, split_statements, no_tx_marker,
  is_applied, exec_all, and_record, apply_one_no_tx, apply_one, apply_names, apply_pending, migrate,
}

-- `part` is what the statements do not change.
pub record LeavesPart {S : Type 0} {X : Type 0} (db : MigrationDb S) (part : S → X) : Type 0 where
  pub create_log : (s : S) → part (db.create_log s).1 ≡ part s
  pub select_names : (s : S) → part (db.select_names s).1 ≡ part s
  pub exec : (q : Text) (s : S) → part (db.exec q s).1 ≡ part s
  pub insert_name : (name : Text) (s : S) → part (db.insert_name name s).1 ≡ part s
  pub begin_func :
      (body : Run S)
      → ((s : S) → part (body s).1 ≡ part s)
      → (s : S) → part (db.begin_func body s).1 ≡ part s

module _ {S : Type 0} {X : Type 0} (db : MigrationDb S) (part : S → X)
    (h : LeavesPart db part) where
  abbrev Kept : Run S → Type 0
  Kept run = (s : S) → part (run s).1 ≡ part s

  exec_all-Kept : (qs : List Text) → Kept (exec_all db qs)
  unfolding exec_all
  exec_all-Kept [] s = refl
  exec_all-Kept (q ∷ qs) s = elim (Option-cases (db.exec q s).0) [
    | inl failed ↦ rw (failed, exec_all) (h.exec q s)
    | inr (_, ran) ↦ rw (ran, exec_all) (exec_all-Kept qs (db.exec q s).1 ∙ h.exec q s)
  ]

  and_record-Kept : (name : Text) (run : Run S) → Kept run → Kept (and_record db name run)
  unfolding and_record
  and_record-Kept name run k s = elim (Option-cases (run s).0) [
    | inl failed ↦ rw (failed, and_record) (k s)
    | inr (_, ran) ↦ rw (ran, and_record) (h.insert_name name (run s).1 ∙ k s)
  ]

  apply_one-Kept : (name sql : Text) → Kept (apply_one db name sql)
  unfolding apply_one apply_one_no_tx
  apply_one-Kept name sql s = elim (Bool-cases (has_prefix (trim_space sql) no_tx_marker)) [
    | inl marked ↦
        rw (marked, apply_one)
          (and_record-Kept name (exec_all db (split_statements sql))
            (exec_all-Kept (split_statements sql)) s)
    | inr plain ↦
        rw (plain, apply_one)
          (h.begin_func (and_record db name (db.exec sql))
            (and_record-Kept name (db.exec sql) (h.exec sql)) s)
  ]

  apply_names-Kept :
      (read_file : Text → Option Text) (applied names : List Text)
      → Kept (apply_names db read_file applied names)
  unfolding apply_names
  apply_names-Kept read_file applied [] s = refl
  apply_names-Kept read_file applied (n ∷ ns) s = elim (Bool-cases (is_applied applied n)) [
    | inl old ↦ rw (old, apply_names) (apply_names-Kept read_file applied ns s)
    | inr new ↦ elim (Option-cases (read_file n)) [
      | inl lost ↦ rw (new, lost, apply_names) refl
      | inr (sql, got) ↦ elim (Option-cases (apply_one db n sql s).0) [
        | inl failed ↦ rw (new, got, apply_names) (rw failed (apply_one-Kept n sql s))
        | inr (_, ran) ↦
            rw (new, got, apply_names)
              (rw ran (
                apply_names-Kept read_file applied ns (apply_one db n sql s).1
                ∙ apply_one-Kept n sql s))
      ]
    ]
  ]

  pub migrate-Kept :
      (read_file : Text → Option Text) (dir : Option (List DirEntry)) (s : S)
      → part (migrate db read_file dir s).1 ≡ part s
  unfolding migrate apply_pending applied_migrations
  migrate-Kept read_file dir s =
      let s1 = (db.create_log s).1 in
      let s2 = (applied_migrations db s1).1 in
      let read = h.select_names s1 ∙ h.create_log s in
      elim (Option-cases (db.create_log s).0) [
        | inl failed ↦ rw (failed, migrate) (h.create_log s)
        | inr (_, made) ↦ elim (Option-cases (applied_migrations db s1).0) [
          | inl failed ↦ rw (made, failed, migrate) read
          | inr (applied, got) ↦ elim (Option-cases (migration_names dir)) [
            | inl lost ↦ rw (made, got, lost, migrate, apply_pending) read
            | inr (names, found) ↦
                rw (made, got, found, migrate, apply_pending)
                  (apply_names-Kept read_file applied names s2 ∙ read)
          ]
        ]
      ]
