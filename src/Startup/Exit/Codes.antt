-- ===== src/Startup/Exit/Codes.antt =====
-- What the exit code of the server says.
use cryo_lab_telemetry.Prelude.{
  ℕ, ◌≡◌, ◌≢◌, refl, ◌∙◌, ◌⊎◌, inl, inr, Text, Option, none, some, List, ◌∷◌, Option-cases,
}
use cryo_lab_telemetry.Prelude.Int.{ℤ}
use cryo_lab_telemetry.Values.{Time}
use cryo_lab_telemetry.Store.Migrate.{DirEntry, MigrationDb, migration_names}
use cryo_lab_telemetry.Store.Migrate.Runs.{Quiet}
use cryo_lab_telemetry.Store.Migrate.Frame.{LeavesPart}
use cryo_lab_telemetry.Startup.{
  PoolLibrary, Listening, Started, no_config, no_store, not_migrated, listening, assemble, start,
}
use cryo_lab_telemetry.Startup.Order.{serves, ends, start-Outcome}
use cryo_lab_telemetry.Startup.Exit.{
  Waited, server_closed, serve_failed, signalled, HttpServer, exit_code, selected, closed,
  serve_until_done, run, main,
}

module _ {S : Type 0} (l : PoolLibrary S) (h : HttpServer S l.Pool l.open_pools) where
  open l use {Pool, open_pools}

  -- The server that listens at `s` is closed in good order: it was told to close, or a signal came
  -- and the shutdown met no error.
  abbrev pub EndsWell : Listening Pool → S → Type 0
  EndsWell x s =
      let (w, s') = h.listen_and_serve x.address s in
      (w ≡ server_closed) ⊎ ((w ≡ signalled) × ((h.shutdown s').0 ≡ some tt))

  -- It ends with an error: of the listener, or of the shutdown behind a signal.
  abbrev pub EndsIll : Listening Pool → S → Type 0
  EndsIll x s =
      let (w, s') = h.listen_and_serve x.address s in
      ((msg : Text) × (w ≡ serve_failed msg)) ⊎ ((w ≡ signalled) × ((h.shutdown s').0 ≡ none))

  -- the code of a server that listened
  abbrev Told : Listening Pool → S → ℕ → Type 0
  Told x s code = ((code ≡ 0) × EndsWell x s) ⊎ ((code ≡ 1) × EndsIll x s)

  Waited-cases :
      (w : Waited) → (w ≡ server_closed) ⊎ ((msg : Text) × (w ≡ serve_failed msg)) ⊎ (w ≡ signalled)
  Waited-cases server_closed = inl refl
  Waited-cases (serve_failed msg) = inr (inl (msg, refl))
  Waited-cases signalled = inr (inr refl)

  selected-Told :
      (x : Listening Pool) (s : S)
      → let r = selected l h (h.listen_and_serve x.address s) in
        Told x s (exit_code r.0) × (open_pools r.1 ≡ open_pools s)
  unfolding selected exit_code
  selected-Told x s =
      let kept = h.serve_keeps x.address s in
      let s' = (h.listen_and_serve x.address s).1 in
      elim (Waited-cases (h.listen_and_serve x.address s).0) [
        | inl e ↦ rw (e, selected) (inl (refl, inl refl), kept)
        | inr (inl (msg, e)) ↦ rw (e, selected) (inr (refl, inl (msg, refl)), kept)
        | inr (inr e) ↦ elim (Option-cases (h.shutdown s').0) [
          | inl late ↦
              rw (e, late, selected) (inr (refl, inr (refl, refl)), h.shutdown_keeps s' ∙ kept)
          | inr (_, done) ↦
              rw (e, done, selected) (inl (refl, inr (refl, refl)), h.shutdown_keeps s' ∙ kept)
        ]
      ]

  abbrev pub NeverListened : Started Pool → Type 0
  NeverListened r = (x : Listening Pool) → r ≢ listening x

  -- What an exit code says, of a start that ended in `r`.
  abbrev pub Said : Started Pool × S → ℕ → Type 0
  Said (r, s) code =
      ((code ≡ 0) × (x : Listening Pool) × (r ≡ listening x) × EndsWell x s)
      ⊎ ((code ≡ 1) × (NeverListened r ⊎ ((x : Listening Pool) × (r ≡ listening x) × EndsIll x s)))

  Told-Said : (x : Listening Pool) (s : S) (code : ℕ) → Told x s code → Said (listening x, s) code
  Told-Said x s code (inl (e, well)) = inl (e, x, refl, well)
  Told-Said x s code (inr (e, ill)) = inr (e, inr (x, refl, ill))

  -- of a start that ends with a server, which has one pool open, or without one
  abbrev Opened : List Pool → Started Pool × S → Type 0
  Opened ps (listening x, s) = open_pools s ≡ x.store ∷ ps
  Opened ps (_, s) = open_pools s ≡ ps

  Opened-listening :
      {ps : List Pool} (r : Started Pool) (s : S) {x : Listening Pool}
      → r ≡ listening x
      → open_pools s ≡ x.store ∷ ps
      → Opened ps (r, s)
  Opened-listening r s e u = rw e u

  Opened-silent :
      {ps : List Pool} (r : Started Pool) (s : S)
      → NeverListened r
      → open_pools s ≡ ps
      → Opened ps (r, s)
  Opened-silent (no_config msg) s silent u = u
  Opened-silent no_store s silent u = u
  Opened-silent not_migrated s silent u = u
  Opened-silent (listening x) s silent u = absurd (silent x refl)

  serve_until_done-Said :
      (ps : List Pool) (r : Started Pool × S)
      → Opened ps r
      → let out = serve_until_done l h r in Said r (exit_code out.0) × (open_pools out.1 ≡ ps)
  unfolding serve_until_done closed exit_code
  serve_until_done-Said ps (no_config msg, s) u = (inr (refl, inl (λ x e. cc)), u)
  serve_until_done-Said ps (no_store, s) u = (inr (refl, inl (λ x e. cc)), u)
  serve_until_done-Said ps (not_migrated, s) u = (inr (refl, inl (λ x e. cc)), u)
  serve_until_done-Said ps (listening x, s) u =
      let (told, kept) = selected-Told x s in
      (
        Told-Said x s _ told,
        l.close_law x.store ps (selected l h (h.listen_and_serve x.address s)).1 (kept ∙ u),
      )

  module _ (db : Pool → MigrationDb S) (sscanf_d : Text → Option ℤ) (read_file : Text → Option Text)
      (dir : Option (List DirEntry)) (now : S → Time) (names : List Text)
      (quiet : (name sql : Text) → read_file name ≡ some sql → (p : Pool) → Quiet (db p) sql)
      (found : migration_names dir ≡ some names)
      (keeps : (p : Pool) → LeavesPart (db p) open_pools) where
    start-Opened :
        (env : Text → Text) (s : S)
        → Opened (open_pools s) (start l db sscanf_d read_file dir now env s)
    start-Opened env s =
        elim (start-Outcome l db sscanf_d read_file dir now names quiet found keeps env s) [
          | serves cfg p s1 _ _ e _ u ↦ unfold assemble in (Opened-listening _ _ e u)
          | ends silent u ↦ Opened-silent _ _ silent u
        ]

    -- Where the embedded migrations can be listed, their statements leave the log of the migrations
    -- alone, and neither a statement nor a request opens or closes a pool: the process exits with 0
    -- exactly where the server listened and was then told to close, or got a signal and shut down
    -- without an error; else it exits with 1, where nothing listened, the listener failed, or the
    -- shutdown did. However it exits, no pool is left open.
    pub main-Said :
        (env : Text → Text) (s : S)
        → let (code, s') = main l h db sscanf_d read_file dir now env s in
          Said (start l db sscanf_d read_file dir now env s) code × (open_pools s' ≡ open_pools s)
    unfolding main run
    main-Said env s =
        serve_until_done-Said (open_pools s) (start l db sscanf_d read_file dir now env s)
          (start-Opened env s)
