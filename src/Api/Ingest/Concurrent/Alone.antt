-- ===== src/Api/Ingest/Concurrent/Alone.antt =====
-- A call of handleIngest that runs alone is one of the runs.
use mathlib.Core.Path.{subst}
use cryo_lab_telemetry.Prelude.{
  ℕ, zero, suc, ◌+◌, refl, inl, inr, Text, lookup, Option, none, some, List, [], ◌∷◌, ◌++◌, length,
  ltb, arith, if◌then◌else◌, Bool-cases, Option-cases,
}
use cryo_lab_telemetry.Store.Data.{Reading}
use cryo_lab_telemetry.Store.World.{World}
use cryo_lab_telemetry.Store.Insert.{Inserted, max_rows_per_stmt, insert_loop}
use cryo_lab_telemetry.Store.Insert.Interleaved.{chunk_answer}
use cryo_lab_telemetry.Alert.{Alerter, Event, evaluate, transition}
use cryo_lab_telemetry.Alert.Edges.{Step}
use cryo_lab_telemetry.Alert.Firing.{
  Formats, Message, notify, fire, handle_transition, check_reading, check,
}
use cryo_lab_telemetry.Api.Ingest.Concurrent.{
  Pc, inserting, inserted, checking, firing, failed, Core, after_round, after_transition,
  verdict_step, round, finish, skip, read, decide, ask, log, Run, move,
}

module _ (w : World) (f : Formats) (c0 : Core w.State) where
  open w use {State, now}

  -- a state in which there is one call
  abbrev pub Alone : Core State → Pc → Type 0
  Alone c p = Run w f c0 (record { core = c; calls = p ∷ [] })

  abbrev pub with_world : Core State → State → Core State
  with_world c s = record c { world = s }

  -- Where a call of InsertReadings stands when its loop returns, unless the fuel is out.
  abbrev pub Returns : Text → List Reading → Core State → Option Inserted × State → Type 0
  Returns source rs c (none, s) = Unit
  Returns source rs c (some ins, s) =
      Alone (with_world c s)
        (if ins.failed then failed rs ins.rows else inserted source rs ins.rows)

  pub insert_loop-Returns :
      (source : Text) (rs : List Reading) (c : Core State) (fuel start n : ℕ) (s : State)
      → Alone (with_world c s) (inserting source rs start n)
      → Returns source rs c (insert_loop w fuel rs start n s)
  unfolding insert_loop
  insert_loop-Returns source rs c zero start n s run = tt
  insert_loop-Returns source rs c (suc fuel) start n s run =
      elim (Bool-cases (ltb start (length rs))) [
        | inr over ↦
            rw (over, insert_loop)
              (move run [] [] _ _ (finish source rs start n (ground arith)) refl refl)
        | inl more ↦
            let s' = (chunk_answer w rs start s).1 in
            let after : Alone (with_world c s')
                (after_round source rs start n (chunk_answer w rs start s).0) =
              move run [] [] _ _ (round source rs start n (ground arith)) refl refl in
            elim (Option-cases (chunk_answer w rs start s).0) [
              | inl lost ↦
                  rw (more, lost, insert_loop)
                    (subst (λ o. Alone (with_world c s') (after_round source rs start n o)) lost
                      after)
              | inr (k, got) ↦
                  rw (more, got, insert_loop)
                    (insert_loop-Returns source rs c fuel (start + max_rows_per_stmt) (n + k) s' (
                      subst (λ o. Alone (with_world c s') (after_round source rs start n o)) got
                        after))
            ]
      ]

  -- A part of Check leaves what the steps of the call leave, and the call stands at `p`.
  abbrev pub IsChecked : Core State → Pc → Alerter × List Message × State → Type 0
  IsChecked c p (a, out, s) =
      (trace : List Step) × (lost : List Text) × Alone
        (record c { alerter = a; world = s; trace = trace; lost = lost }) p

  fire-IsChecked :
      (rs todo : List Reading) (n : ℕ) (r : Reading) (e : Event) (c : Core State)
      → Alone c (firing rs n todo r e)
      → IsChecked c (checking rs n todo) (fire w f c.alerter r e c.world)
  unfolding fire
  fire-IsChecked rs todo n r e c run =
      let asked = move run [] [] _ _ (ask rs todo n r e) refl refl in
      (
        c.trace,
        _,
        move asked [] [] _ _ (log rs todo n r e (notify w f c.alerter c.world).1) refl refl,
      )

  check_reading-IsChecked :
      (rs todo : List Reading) (n : ℕ) (r : Reading) (c : Core State)
      → Alone c (checking rs n (r ∷ todo))
      → IsChecked c (checking rs n todo) (check_reading w f c.alerter r c.world)
  unfolding check_reading handle_transition
  check_reading-IsChecked rs todo n r c run =
      elim (Option-cases (lookup r.metric c.alerter.thresholds)) [
        | inl missing ↦
            rw (missing, check_reading)
              (c.trace, c.lost, move run [] [] _ _ (skip rs todo n r missing) refl refl)
        | inr (t, found) ↦
            let at = move run [] [] _ _ (read rs todo n r t found) refl refl in
            let seen = move at [] [] _ _ (decide rs todo n r t) refl refl in
            let verdict = (transition c.alerter r.metric t (evaluate t r.value)).1 in
            let moved : Core State = record c {
              alerter = (transition c.alerter r.metric t (evaluate t r.value)).0;
              trace = c.trace ++ verdict_step r t ∷ [];
            } in
            elim (Option-cases verdict) [
              | inl quiet ↦
                  rw (found, quiet, check_reading, handle_transition)
                    (
                      moved.trace,
                      c.lost,
                      subst (λ o. Alone moved (after_transition rs n todo r o)) quiet seen,
                    )
              | inr (e, event) ↦
                  rw (found, event, check_reading, handle_transition)
                    (fire-IsChecked rs todo n r e moved
                      (subst (λ o. Alone moved (after_transition rs n todo r o)) event seen))
            ]
      ]

  pub check-IsChecked :
      (rs todo : List Reading) (n : ℕ) (c : Core State)
      → Alone c (checking rs n todo)
      → IsChecked c (checking rs n []) (check w f c.alerter todo c.world)
  unfolding check
  check-IsChecked rs [] n c run = (c.trace, c.lost, run)
  check-IsChecked rs (r ∷ todo) n c run =
      let (trace, lost, here) = check_reading-IsChecked rs todo n r c run in
      check-IsChecked rs todo n _ here
