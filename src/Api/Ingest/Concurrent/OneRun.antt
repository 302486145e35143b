-- ===== src/Api/Ingest/Concurrent/OneRun.antt =====
-- The handler of server/internal/api/ingest.go as a run of one call.
use mathlib.Core.Path.{subst}
use cryo_lab_telemetry.Prelude.{
  ℕ, ◌≡◌, ◌≤◌, ◌⊎◌, refl, sym, inl, inr, Text, text, some, List, [], ◌∷◌, length, ltb, arith, Bool,
  false, Bool-cases, Option-cases, if◌then◌else◌,
}
use cryo_lab_telemetry.Store.Data.{Reading}
use cryo_lab_telemetry.Store.World.{World}
use cryo_lab_telemetry.Store.Insert.{Inserted, insert_readings}
use cryo_lab_telemetry.Store.Insert.Chunks.{insert_readings-Outcome}
use cryo_lab_telemetry.Alert.Edges.{Step}
use cryo_lab_telemetry.Alert.Firing.{Formats}
use cryo_lab_telemetry.Auth.{source_for_token}
use cryo_lab_telemetry.Api.Http.{
  Decoded, decoded, malformed, ingest_response, write_error, write_json, Server, Handled,
}
use cryo_lab_telemetry.Api.Ingest.{
  IngestReading, max_batch_readings, validate_from, readings, respond, storing_failed, refuse,
  accepted, ingest_batch, handle_ingest, ingest,
}
use cryo_lab_telemetry.Api.Ingest.Kept.{ingest_known}
use cryo_lab_telemetry.Api.Ingest.Confined.{Checked-cases}
use cryo_lab_telemetry.Api.Ingest.Concurrent.{
  answered, failed, inserted, Core, count, reply, begin, arrive, move,
}
use cryo_lab_telemetry.Api.Ingest.Concurrent.Alone.{
  Alone, with_world, Returns, insert_loop-Returns, check-IsChecked,
}

module _ (w : World) (f : Formats) (srv : Server) where
  open w use {State}

  -- what a call finds
  abbrev pub before_call : State → Core State
  before_call s = record {
    alerter = srv.alerter;
    metrics = srv.metrics;
    world = s;
    trace = [];
    lost = [];
  }

  -- what a call leaves, with the verdicts that it has taken, and the errors of the log's INSERT
  abbrev pub after_call : Handled State → List Step → List Text → Core State
  after_call h trace lost = record {
    alerter = h.server.alerter;
    metrics = h.server.metrics;
    world = h.world;
    trace = trace;
    lost = lost;
  }

  -- The answer and the effect of a call are those of a run with one call, for the readings `rs`.
  abbrev pub IsOneRun : State → List Reading → ℕ → Handled State → Type 0
  IsOneRun s rs received h =
      (trace : List Step) × (lost : List Text) × (n : ℕ) × ((h.response
            ≡ write_json 200 (ingest_response received n))
          × Alone w f (before_call s) (after_call h trace lost) (answered rs n)
        ⊎ (h.response ≡ write_error 500 (text "failed to store readings"))
          × Alone w f (before_call s) (after_call h trace lost) (failed rs n))

  answer-IsOneRun :
      (source : Text) (rs : List Reading) (received : ℕ) (s s' : State) (ins : Inserted)
      → Returns w f (before_call s) source rs (before_call s) (some ins, s')
      → IsOneRun s rs received (respond w f srv source rs received (some ins, s'))
  unfolding respond accepted storing_failed refuse
  answer-IsOneRun source rs received s s' ins run =
      let at : Bool → Type 0 = λ b.
        Alone w f (before_call s) (with_world w f (before_call s) (before_call s) s')
          (if b then failed rs ins.rows else inserted source rs ins.rows) in
      elim (Bool-cases ins.failed) [
        | inl bad ↦ rw (bad, respond) ([], [], ins.rows, inr (refl, subst at bad run))
        | inr good ↦
            let stored : at false = subst at good run in
            let counted = move stored [] [] _ _ (count source rs ins.rows) refl refl in
            let (trace, lost, checked) =
              check-IsChecked w f (before_call s) rs rs ins.rows _ counted in
            rw (good, respond)
              (
                trace,
                lost,
                ins.rows,
                inl (refl, move checked [] [] _ _ (reply rs ins.rows) refl refl),
              )
      ]

  respond-IsOneRun :
      (source : Text) (rs : List Reading) (received : ℕ) (s : State)
      → IsOneRun s rs received (respond w f srv source rs received (insert_readings w rs s))
  respond-IsOneRun source rs received s =
      let out = insert_readings w rs s in
      let returns : Returns w f (before_call s) source rs (before_call s) out =
        unfold insert_readings in
        insert_loop-Returns w f (before_call s) source rs (before_call s) _ 0 0 s
          (arrive begin source rs) in
      let go : (ins : Inserted)
          → out.0 ≡ some ins
          → IsOneRun s rs received (respond w f srv source rs received out) =
        λ ins e.
          subst (λ o. IsOneRun s rs received (respond w f srv source rs received (o, out.1)))
            (sym e)
            (answer-IsOneRun source rs received s out.1 ins (
              subst (λ o. Returns w f (before_call s) source rs (before_call s) (o, out.1)) e
                returns)) in
      elim (insert_readings-Outcome w rs s) [ inl (e, u) ↦ go _ e | inr (k, n, e, u, le) ↦ go _ e ]

  -- The call is turned away, or has no readings, and changes nothing.
  abbrev pub IsAside : Decoded (List IngestReading) → State → Handled State → Type 0
  IsAside body s h =
      (h.server ≡ srv) × (h.world ≡ s) × ((body ≡ decoded []) ⊎ (400 ≤ h.response.status))

  -- The call passes the guard and the validation, and is one run.
  abbrev pub IsPassed : Text → Decoded (List IngestReading) → State → Handled State → Type 0
  IsPassed token body s h =
      (source : Text) × (bs : List IngestReading) × (rs : List Reading) × (body ≡ decoded bs)
      × (source_for_token srv.tokens token ≡ some source)
      × (validate_from 0 bs [] source ≡ readings rs)
      × IsOneRun s rs (length bs) h

  ingest_batch-IsPassed :
      (token source : Text) (bs : List IngestReading) (s : State)
      → source_for_token srv.tokens token ≡ some source
      → let h = ingest_batch w f srv source bs s in
        IsAside (decoded bs) s h ⊎ IsPassed token (decoded bs) s h
  unfolding ingest_batch refuse
  ingest_batch-IsPassed token source [] s known = inl (refl, refl, inl refl)
  ingest_batch-IsPassed token source (b ∷ bs) s known =
      elim (Bool-cases (ltb max_batch_readings (length (b ∷ bs)))) [
        | inl large ↦ rw (large, ingest_batch) (inl (refl, refl, inr (omega arith)))
        | inr fits ↦ elim (Checked-cases (validate_from 0 (b ∷ bs) [] source)) [
          | inl (rs, e) ↦
              rw (fits, e, ingest_batch)
                (inr (
                  source,
                  b ∷ bs,
                  rs,
                  refl,
                  known,
                  e,
                  respond-IsOneRun source rs (length (b ∷ bs)) s,
                ))
          | inr (i, reason, e) ↦ rw (fits, e, ingest_batch) (inl (refl, refl, inr (omega arith)))
        ]
      ]

  -- Every call of POST /ingest by itself either changes nothing, because the batch is empty or
  -- the answer is an error, or is a run of the concurrent calls in which it is the only one: the
  -- readings that pass the validation go from the arrival to the answer 200 or 500 with the same
  -- alerter, counters and world.
  pub ingest-IsOneRun :
      (token : Text) (body : Decoded (List IngestReading)) (s : State)
      → let h = ingest w f srv token body s in IsAside body s h ⊎ IsPassed token body s h
  unfolding ingest handle_ingest refuse
  ingest-IsOneRun token (malformed msg) s =
      elim (Option-cases (source_for_token srv.tokens token)) [
        | inl unknown ↦ rw (unknown, ingest) (inl (refl, refl, inr (omega arith)))
        | inr (source, known) ↦ rw (known, ingest) (inl (refl, refl, inr (omega arith)))
      ]
  ingest-IsOneRun token (decoded bs) s = elim (Option-cases (source_for_token srv.tokens token)) [
    | inl unknown ↦ rw (unknown, ingest) (inl (refl, refl, inr (omega arith)))
    | inr (source, known) ↦
        subst (λ h. IsAside (decoded bs) s h ⊎ IsPassed token (decoded bs) s h)
          (sym (ingest_known w f srv token source bs s known))
          (ingest_batch-IsPassed token source bs s known)
  ]
