-- ===== src/Api/Ingest/Stored.antt =====
-- What each answer of POST /ingest says of the tables.
use mathlib.Core.List.{append-nil, append_assoc}
use cryo_lab_telemetry.Prelude.{
  ℕ, suc, ◌<◌, ◌≤◌, ◌≡◌, ◌≢◌, ◌↔◌, ◌⊎◌, refl, sym, ap, ◌∙◌, inl, inr, Text, text, text_eq_iff, none,
  List, [], ◌∷◌, ◌++◌, map, take, length, true, All, Option-cases, Bool-cases, ltb, arith,
}
use cryo_lab_telemetry.Prelude.Int.{pos}
use cryo_lab_telemetry.Values.{is_finite}
use cryo_lab_telemetry.Store.Data.{Reading, Tables, insert_rows}
use cryo_lab_telemetry.Store.World.{World}
use cryo_lab_telemetry.Store.Insert.{insert_readings}
use cryo_lab_telemetry.Store.Insert.Chunks.{rows_of, merged, added, insert_readings-Outcome}
use cryo_lab_telemetry.Alert.Firing.{Formats, check}
use cryo_lab_telemetry.Alert.Firing.Frame.{check-SameData}
use cryo_lab_telemetry.Metrics.{record_ingest}
use cryo_lab_telemetry.Api.Http.{
  ingest_response, Server, Response, Handled, write_json, write_error,
}
use cryo_lab_telemetry.Api.Ingest.{
  IngestReading, max_batch_readings, validate_reading, readings, refused, validate_from, respond,
  refuse, storing_failed, accepted, ingest_batch,
}

-- What the API asks of a reading.
pub record IsAcceptable (source : Text) (b : IngestReading) : Type 0 where
  pub metric : b.metric ≢ []
  pub source_agrees : (b.source ≡ []) ⊎ (b.source ≡ source)
  pub ts : b.ts ≢ pos 0
  pub finite : is_finite b.value ≡ true

-- No reason to refuse a reading is found exactly when it is acceptable.
pub validate_reading-eq-none_iff :
    (b : IngestReading) (source : Text) → (validate_reading b source ≡ none) ↔ IsAcceptable source b
unfolding validate_reading
validate_reading-eq-none_iff b source = (
  λ h. record {
    metric = ground (arith, text_eq_iff b.source source);
    source_agrees = ground (arith, text_eq_iff b.source source);
    ts = ground (arith, text_eq_iff b.source source);
    finite = ground (arith, text_eq_iff b.source source);
  },
  λ h. ground (arith, text_eq_iff b.source source, h.metric, h.source_agrees, h.ts, h.finite),
)

-- A reading as it is stored: under the token's source.
abbrev pub tagged : Text → List IngestReading → List Reading
tagged source = map (λ (b : IngestReading). record {
  source = source;
  metric = b.metric;
  ts = b.ts;
  value = b.value;
})

-- The loop passes the whole batch, or stops at a reading that is not acceptable.
validate_from-cases :
    (i : ℕ) (bs : List IngestReading) (acc : List Reading) (source : Text)
    → (All (IsAcceptable source) bs
        × (validate_from i bs acc source ≡ readings (acc ++ tagged source bs)))
      ⊎ ((j : ℕ) × (reason : Text) × (validate_from i bs acc source ≡ refused j reason)
          × ¬ All (IsAcceptable source) bs)
unfolding validate_from
validate_from-cases i [] acc source = inl (tt, ap readings (sym (append-nil acc)))
validate_from-cases i (b ∷ bs) acc source = elim (Option-cases (validate_reading b source)) [
  | inr (reason, bad) ↦ inr (
    i,
    reason,
    rw (bad, validate_from),
    λ h. cc (bad, (validate_reading-eq-none_iff b source).1 h.0),
  )
  | inl valid ↦
      let own : Reading = record {
        source = source;
        metric = b.metric;
        ts = b.ts;
        value = b.value;
      } in
      elim (validate_from-cases (suc i) bs (acc ++ own ∷ []) source) [
        | inl (h, e) ↦ inl (
          ((validate_reading-eq-none_iff b source).0 valid, h),
          rw (valid, validate_from)
              (e ∙ ap readings (append_assoc acc (own ∷ []) (tagged source bs))),
        )
        | inr (j, reason, e, h) ↦ inr (j, reason, rw (valid, validate_from) e, λ k. h k.1)
      ]
]

-- What the handler leaves of a batch, where it found the server `srv` and the state `s`.
module _ (w : World) (f : Formats) (srv : Server) (source : Text) (bs : List IngestReading)
    (s : w.State) where
  open w use {State, tables, now}

  -- Nothing has changed, and no message is sent.
  pub record IsUntouched (h : Handled State) : Type 0 where
    pub world : h.world ≡ s
    pub server : h.server ≡ srv
    pub silent : h.messages ≡ []

  pub data Answer (h : Handled State) : Type 0 where
    -- 200 for the empty batch
    nothing : bs ≡ [] → h.response ≡ write_json 200 (ingest_response 0 0) → IsUntouched h → Answer h
    -- 200: every reading is acceptable and stored, the counts are those of the batch and of the
    -- rows that were new, the counters have the rows that were new, and the alerter has checked the
    -- batch: its alarms, the alert log and the messages are those of `check`
    stored :
        (s' : State)
        → h.response
          ≡ write_json 200 (ingest_response (length bs) (added w (tables s) (tagged source bs)))
        → 1 ≤ length bs
        → length bs ≤ max_batch_readings
        → All (IsAcceptable source) bs
        → tables s' ≡ merged w (tables s) (tagged source bs)
        → (tables h.world).readings ≡ insert_rows (rows_of w (tagged source bs)) (tables s).readings
        → h.server ≡ record srv {
          alerter = (check w f srv.alerter (tagged source bs) s').0;
          metrics =
              record_ingest srv.metrics source (added w (tables s) (tagged source bs)) (now s');
        }
        → h.messages ≡ (check w f srv.alerter (tagged source bs) s').1
        → h.world ≡ (check w f srv.alerter (tagged source bs) s').2
        → Answer h
    -- 500: every reading is acceptable, a first part is stored, and the alerter and the counters
    -- have not seen the batch
    failed :
        (k : ℕ)
        → h.response ≡ write_error 500 (text "failed to store readings")
        → length bs ≤ max_batch_readings
        → All (IsAcceptable source) bs
        → tables h.world ≡ merged w (tables s) (take k (tagged source bs))
        → h.server ≡ srv
        → h.messages ≡ []
        → Answer h
    -- 400: some reading is not acceptable, and nothing has changed
    invalid :
        h.response.status ≡ 400
        → length bs ≤ max_batch_readings
        → ¬ All (IsAcceptable source) bs
        → IsUntouched h
        → Answer h
    -- 413: the batch is too large, and nothing has changed
    too_large :
        h.response ≡ write_error 413 (text "batch too large")
        → max_batch_readings < length bs
        → IsUntouched h
        → Answer h

module _ (w : World) (f : Formats) (srv : Server) (source : Text) where
  open w use {State, tables}

  respond-Answer :
      (bs : List IngestReading) (s : State)
      → 1 ≤ length bs
      → length bs ≤ max_batch_readings
      → All (IsAcceptable source) bs
      → let rs = tagged source bs in
        Answer w f srv source bs s (respond w f srv source rs (length bs) (insert_readings w rs s))
  unfolding respond storing_failed refuse accepted
  respond-Answer bs s some_reading fits ok =
      let rs = tagged source bs in
      let s' = (insert_readings w rs s).1 in
      elim (insert_readings-Outcome w rs s) [
        | inl (r, u) ↦
            let same = (check-SameData w f srv.alerter rs s').readings in
            rw (r, respond)
              (stored s' refl some_reading fits ok u (same ∙ ap (λ (t : Tables). t.readings) u) refl
                refl refl)
        | inr (k, m, r, u, _) ↦ rw (r, respond) (failed k refl fits ok u refl refl)
      ]

  -- The answer to a batch of a known source is 200 for the empty batch, and nothing has changed; or
  -- 200 where there are at most 50,000 readings and every one is acceptable, all are stored under
  -- the source, the counts are those of the readings and of the new rows, the counters have taken
  -- the new rows, and the alerter, the alert log and the messages are what Check makes of the
  -- batch; or 500 where all are acceptable and a first part is stored; or 400 where some reading is
  -- not acceptable, or 413 where there are more than 50,000, and nothing has changed. With 500, too,
  -- the alerter and the counters are as before and no message is sent.
  pub ingest_batch-Answer :
      (bs : List IngestReading) (s : State)
      → Answer w f srv source bs s (ingest_batch w f srv source bs s)
  unfolding ingest_batch refuse
  ingest_batch-Answer [] s =
      nothing refl refl (record { world = refl; server = refl; silent = refl })
  ingest_batch-Answer (b ∷ bs) s = elim (Bool-cases (ltb max_batch_readings (length (b ∷ bs)))) [
    | inl large ↦
        rw (large, ingest_batch)
          (too_large refl (ground arith) (record { world = refl; server = refl; silent = refl }))
    | inr fits ↦
        let few : length (b ∷ bs) ≤ max_batch_readings = ground arith in
        elim (validate_from-cases 0 (b ∷ bs) [] source) [
          | inl (ok, e) ↦
              rw (fits, e, ingest_batch) (respond-Answer (b ∷ bs) s (omega arith) few ok)
          | inr (j, reason, e, bad) ↦
              rw (fits, e, ingest_batch)
                (invalid refl few bad (record { world = refl; server = refl; silent = refl }))
        ]
  ]

  untouched-readings :
      (s : State) (h : Handled State)
      → h.world ≡ s
      → (tables h.world).readings ≡ insert_rows (rows_of w []) (tables s).readings
  unfolding insert_rows
  untouched-readings s h e = ap (λ (x : State). (tables x).readings) e

  -- What is stored of a batch that is answered 200, and of one that is answered with an error.
  pub ingest_batch-readings :
      (bs : List IngestReading) (s : State)
      → let h = ingest_batch w f srv source bs s in
        let old = (tables s).readings in
        ((h.response.status ≡ 200)
          × ((tables h.world).readings ≡ insert_rows (rows_of w (tagged source bs)) old))
        ⊎ ((400 ≤ h.response.status)
            × (k : ℕ) × ((tables h.world).readings
                ≡ insert_rows (rows_of w (take k (tagged source bs))) old))
  ingest_batch-readings bs s =
      let h = ingest_batch w f srv source bs s in
      elim (ingest_batch-Answer bs s) [
        | nothing none_given r same ↦ inl (
          ap (λ (x : Response). x.status) r,
          untouched-readings s h same.world
              ∙ ap
                  (λ (l : List IngestReading).
                    insert_rows (rows_of w (tagged source l)) (tables s).readings)
                  (sym none_given),
        )
        | stored s' r _ _ _ _ u _ _ _ ↦ inl (ap (λ (x : Response). x.status) r, u)
        | failed k r _ _ u _ _ ↦
            inr (
              omega (arith, ap (λ (x : Response). x.status) r),
              k,
              ap (λ (t : Tables). t.readings) u,
            )
        | invalid st _ _ same ↦ inr (omega (arith, st), 0, untouched-readings s h same.world)
        | too_large r _ same ↦
            inr (
              omega (arith, ap (λ (x : Response). x.status) r),
              0,
              untouched-readings s h same.world,
            )
      ]
