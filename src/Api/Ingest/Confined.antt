-- ===== src/Api/Ingest/Confined.antt =====
-- A token writes readings of its own source only.
use mathlib.Core.Path.{subst}
use cryo_lab_telemetry.Prelude.{
  ℕ, zero, suc, ◌≡◌, ◌≢◌, true, ◌⊎◌, refl, ◌∙◌, inl, inr, Text, none, some, List, [], ◌∷◌, ◌++◌,
  take, length, All, All-append, Option-cases, Bool-cases, ltb,
}
use cryo_lab_telemetry.Values.{is_finite}
use cryo_lab_telemetry.Api.Ingest.Stored.{validate_reading-eq-none_iff}
use cryo_lab_telemetry.Store.Data.{Reading, Row, Tables, insert_rows}
use cryo_lab_telemetry.Store.World.{World}
use cryo_lab_telemetry.Store.Insert.{insert_readings}
use cryo_lab_telemetry.Store.Insert.Rows.{insert_rows_grow}
use cryo_lab_telemetry.Store.Insert.Chunks.{rows_of, merged, insert_readings-Outcome}
use cryo_lab_telemetry.Alert.Firing.{Formats}
use cryo_lab_telemetry.Alert.Firing.Frame.{SameData, SameData-refl, check-SameData}
use cryo_lab_telemetry.Auth.{source_for_token}
use cryo_lab_telemetry.Api.Http.{Decoded, decoded, malformed, Server}
use cryo_lab_telemetry.Api.Ingest.{
  IngestReading, max_batch_readings, validate_reading, Checked, readings, refused, validate_from,
  respond, refuse, storing_failed, accepted, ingest_batch, handle_ingest, ingest,
}

-- A reading of the source, with a metric and a finite value.
abbrev IsFrom : Text → Reading → Type 0
IsFrom source r = (r.source ≡ source) × (r.metric ≢ []) × (is_finite r.value ≡ true)

-- A stored row of the source, with a metric and a finite value.
abbrev pub IsRowFrom : Text → Row → Type 0
IsRowFrom source x = (x.source ≡ source) × (x.metric ≢ []) × (is_finite x.value ≡ true)

cast :
    (source : Text) (xs ys : List Reading)
    → All (IsFrom source) xs
    → readings xs ≡ readings ys
    → All (IsFrom source) ys
cast source xs ys h e = subst (λ (l : List Reading). All (IsFrom source) l) (of_checked e) h
  where
    of_checked : readings xs ≡ readings ys → xs ≡ ys
    of_checked p = cc

-- Every reading that passes carries the token's source, whatever the body said, a metric and a
-- finite value.
validate_from-sources :
    (i : ℕ) (bs : List IngestReading) (acc : List Reading) (source : Text) (rs : List Reading)
    → All (IsFrom source) acc
    → validate_from i bs acc source ≡ readings rs
    → All (IsFrom source) rs
unfolding validate_from
validate_from-sources i [] acc source rs h e = cast source acc rs h e
validate_from-sources i (b ∷ bs) acc source rs h e =
    elim (Option-cases (validate_reading b source)) [
      | inl valid ↦
          validate_from-sources (suc i) bs _ source rs
            (All-append (IsFrom source) acc _ h (
              let ok = (validate_reading-eq-none_iff b source).0 valid in
              ((refl, ok.metric, ok.finite), tt)))
            (rw (valid, validate_from) at e)
      | inr (reason, bad) ↦ cc (rw (bad, validate_from) at e)
    ]

pub Checked-cases :
    (c : Checked)
    → ((rs : List Reading) × (c ≡ readings rs))
      ⊎ ((i : ℕ) × (reason : Text) × (c ≡ refused i reason))
Checked-cases (readings rs) = inl (rs, refl)
Checked-cases (refused i reason) = inr (i, reason, refl)

-- What a call adds to the table of readings, where all of it is from one source.
pub record Adds (source : Text) (t u : Tables) : Type 0 where
  pub new : List Row
  pub added : u.readings ≡ new ++ t.readings
  pub from : All (IsRowFrom source) new
  pub config : u.config ≡ t.config
  pub thresholds : u.thresholds ≡ t.thresholds
  -- the rows that INSERT … ON CONFLICT DO NOTHING was given
  pub given : List Row
  pub inserted : u.readings ≡ insert_rows given t.readings

All-take :
    (source : Text) (k : ℕ) (rs : List Reading)
    → All (IsFrom source) rs
    → All (IsFrom source) (take k rs)
All-take source zero rs h = tt
All-take source (suc k) [] h = tt
All-take source (suc k) (r ∷ rs) h = (h.0, All-take source k rs h.1)

Adds-refl : (source : Text) (t : Tables) → Adds source t t
Adds-refl source t = record {
  new = [];
  added = refl;
  from = tt;
  config = refl;
  thresholds = refl;
  given = [];
  inserted = unfold insert_rows in refl;
}

module _ (w : World) where
  open w use {State, tables}

  rows_of-sources :
      (source : Text) (rs : List Reading)
      → All (IsFrom source) rs
      → All (IsRowFrom source) (rows_of w rs)
  rows_of-sources source [] h = tt
  rows_of-sources source (r ∷ rs) h = (h.0, rows_of-sources source rs h.1)

  merged-Adds :
      (source : Text) (t u : Tables) (rs : List Reading)
      → All (IsFrom source) rs
      → SameData (merged w t rs) u
      → Adds source t u
  merged-Adds source t u rs h same =
      let (new, e, _, from, _) =
        insert_rows_grow (IsRowFrom source) (rows_of w rs) t.readings
          (rows_of-sources source rs h) in
      record {
        new = new;
        added = same.readings ∙ e;
        from = from;
        config = same.config;
        thresholds = same.thresholds;
        given = rows_of w rs;
        inserted = same.readings;
      }

  respond-Adds :
      (f : Formats) (srv : Server) (source : Text) (rs : List Reading) (n : ℕ) (s : State)
      → All (IsFrom source) rs
      → Adds source (tables s) (tables (respond w f srv source rs n (insert_readings w rs s)).world)
  unfolding respond storing_failed refuse accepted
  respond-Adds f srv source rs n s h = elim (insert_readings-Outcome w rs s) [
    | inl (r, u) ↦
        rw (r, respond)
          (merged-Adds source (tables s) _ rs h
            (rw u at (check-SameData w f srv.alerter rs (insert_readings w rs s).1)))
    | inr (k, m, r, u, _) ↦
        rw (r, respond)
          (merged-Adds source (tables s) _ (take k rs) (All-take source k rs h)
            (rw (← u) (SameData-refl _)))
  ]

  ingest_batch-Adds :
      (f : Formats) (srv : Server) (source : Text) (bs : List IngestReading) (s : State)
      → Adds source (tables s) (tables (ingest_batch w f srv source bs s).world)
  unfolding ingest_batch refuse
  ingest_batch-Adds f srv source [] s = Adds-refl source (tables s)
  ingest_batch-Adds f srv source (b ∷ bs) s =
      elim (Bool-cases (ltb max_batch_readings (length (b ∷ bs)))) [
        | inl large ↦ rw (large, ingest_batch) (Adds-refl source (tables s))
        | inr fits ↦ elim (Checked-cases (validate_from 0 (b ∷ bs) [] source)) [
          | inl (rs, e) ↦
              rw (fits, e, ingest_batch)
                (respond-Adds f srv source rs _ s
                  (validate_from-sources 0 (b ∷ bs) [] source rs tt e))
          | inr (i, reason, e) ↦ rw (fits, e, ingest_batch) (Adds-refl source (tables s))
        ]
      ]

-- Whatever the headers, the body and the database do, POST /ingest leaves the configuration, the
-- thresholds and every stored reading as they were; and it adds no reading at all where the token
-- speaks for no source, and else only readings of the source that the token speaks for, each
-- with a metric and a finite value.
pub ingest-Adds :
    (w : World) (f : Formats) (srv : Server) (token : Text) (body : Decoded (List IngestReading))
    (s : w.State)
    → let t = w.tables s in
      let u = w.tables (ingest w f srv token body s).world in
      ((source_for_token srv.tokens token ≡ none) × (u ≡ t))
      ⊎ ((source : Text) × (source_for_token srv.tokens token ≡ some source) × Adds source t u)
unfolding ingest handle_ingest refuse
ingest-Adds w f srv token body s = elim (Option-cases (source_for_token srv.tokens token)) [
  | inl unknown ↦ inl (unknown, rw (unknown, ingest))
  | inr (source, known) ↦ inr (source, known, rw (known, ingest) (handled source body))
]
  where
    handled :
        (source : Text) (x : Decoded (List IngestReading))
        → Adds source (w.tables s) (w.tables (handle_ingest w f srv source x s).world)
    handled source (malformed msg) = Adds-refl source (w.tables s)
    handled source (decoded bs) = ingest_batch-Adds w f srv source bs s
