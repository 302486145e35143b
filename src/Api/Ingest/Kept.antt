-- ===== src/Api/Ingest/Kept.antt =====
-- What POST /ingest keeps of the server.
use cryo_lab_telemetry.Prelude.{
  ℕ, ◌≡◌, refl, inl, inr, Text, IsMap, Option, none, some, List, [], ◌∷◌, Option-cases, Bool-cases,
  ltb, length,
}
use cryo_lab_telemetry.Store.Data.{Reading}
use cryo_lab_telemetry.Store.World.{World}
use cryo_lab_telemetry.Store.Insert.{Inserted, insert_readings}
use cryo_lab_telemetry.Alert.Firing.{Formats}
use cryo_lab_telemetry.Auth.{source_for_token}
use cryo_lab_telemetry.Metrics.Sources.{record_ingest-IsMap}
use cryo_lab_telemetry.Api.Http.{Decoded, decoded, malformed, Server}
use cryo_lab_telemetry.Api.Ingest.Confined.{Checked-cases}
use cryo_lab_telemetry.Api.Ingest.{
  IngestReading, max_batch_readings, validate_from, respond, refuse, storing_failed, accepted,
  ingest_batch, handle_ingest, ingest,
}

-- A server with the same tokens, that started at the same time, and has one counter for each source
-- where the other has.
abbrev pub SameServer : Server → Server → Type 0
SameServer a b = (b.tokens ≡ a.tokens) × (b.started_at ≡ a.started_at) × IsMap b.metrics.per_source

module _ (w : World) (f : Formats) (srv : Server) (h : IsMap srv.metrics.per_source) where
  open w use {State}

  respond-SameServer :
      (source : Text) (rs : List Reading) (n : ℕ) (out : Option Inserted) (s : State)
      → SameServer srv (respond w f srv source rs n (out, s)).server
  unfolding respond storing_failed refuse accepted
  respond-SameServer source rs n none s = (refl, refl, h)
  respond-SameServer source rs n (some ins) s = elim (Bool-cases ins.failed) [
    | inl failed ↦ rw (failed, respond) (refl, refl, h)
    | inr stored ↦
        rw (stored, respond)
          (refl, refl, record_ingest-IsMap srv.metrics source ins.rows (w.now s) h)
  ]

  ingest_batch-SameServer :
      (source : Text) (bs : List IngestReading) (s : State)
      → SameServer srv (ingest_batch w f srv source bs s).server
  unfolding ingest_batch refuse
  ingest_batch-SameServer source [] s = (refl, refl, h)
  ingest_batch-SameServer source (b ∷ bs) s =
      elim (Bool-cases (ltb max_batch_readings (length (b ∷ bs)))) [
        | inl large ↦ rw (large, ingest_batch) (refl, refl, h)
        | inr fits ↦ elim (Checked-cases (validate_from 0 (b ∷ bs) [] source)) [
          | inl (rs, e) ↦
              rw (fits, e, ingest_batch)
                (respond-SameServer source rs _ (insert_readings w rs s).0
                  (insert_readings w rs s).1)
          | inr (i, reason, e) ↦ rw (fits, e, ingest_batch) (refl, refl, h)
        ]
      ]

  pub ingest-SameServer :
      (token : Text) (body : Decoded (List IngestReading)) (s : State)
      → SameServer srv (ingest w f srv token body s).server
  unfolding ingest handle_ingest refuse
  ingest-SameServer token body s = elim (Option-cases (source_for_token srv.tokens token)) [
    | inl unknown ↦ rw (unknown, ingest) (refl, refl, h)
    | inr (source, known) ↦ rw (known, ingest) (handled source body)
  ]
    where
      handled :
          (source : Text) (x : Decoded (List IngestReading))
          → SameServer srv (handle_ingest w f srv source x s).server
      handled source (malformed msg) = (refl, refl, h)
      handled source (decoded bs) = ingest_batch-SameServer source bs s

-- A token that speaks for no source leaves the server as it was, and sends no message.
pub ingest_unknown :
    (w : World) (f : Formats) (srv : Server) (token : Text) (body : Decoded (List IngestReading))
    (s : w.State)
    → source_for_token srv.tokens token ≡ none
    → let h = ingest w f srv token body s in (h.server ≡ srv) × (h.messages ≡ []) × (h.world ≡ s)
unfolding ingest refuse
ingest_unknown w f srv token body s unknown = rw (unknown, ingest) (refl, refl, refl)

pub ingest_known :
    (w : World) (f : Formats) (srv : Server) (token source : Text) (bs : List IngestReading)
    (s : w.State)
    → source_for_token srv.tokens token ≡ some source
    → ingest w f srv token (decoded bs) s ≡ ingest_batch w f srv source bs s
unfolding ingest handle_ingest
ingest_known w f srv token source bs s known = rw (known, ingest) refl
