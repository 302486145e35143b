-- ===== src/Bench/Traffic/Stored.antt =====
-- What the server stores of a batch that the bench sends.
use cryo_lab_telemetry.Prelude.{
  ℕ, zero, suc, ◌≤◌, ◌≡◌, ◌⊎◌, refl, ap, ◌∙◌, inl, inr, Text, some, List, [], ◌∷◌, ◌++◌, take,
}
use cryo_lab_telemetry.Values.{Float64}
use cryo_lab_telemetry.Store.Data.{Row, insert_rows}
use cryo_lab_telemetry.Store.World.{World}
use cryo_lab_telemetry.Store.Insert.Chunks.{rows_of}
use cryo_lab_telemetry.Alert.Firing.{Formats}
use cryo_lab_telemetry.Auth.{source_for_token}
use cryo_lab_telemetry.Api.Http.{decoded, Server, Handled}
use cryo_lab_telemetry.Api.Ingest.{ingest}
use cryo_lab_telemetry.Api.Ingest.Kept.{ingest_known}
use cryo_lab_telemetry.Api.Ingest.Stored.{tagged, ingest_batch-readings}
use cryo_lab_telemetry.Bench.Batch.{Producer}
use cryo_lab_telemetry.Bench.Traffic.{batch_of}
use cryo_lab_telemetry.Bench.Traffic.Numbers.{row, rows}

module _ (w : World) (f : Formats) (float : ℕ → Float64) (p : Producer) (token source : Text) where
  open w use {State, tables}

  rows-tagged :
      (ns : List ℕ) → rows_of w (tagged source (batch_of float p ns)) ≡ rows w float p source ns
  rows-tagged [] = refl
  rows-tagged (k ∷ ns) = ap (λ rs. row w float p source k ∷ rs) (rows-tagged ns)

  take-tagged :
      (m : ℕ) (ns : List ℕ)
      → take m (tagged source (batch_of float p ns)) ≡ tagged source (batch_of float p (take m ns))
  take-tagged zero ns = refl
  take-tagged (suc m) [] = refl
  take-tagged (suc m) (k ∷ ns) =
      ap (λ rs. tagged source (batch_of float p (k ∷ [])) ++ rs) (take-tagged m ns)

  -- What the server has stored of a batch, and how it has answered: all, or a first part and an
  -- error.
  abbrev pub Stored : List ℕ → List Row → Handled State → Type 0
  Stored ns old h =
      ((h.response.status ≡ 200)
        × ((tables h.world).readings ≡ insert_rows (rows w float p source ns) old))
      ⊎ ((400 ≤ h.response.status)
          × (m : ℕ) × ((tables h.world).readings
              ≡ insert_rows (rows w float p source (take m ns)) old))

  part :
      (m : ℕ) (ns : List ℕ)
      → rows_of w (take m (tagged source (batch_of float p ns))) ≡ rows w float p source (take m ns)
  part m ns = ap (rows_of w) (take-tagged m ns) ∙ rows-tagged (take m ns)

  pub ingest-Stored :
      (srv : Server) (ns : List ℕ) (s : State)
      → source_for_token srv.tokens token ≡ some source
      → Stored ns (tables s).readings (ingest w f srv token (decoded (batch_of float p ns)) s)
  ingest-Stored srv ns s known =
      let bs = batch_of float p ns in
      let old = (tables s).readings in
      rw (ingest_known w f srv token source bs s known)
        (elim (ingest_batch-readings w f srv source bs s) [
          | inl (ok, u) ↦ inl (ok, u ∙ ap (λ (rs : List Row). insert_rows rs old) (rows-tagged ns))
          | inr (st, k, u) ↦ inr (st, k, u ∙ ap (λ (rs : List Row). insert_rows rs old) (part k ns))
        ])
