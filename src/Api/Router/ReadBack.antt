-- ===== src/Api/Router/ReadBack.antt =====
-- What is ingested is seen by the reads.
use mathlib.Core.List.{Memᴰ}
use mathlib.Core.Path.{subst}
use cryo_lab_telemetry.Prelude.{
  ◌≡◌, refl, sym, ap, ◌∙◌, inl, inr, Text, text_eq_iff, some, List, [], ◌∷◌, All, true, Bool-cases,
  arith, Option-cases,
}
use cryo_lab_telemetry.Prelude.Int.{pos, ◌≤ℤ◌, ◌<ℤ◌, ◌+ℤ◌, +ℤ_parts, eq_of_parts}
use cryo_lab_telemetry.Store.Data.{Row, Channel, same_key, has_key, insert_rows}
use cryo_lab_telemetry.Store.World.{World}
use cryo_lab_telemetry.Store.Insert.Rows.{HasKeys, insert_rows-HasKeys}
use cryo_lab_telemetry.Store.Insert.Chunks.{rows_of}
use cryo_lab_telemetry.Values.{Time}
use cryo_lab_telemetry.Store.Reads.{Reads, InYears, channels}
use cryo_lab_telemetry.Store.Reads.Latest.{IsChannels, channels-IsChannels}
use cryo_lab_telemetry.Alert.Firing.{Formats}
use cryo_lab_telemetry.Api.Http.{Server, Response, write_json, channels_response}
use cryo_lab_telemetry.Api.Ingest.{IngestReading, ingest_batch}
use cryo_lab_telemetry.Api.Ingest.Stored.{tagged, ingest_batch-readings}
use cryo_lab_telemetry.Api.Ops.{handle_channels}

-- A key that is there is that of a stored row.
has_key-Memᴰ :
    (r : Row) (rows : List Row)
    → has_key r rows ≡ true
    → (y : Row) × Memᴰ y rows × (y.source ≡ r.source) × (y.metric ≡ r.metric) × (y.stamp ≡ r.stamp)
unfolding has_key same_key
has_key-Memᴰ r [] h = cc
has_key-Memᴰ r (x ∷ rows) h = elim (Bool-cases (same_key x r)) [
  | inl same ↦ (
    x,
    Memᴰ.head refl,
    ground (arith, text_eq_iff x.source r.source),
    ground (arith, text_eq_iff x.metric r.metric),
    eq_of_parts x.stamp r.stamp (ground arith),
  )
  | inr other ↦
      let (y, i, src, met, at) = has_key-Memᴰ r rows (ground arith) in
      (y, Memᴰ.tail i, src, met, at)
]

within : (t i last : Time) → (t <ℤ i +ℤ pos 1000) → i ≤ℤ last → (t <ℤ last +ℤ pos 1000)
within t i last h le = omega (arith, h, le, +ℤ_parts i (pos 1000), +ℤ_parts last (pos 1000))

-- The time of the reading is one that JSON can carry: of the years 0 to 9999.
abbrev pub IsDated : IngestReading → Type 0
IsDated b = InYears b.ts

module _ (w : World) (q : Reads w) where
  -- The reading is seen: its channel is among those answered, with a last time that is less than a
  -- microsecond earlier than its own, or no earlier.
  abbrev pub IsSeen : Text → List Channel → IngestReading → Type 0
  IsSeen source l b =
      (c : Channel) × Memᴰ c l
      × (c.source ≡ source)
      × (c.metric ≡ b.metric)
      × (b.ts <ℤ c.last_ts +ℤ pos 1000)

  seen :
      (source : Text) (bs : List IngestReading) (rows : List Row) (l : List Channel)
      → All IsDated bs
      → HasKeys (rows_of w (tagged source bs)) rows
      → IsChannels q.instant rows l
      → All (IsSeen source l) bs
  seen source [] rows l d h k = tt
  seen source (b ∷ bs) rows l (d, ds) (h, hs) k =
      let (y, i, src, met, at) = has_key-Memᴰ _ rows h in
      let (c, j, src', met', le) = k.every y i in
      (
        (
          c,
          j,
          src' ∙ src,
          met' ∙ met,
          within b.ts _ c.last_ts (q.instant_law b.ts d).0
              (subst (λ t. q.instant t ≤ℤ c.last_ts) at le),
        ),
        seen source bs rows l ds hs k,
      )

  pub handle_channels-read :
      (s : w.State) (l : List Channel)
      → (handle_channels w q s).0 ≡ write_json 200 (channels_response l)
      → (channels w q s).0 ≡ some l
  unfolding handle_channels
  handle_channels-read s l e = elim (Option-cases (channels w q s).0) [
    | inl lost ↦
        absurd (omega (arith, ap (λ (r : Response). r.status) (rw (lost, handle_channels) at e)))
    | inr (m, got) ↦
        got ∙ ap some (same m (ap (λ (r : Response). r.body) (rw (got, handle_channels) at e)))
  ]
    where
      same : (m : List Channel) → channels_response m ≡ channels_response l → m ≡ l
      same m h = cc

  -- Where a batch of readings of the years 0 to 9999 has been answered with 200, and the channels
  -- are read and answered with 200 while the stored readings are those that it left, each reading of
  -- the batch is seen: its source and metric are among the channels, at a time that is less than a
  -- microsecond earlier than its own, or no earlier.
  pub ingest_batch-handle_channels :
      (f : Formats) (srv : Server) (source : Text) (bs : List IngestReading) (s s' : w.State)
      (l : List Channel)
      → let h = ingest_batch w f srv source bs s in
        All IsDated bs
        → h.response.status ≡ 200
        → (w.tables s').readings ≡ (w.tables h.world).readings
        → (handle_channels w q s').0 ≡ write_json 200 (channels_response l)
        → All (IsSeen source l) bs
  ingest_batch-handle_channels f srv source bs s s' l dated ok same e =
      let read = channels-IsChannels w q s' l (handle_channels-read s' l e) in
      elim (ingest_batch-readings w f srv source bs s) [
        | inl (_, u) ↦
            let at : (w.tables s').readings
                ≡ insert_rows (rows_of w (tagged source bs)) (w.tables s).readings =
              same ∙ u in
            seen source bs (w.tables s').readings l dated
              (subst (HasKeys (rows_of w (tagged source bs))) (sym at)
                (insert_rows-HasKeys (rows_of w (tagged source bs)) (w.tables s).readings))
              read
        | inr (st, _, _) ↦ absurd (omega (arith, ok, st))
      ]
