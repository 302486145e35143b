-- ===== src/Metrics/Sources.antt =====
-- The sources of a snapshot.
use cryo_lab_telemetry.Prelude.{
  ◌≡◌, refl, Text, text_eq, Map, IsMap, lookup, insert-IsMap, Option, none, some, [], ◌∷◌,
  Bool-cases, inl, inr,
}
use cryo_lab_telemetry.Prelude.{ℕ, ◌∙◌, ap}
use cryo_lab_telemetry.Values.{Time}
use cryo_lab_telemetry.Metrics.{
  SourceStat, SourceSnapshot, source_snapshot, snapshots, Tracker, record_ingest,
}

abbrev pub snapshot_of : Option SourceStat → Option SourceSnapshot
snapshot_of none = none
snapshot_of (some st) = some (source_snapshot st)

pub lookup-snapshots :
    (m : Map SourceStat) (src : Text) → lookup src (snapshots m) ≡ snapshot_of (lookup src m)
unfolding lookup snapshots
lookup-snapshots [] src = refl
lookup-snapshots ((k, st) ∷ m) src = elim (Bool-cases (text_eq k src)) [
  | inl same ↦ rw same refl
  | inr other ↦ rw other (lookup-snapshots m src)
]

pub snapshots-IsMap : (m : Map SourceStat) → IsMap m → IsMap (snapshots m)
unfolding snapshots
snapshots-IsMap [] h = tt
snapshots-IsMap ((k, st) ∷ m) (fresh, h) =
    (lookup-snapshots m k ∙ ap snapshot_of fresh, snapshots-IsMap m h)

pub record_ingest-IsMap :
    (t : Tracker) (source : Text) (n : ℕ) (now : Time)
    → IsMap t.per_source
    → IsMap (record_ingest t source n now).per_source
unfolding record_ingest
record_ingest-IsMap t source n now h = insert-IsMap source _ t.per_source h
