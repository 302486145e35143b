-- ===== src/Metrics/Totals.antt =====
-- The total is the sum over the sources, whatever is recorded.
use cryo_lab_telemetry.Prelude.{
  ℕ, ◌^◌, ◌<◌, ◌≡◌, refl, sym, Text, text_eq, Map, lookup, insert, List, [], ◌∷◌, arith, Bool-cases,
  inl, inr,
}
use cryo_lab_telemetry.Values.{Time}
use cryo_lab_telemetry.Metrics.{
  Tracker, SourceStat, SourceSnapshot, or_zero, add64, new, record_ingest, snapshots, snapshot,
}

-- The rows of all sources in a snapshot, added up as int64s.
pub sum_rows : Map SourceSnapshot → ℕ
sum_rows [] = 0
sum_rows ((src, st) ∷ rest) = add64 st.rows_since_start (sum_rows rest)

-- One call of `RecordIngest`.
pub record Record : Type 0 where
  pub source : Text
  pub rows : ℕ
  pub now : Time

pub record_all : Tracker → List Record → Tracker
record_all t [] = t
record_all t (r ∷ rs) = record_all (record_ingest t r.source r.rows r.now) rs

sum_rows-lt : (m : Map SourceSnapshot) → sum_rows m < 2 ^ 64
unfolding sum_rows
sum_rows-lt [] = omega arith
sum_rows-lt ((src, st) ∷ rest) = omega arith

-- A new entry for a source takes the place of what the source had.
sum_rows-insert :
    (source : Text) (x : SourceStat) (m : Map SourceStat)
    → add64 (sum_rows (snapshots (insert source x m))) (or_zero (lookup source m)).rows
      ≡ add64 (sum_rows (snapshots m)) x.rows
unfolding sum_rows snapshots insert lookup
sum_rows-insert source x [] = omega arith
sum_rows-insert source x ((src, st) ∷ rest) = elim (Bool-cases (text_eq src source)) [
  | inl same ↦ rw same (omega arith)
  | inr other ↦ rw other (omega (arith, sum_rows-insert source x rest))
]

sum_rows-record :
    (old n before after : ℕ)
    → after < 2 ^ 64
    → add64 after old ≡ add64 before (add64 old n)
    → after ≡ add64 before n
sum_rows-record old n before after h e = omega arith

record_all-sum_from :
    (t : Tracker) (rs : List Record)
    → t.total ≡ sum_rows (snapshots t.per_source)
    → (record_all t rs).total ≡ sum_rows (snapshots (record_all t rs).per_source)
unfolding record_all record_ingest
record_all-sum_from t [] h = h
record_all-sum_from t (r ∷ rs) h = record_all-sum_from (record_ingest t r.source r.rows r.now) rs (
    rw h (
      sym
        (sum_rows-record old r.rows _ _ (sum_rows-lt _) (sum_rows-insert r.source _ t.per_source))))
  where
    old : ℕ
    old = (or_zero (lookup r.source t.per_source)).rows

-- From the start of the process, whatever has been recorded and also when a counter has wrapped,
-- the total of a snapshot is the sum, as int64, of the rows that it shows for the sources.
pub snapshot-total :
    (start now : Time) (rs : List Record)
    → let (_, total, sources) = snapshot (record_all (new start) rs) now in total ≡ sum_rows sources
unfolding snapshot new
snapshot-total start now rs = record_all-sum_from (new start) rs (unfold sum_rows snapshots in refl)
