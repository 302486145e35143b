-- ===== src/Store/Series.antt =====
-- The series queries of server/internal/store/store.go: which table or rollup answers a step.
pub mod Steps
use cryo_lab_telemetry.Prelude.{
  ℕ, Text, text, Option, none, some, List, [], ◌∷◌, ◌==◌, if◌then◌else◌,
}
use cryo_lab_telemetry.Prelude.Decimal.{atoi}
use cryo_lab_telemetry.Prelude.Int.{ℤ, pos, leb_ℤ, times, wrap64}
use cryo_lab_telemetry.Values.{Float64, Time}
use cryo_lab_telemetry.Store.Cursor.{Cursor, scan_rows}

pub record Bucket : Type 0 where
  pub ts : Time
  pub value : Float64

-- The two statements that read buckets, for a state of the world: each answers its rows, or fails.
-- The first text of a rollup is the view, and both take the step, the source, the metric and the
-- bounds of the range.
pub record SeriesQueries (S : Type 0) : Type 0 where
  pub raw : Text → Text → Text → Time → Time → S → Option (Cursor Bucket) × S
  pub rollup : Text → Text → Text → Text → Time → Time → S → Option (Cursor Bucket) × S

-- A text without its last character, and that character; the text is `c ∷ s`.
abbrev pub init_of : ℕ → Text → Text
init_of c [] = []
init_of c (d ∷ s) = c ∷ init_of d s

abbrev pub last_of : ℕ → Text → ℕ
last_of c [] = c
last_of c (d ∷ s) = last_of d s

in_seconds : ℤ → ℕ → ℤ
in_seconds n unit =
    if unit == b's'
    then n
    else if unit == b'm'
    then wrap64 (times n 60)
    else if unit == b'h'
    then wrap64 (times n 3600)
    else if unit == b'd'
    then wrap64 (times n 86400)
    else pos 0

-- stepSeconds
unfoldable pub step_seconds : Text → ℤ
unfolding in_seconds
step_seconds [] = pos 0
step_seconds (c ∷ []) = pos 0
step_seconds (c ∷ d ∷ s) = elim (atoi (init_of c (d ∷ s))) [
  | none ↦ pos 0
  | some n ↦ in_seconds n (last_of d s)
]

-- scanBuckets, behind the query
abbrev pub scan_buckets : {S : Type 0} → Option (Cursor Bucket) × S → Option (List Bucket) × S
scan_buckets (rows, s) = (scan_rows rows, s)

-- QuerySeries
unfoldable pub query_series :
    {S : Type 0} → SeriesQueries S → Text → Text → Time → Time → Text → S → Option (List Bucket) × S
query_series q source metric from to step s =
    let sec = step_seconds step in
    if leb_ℤ (pos 60) sec
    then scan_buckets (q.rollup (text "readings_1m") step source metric from to s)
    else if leb_ℤ (pos 1) sec
    then scan_buckets (q.rollup (text "readings_1s") step source metric from to s)
    else scan_buckets (q.raw step source metric from to s)
