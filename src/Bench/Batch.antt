-- ===== src/Bench/Batch.antt =====
-- The readings that the bench sends: `makeBatch` of bench/main.go. The counter `seq` is shared
-- by all producers; each reading takes its number from it by one atomic addition.
pub mod Fresh
use cryo_lab_telemetry.Prelude.{
  ℕ, suc, ◌*◌, ◌%◌, Text, Option, none, some, List, [], ◌∷◌, Bool, true, false, leb,
}
use cryo_lab_telemetry.Prelude.Int.{pos, ◌+ℤ◌}
use cryo_lab_telemetry.Values.{Float64, Time}
use cryo_lab_telemetry.Store.Data.{Reading}

-- what the closure of a call of makeBatch has
pub record Producer : Type 0 where
  pub source : Text
  pub metric : Text
  pub epoch : Time

-- The reading with the number `s`; `float` is float64(n).
unfoldable pub reading_at : (ℕ → Float64) → Producer → ℕ → Reading
reading_at float p s = record {
  source = p.source;
  metric = p.metric;
  ts = p.epoch +ℤ pos (s * 1000);
  value = float (s % 1000);
}

-- The readings that are made while the counter is at `seq`, by the producers in the order of their
-- additions, each under the producer that made it.
pub generate : (ℕ → Float64) → List Producer → ℕ → List Reading
generate float [] seq = []
generate float (p ∷ ps) seq = reading_at float p (suc seq) ∷ generate float ps (suc seq)

-- whether a request has failed, for the status of its response
unfoldable pub has_failed : Option ℕ → Bool
has_failed none = true
has_failed (some status) = leb 300 status
