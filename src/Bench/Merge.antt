-- ===== src/Bench/Merge.antt =====
-- The merge of the producers' statistics in cmdProducers of bench/commands.go: the samples are
-- appended under the lock, the counts are added after it is released. A thread's `+=` is a load
-- and a store, and the threads' steps interleave in any order.
pub mod Bounds
pub mod Lost
use cryo_lab_telemetry.Prelude.{ℕ, ◌+◌, ◌≡◌, List, [], ◌∷◌, ◌++◌}
use cryo_lab_telemetry.Bench.Load.{LatencyStats}

-- Where a producer's thread stands, with its own statistics `st`.
pub data Pc : Type 0 where
  -- back from runLoad
  measured : LatencyStats → Pc
  -- has appended its samples
  appended : LatencyStats → Pc
  -- has read merged.ok
  read_ok : LatencyStats → ℕ → Pc
  -- has written merged.ok
  added_ok : LatencyStats → Pc
  -- has read merged.errs
  read_errs : LatencyStats → ℕ → Pc
  -- has written merged.errs, and is done
  added : LatencyStats → Pc

pub record Merge : Type 0 where
  pub merged : LatencyStats
  pub producers : List Pc

abbrev pub measured_all : List LatencyStats → List Pc
measured_all [] = []
measured_all (st ∷ sts) = measured st ∷ measured_all sts

unfoldable pub start_merge : List LatencyStats → Merge
start_merge sts = record {
  merged = record { samples = []; ok = 0; errs = 0 };
  producers = measured_all sts;
}

-- One access of one producer to the merged statistics, as a change of both.
pub data Access (m : LatencyStats) : Pc → LatencyStats → Pc → Type 0 where
  -- merged.samples = append(merged.samples, st.samples...), under the lock
  append :
      (st : LatencyStats)
      → Access m (measured st) (record m { samples = m.samples ++ st.samples }) (appended st)
  -- merged.ok += st.ok
  load_ok : (st : LatencyStats) → Access m (appended st) m (read_ok st m.ok)
  store_ok :
      (st : LatencyStats) (old : ℕ)
      → Access m (read_ok st old) (record m { ok = old + st.ok }) (added_ok st)
  -- merged.errs += st.errs
  load_errs : (st : LatencyStats) → Access m (added_ok st) m (read_errs st m.errs)
  store_errs :
      (st : LatencyStats) (old : ℕ)
      → Access m (read_errs st old) (record m { errs = old + st.errs }) (added st)

-- A run: each step is an access of one producer, the others staying where they are.
pub data Run (sts : List LatencyStats) : Merge → Type 0 where
  begin : Run sts (start_merge sts)
  next :
      {s t : Merge} {m : LatencyStats}
      → Run sts s
      → (before after : List Pc) (p q : Pc) → Access s.merged p m q
      → s.producers ≡ before ++ p ∷ after
      → t ≡ record { merged = m; producers = before ++ q ∷ after }
      → Run sts t
