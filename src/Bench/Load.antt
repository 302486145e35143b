-- ===== src/Bench/Load.antt =====
-- `runLoad` of bench/main.go: workers that share a counter and the statistics, interleaved in any
-- order. Each step is one access to what they share.
pub mod Counts
pub mod Runs
pub mod Ends
use cryo_lab_telemetry.Prelude.{
  ℕ, zero, suc, ◌+◌, ◌≤◌, ◌<◌, ◌≡◌, List, [], ◌∷◌, ◌++◌, Bool, true, false, if◌then◌else◌,
}
use cryo_lab_telemetry.Prelude.Int.{ℤ, ◌≤ℤ◌, ◌-ℤ◌}
use cryo_lab_telemetry.Values.{Time}

-- latencyStats; a sample is a duration in nanoseconds
pub record LatencyStats : Type 0 where
  pub samples : List ℤ
  pub ok : ℕ
  pub errs : ℕ

-- Where a worker stands, with the local variables that are live there.
pub data Pc : Type 0 where
  -- at the head of the loop
  idle : Pc
  -- with the index of a request, before `send`
  holding : ℕ → Pc
  -- in `add`, with the latency and whether `send` returned an error, before the append
  answered : ℤ → Bool → Pc
  -- in `add`, before the atomic addition
  appended : Bool → Pc
  done : Pc

-- `sent` is the log of the calls of `send`, the latest first.
pub record Load : Type 0 where
  pub next : ℕ
  pub sent : List ℕ
  pub stats : LatencyStats
  pub workers : List Pc

unfoldable pub idle_workers : ℕ → List Pc
idle_workers zero = []
idle_workers (suc n) = idle ∷ idle_workers n

-- before the first step of any worker
unfoldable pub start_load : ℕ → Load
start_load concurrency = record {
  next = 0;
  sent = [];
  stats = record { samples = []; ok = 0; errs = 0 };
  workers = idle_workers concurrency;
}

-- the append under the lock
abbrev pub append_sample : LatencyStats → ℤ → LatencyStats
append_sample stats d = record stats { samples = stats.samples ++ d ∷ [] }

-- the atomic addition behind it
abbrev pub count_result : LatencyStats → Bool → LatencyStats
count_result stats true = record stats { errs = stats.errs + 1 }
count_result stats false = record stats { ok = stats.ok + 1 }

-- One step of one worker, the others staying where they are. The times that requests are scheduled
-- at are those of `start.Add(i / rate)`.
pub data Step (total : ℕ) (scheduled : ℕ → Time) (s t : Load) : Type 0 where
  -- i := int(atomic.AddInt64(&next, 1)) - 1
  take :
      (before after : List Pc)
      → s.workers ≡ before ++ idle ∷ after
      → s.next < total
      → t ≡ record s { next = s.next + 1; workers = before ++ holding s.next ∷ after }
      → Step total scheduled s t
  -- the same, where i >= total
  stop :
      (before after : List Pc)
      → s.workers ≡ before ++ idle ∷ after
      → total ≤ s.next
      → t ≡ record s { next = s.next + 1; workers = before ++ done ∷ after }
      → Step total scheduled s t
  -- the sleep until the scheduled time, and send(i)
  send :
      (before after : List Pc) (i : ℕ) (begun returned : Time) (failed : Bool)
      → s.workers ≡ before ++ holding i ∷ after
      → scheduled i ≤ℤ begun
      → begun ≤ℤ returned
      → t ≡ record s {
        sent = i ∷ s.sent;
        workers = before ++ answered (returned -ℤ scheduled i) failed ∷ after;
      }
      → Step total scheduled s t
  append :
      (before after : List Pc) (d : ℤ) (failed : Bool)
      → s.workers ≡ before ++ answered d failed ∷ after
      → t
        ≡ record s { stats = append_sample s.stats d; workers = before ++ appended failed ∷ after }
      → Step total scheduled s t
  count :
      (before after : List Pc) (failed : Bool)
      → s.workers ≡ before ++ appended failed ∷ after
      → t ≡ record s { stats = count_result s.stats failed; workers = before ++ idle ∷ after }
      → Step total scheduled s t

-- A run of `k` steps from the start, with `concurrency` workers.
pub data Run (total : ℕ) (scheduled : ℕ → Time) (concurrency : ℕ) : ℕ → Load → Type 0 where
  begin : Run total scheduled concurrency 0 (start_load concurrency)
  next :
      {k : ℕ} {s t : Load}
      → Run total scheduled concurrency k s
      → Step total scheduled s t
      → Run total scheduled concurrency (suc k) t
