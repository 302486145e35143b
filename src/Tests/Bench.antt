-- ===== src/Tests/Bench.antt =====
-- The bench at concrete inputs.
use cryo_lab_telemetry.Prelude.{
  ℕ, ◌+◌, ◌-◌, ◌*◌, ◌/◌, ◌≤◌, ◌<◌, ◌≡◌, refl, List, [], ◌∷◌, false, ◌&&◌, ltb, if◌then◌else◌, arith,
  count, All,
}
use cryo_lab_telemetry.Prelude.Int.{ℤ, pos, negsuc, ◌+ℤ◌, leb_ℤ, ◌-ℤ◌}
use cryo_lab_telemetry.Bench.Load.{
  Load, LatencyStats, Pc, idle, holding, answered, appended, done, start_load, idle_workers, Step,
  take, stop, send, append, Run, begin, next,
}
use cryo_lab_telemetry.Bench.Load.Counts.{occurs}
use cryo_lab_telemetry.Bench.Load.Ends.{Run-le, Run-complete}
use cryo_lab_telemetry.Bench.Percentile.{
  Floats, insert_sample, sort_samples, position, at_position, pct,
}
use cryo_lab_telemetry.Bench.Percentile.Ranks.{pct-rank}
use cryo_lab_telemetry.Bench.Merge.{Merge, Run as MergeRun}
use cryo_lab_telemetry.Bench.Merge.Bounds.{IsAdded}
use cryo_lab_telemetry.Bench.Merge.Lost.{merge-lost}
use cryo_lab_telemetry.Prelude.{Text, text}
use cryo_lab_telemetry.Values.{Float64, finite}
use cryo_lab_telemetry.Store.Data.{new_rows, has_key}
use cryo_lab_telemetry.Bench.Batch.{Producer}
use cryo_lab_telemetry.Bench.Batch.Fresh.{AllAgree, rows_made, new_rows-generate}
use cryo_lab_telemetry.Tests.Memory.{memory, stamp_of, lab}

abbrev at_zero : ℕ → ℤ
at_zero i = pos 0

-- after k steps of one worker on one request
abbrev stage : ℕ → ℕ → List ℕ → List ℤ → ℕ → Pc → Load
stage k taken sent samples ok p = record {
  next = taken;
  sent = sent;
  stats = record { samples = samples; ok = ok; errs = 0 };
  workers = p ∷ [];
}

one_request : Run 1 at_zero 1 5 (stage 5 2 (0 ∷ []) (pos 7 ∷ []) 1 done)
unfolding start_load idle_workers ◌-ℤ◌
one_request =
    let r1 : Run 1 at_zero 1 1 (stage 1 1 [] [] 0 (holding 0)) =
      next begin (take [] [] refl (omega arith) refl) in
    let r2 : Run 1 at_zero 1 2 (stage 2 1 (0 ∷ []) [] 0 (answered (pos 7) false)) =
      next r1 (send [] [] 0 (pos 0) (pos 7) false refl (omega arith) (omega arith) refl) in
    let r3 : Run 1 at_zero 1 3 (stage 3 1 (0 ∷ []) (pos 7 ∷ []) 0 (appended false)) =
      next r2 (append [] [] (pos 7) false refl refl) in
    let r4 : Run 1 at_zero 1 4 (stage 4 1 (0 ∷ []) (pos 7 ∷ []) 1 idle) =
      next r3 (Step.count [] [] false refl refl) in
    next r4 (stop [] [] refl (omega arith) refl)

abbrev ended : Load
ended = stage 5 2 (0 ∷ []) (pos 7 ∷ []) 1 done

Run-le_example : (5 ≤ 5) × (5 < 5 → (t : Load) × Step 1 at_zero ended t)
Run-le_example = Run-le 1 1 5 at_zero ended (omega arith) one_request

Run-complete_example :
    ((i : ℕ) → occurs i (0 ∷ []) ≡ (if ltb i 1 then 1 else 0))
    × (◌≡◌ {A = ℕ} 1 1)
    × (◌≡◌ {A = ℕ} 1 1)
    × (◌≡◌ {A = ℕ} 5 5)
Run-complete_example = Run-complete 1 1 5 at_zero ended (omega arith) one_request (refl, tt)

-- Exact numbers in place of floats: a quotient by 100 is kept as its numerator until it is
-- rounded up.
abbrev exact : Floats
exact = record {
  Float = ℕ;
  of_int = λ n. n;
  div = λ a b. a;
  mul = λ a b. a * b;
  ceil = λ x. pos ((x + 99) / 100);
}

abbrev samples : List ℤ
samples = pos 30 ∷ pos 10 ∷ pos 20 ∷ []

pct-rank_example :
    (◌≤◌ 1 2)
    × (◌≤◌ 2 3)
    × (2 ≤ count (λ e. leb_ℤ e (pos 20)) samples)
    × (3 - 2 + 1 ≤ count (λ e. leb_ℤ (pos 20) e) samples)
    × (1 ≤ count (λ e. leb_ℤ (pos 20) e && leb_ℤ e (pos 20)) samples)
unfolding pct insert_sample sort_samples position at_position ◌-ℤ◌
pct-rank_example = pct-rank exact (pos 30) (pos 10 ∷ pos 20 ∷ []) 50

abbrev with_ok : ℕ → LatencyStats
with_ok n = record { samples = []; ok = n; errs = 1 }

merge-lost_example :
    (s : Merge) × MergeRun (with_ok 3 ∷ with_ok 5 ∷ []) s
    × All IsAdded s.producers
    × (s.merged.ok ≡ 5)
    × (s.merged.errs ≡ 2)
merge-lost_example = merge-lost (with_ok 3) (with_ok 5)

micros : (t : ℤ) (j k : ℕ) → stamp_of (t +ℤ pos (j * 1000)) ≡ stamp_of (t +ℤ pos (k * 1000)) → j ≡ k
unfolding ◌+ℤ◌
micros (pos n) j k h = ground arith
micros (negsuc n) j k h = ground arith

abbrev zeroes : ℕ → Float64
zeroes n = finite (pos 0)

abbrev producer : Text → ℕ → Producer
producer source n = record { source = source; metric = text "bench"; epoch = pos n }

abbrev three_takes : List Producer
three_takes = producer lab 5 ∷ producer (text "lab2") 7 ∷ producer lab 5 ∷ []

three_agree : AllAgree memory zeroes micros three_takes
three_agree = (
  ((λ e. absurd (ground arith)), ((λ e. refl), tt)),
  (((λ e. absurd (ground arith)), tt), (tt, tt)),
)

new_rows-generate_example : new_rows (rows_made memory zeroes micros three_takes 4) [] ≡ 3
unfolding has_key
new_rows-generate_example =
    new_rows-generate memory zeroes micros three_takes 4 [] three_agree (refl, (refl, (refl, tt)))
