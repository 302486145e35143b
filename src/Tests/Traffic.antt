-- ===== src/Tests/Traffic.antt =====
-- The modes of the bench against the server, at concrete inputs.
use mathlib.Core.List.{Memᴰ}
use cryo_lab_telemetry.Prelude.{
  ℕ, ◌+◌, ◌*◌, ◌≤◌, ◌≡◌, ◌≢◌, refl, Text, text, text_eq, none, some, [], ◌∷◌, arith,
}
use cryo_lab_telemetry.Prelude.Int.{ℤ, pos, negsuc, ◌+ℤ◌}
use cryo_lab_telemetry.Values.{Float64, finite, Time}
use cryo_lab_telemetry.Store.Data.{has_key, Row}
use cryo_lab_telemetry.Store.Reads.{total_rows}
use cryo_lab_telemetry.Auth.{source_for_token, match_token, constant_time_compare}
use cryo_lab_telemetry.Metrics.{new}
use cryo_lab_telemetry.Api.Ops.{handle_metrics}
use cryo_lab_telemetry.Bench.Load.{LatencyStats}
use cryo_lab_telemetry.Bench.Batch.{Producer, has_failed}
use cryo_lab_telemetry.Bench.Report.{Arithmetic, ingest_report}
use cryo_lab_telemetry.Bench.Read.{hours, to_read, discover_channels, metrics_of_source}
use cryo_lab_telemetry.Bench.Read.Accepted.{Rfc3339, whole, IsRead}
use cryo_lab_telemetry.Bench.Read.After.{History-IsRead}
use cryo_lab_telemetry.Api.Router.{serve}
use cryo_lab_telemetry.Api.Router.Histories.{wait}
use cryo_lab_telemetry.Bench.Traffic.{
  Traffic, start_traffic, posted, noted, handled_by, Step, number, status_of, Run, begin, next,
}
use cryo_lab_telemetry.Bench.Traffic.Delta.{scrape, Run-delta}
use cryo_lab_telemetry.Tests.Memory.{Mem, memory, stamp_of, formats, lab, temp, start, server}
use cryo_lab_telemetry.Tests.Router.{
  memory_reads, setup, stocked, sample_channel, sample-read, post, after_post, post-stocked,
}

one_code : (t : Time) → elim (whole t) as (λ _. Text) [ pos n ↦ n ∷ [] | negsuc n ↦ 0 ∷ [] ] ≢ []
one_code (pos n) e = cc
one_code (negsuc n) e = cc

-- Whole numbers in place of floats.
abbrev whole_numbers : Arithmetic
whole_numbers = record {
  floats = record { Float = ℤ; of_int = λ n. pos n; div = λ a b. a; mul = λ a b. a; ceil = λ x. x };
  of_int64 = λ n. n;
  half = pos 0;
  add = λ a b. a;
  truncate = λ x. x;
  seconds = λ d. d;
}

micros : (t : ℤ) (j k : ℕ) → stamp_of (t +ℤ pos (j * 1000)) ≡ stamp_of (t +ℤ pos (k * 1000)) → j ≡ k
unfolding ◌+ℤ◌
micros (pos n) j k h = ground arith
micros (negsuc n) j k h = ground arith

abbrev zeroes : ℕ → Float64
zeroes n = finite (pos 0)

abbrev producer : Producer
producer = record { source = lab; metric = text "bench"; epoch = pos 5 }

abbrev at_start : Traffic Mem
at_start = start_traffic 1 0 server (handle_metrics memory memory_reads setup.clock server start).1

-- the worker has numbered its only reading
abbrev numbered : Traffic Mem
numbered = record at_start { seq = 1; batches = (1 ∷ []) ∷ [] }

-- and the server has handled it
abbrev done : Traffic Mem
done =
    let h = posted memory formats zeroes producer (text "secret") 1 (1 ∷ []) numbered in
    handled_by memory formats zeroes producer (text "secret") 1 h (
      noted memory formats zeroes producer (text "secret") 1
        (has_failed (status_of memory formats zeroes producer (text "secret") 1 h)) ([] ∷ [])
        numbered)

one_request : Run memory formats zeroes producer (text "secret") 1 at_start done
one_request =
    next (next begin (number [] [] [] refl (omega arith) refl))
      (Step.answered [] [] (1 ∷ []) refl refl refl)

abbrev results : LatencyStats
results = record { samples = pos 7 ∷ []; ok = done.ok; errs = done.errs }

rows-counted : (s : Mem) → (total_rows memory memory_reads s).0 ≢ none
unfolding total_rows
rows-counted s e = cc

Run-delta_example :
    let r =
      ingest_report whole_numbers
        (pos 1)
        1
        (done.ok + done.errs)
        (pos 9)
        results
        (scrape memory memory_reads setup.clock server start)
        (scrape memory memory_reads setup.clock done.server done.world) in
    (landed : ℕ) × (r.db_rows_delta ≡ pos landed)
    × (1 * r.ok ≤ landed)
    × (landed ≤ 1 * r.requests_sent)
    × (r.errors ≡ 0 → landed ≡ 1 * r.requests_sent)
unfolding source_for_token match_token has_key constant_time_compare text_eq new
Run-delta_example =
    Run-delta memory memory_reads setup.clock whole_numbers formats zeroes producer (text "secret")
      lab 1 micros 1 0 server start done results (pos 1) (pos 9) (done.ok + done.errs) refl tt
      (λ k h. refl) (rows-counted start) one_request (rows-counted done.world) refl refl refl

-- A time is written as its whole seconds, in one code point.
abbrev code_points : Rfc3339
code_points = record {
  format = λ t. elim (whole t) [ pos n ↦ n ∷ [] | negsuc n ↦ 0 ∷ [] ];
  parse = λ v. elim v [ [] ↦ none | c ∷ _ ↦ some (pos c) ];
  written = one_code;
  read_back = λ n h. refl;
}

nothing_stored : (r : Row) → Memᴰ r start.readings → r.metric ≢ []
nothing_stored r i = elim i [ ]

History-IsRead_example :
    IsRead memory memory_reads code_points stocked start [] [] lab temp (hours 24) (hours 1000)
unfolding to_read discover_channels metrics_of_source text_eq new
History-IsRead_example =
    History-IsRead setup server start tt tt nothing_stored code_points
      (serve setup post server start).server stocked start (sample_channel ∷ []) [] [] lab temp
      (temp ∷ []) (hours 24) (hours 1000) (wait after_post stocked post-stocked) sample-read refl
      (Memᴰ.head refl) (Memᴰ.tail (Memᴰ.head refl)) (omega arith) (omega arith)
