-- ===== src/Bench/Traffic/Delta.antt =====
-- What cmdIngest reports to have landed in the database.
use mathlib.Core.List.{append-nil}
use cryo_lab_telemetry.Prelude.Weights.{weigh}
use cryo_lab_telemetry.Bench.Load.Counts.{occurs}
use cryo_lab_telemetry.Prelude.{
  [], ◌++◌, ℕ, ◌+◌, ◌-◌, ◌*◌, ◌≤◌, ◌<◌, ◌≡◌, ◌≢◌, refl, ap, ◌∙◌, inl, inr, Text, IsMap, some, none,
  length, false, arith,
}
use cryo_lab_telemetry.Prelude.Int.{ℤ, pos, ◌-ℤ◌, -ℤ_parts, eq_of_parts}
use cryo_lab_telemetry.Values.{Float64}
use cryo_lab_telemetry.Store.Data.{Tables, has_key}
use cryo_lab_telemetry.Store.World.{World}
use cryo_lab_telemetry.Store.Reads.{Reads, total_rows}
use cryo_lab_telemetry.Alert.Firing.{Formats}
use cryo_lab_telemetry.Auth.{source_for_token}
use cryo_lab_telemetry.Api.Http.{Server, Response}
use cryo_lab_telemetry.Api.Ops.{Clock, handle_metrics}
use cryo_lab_telemetry.Api.Ops.Telemetry.{metrics_lem, handle_metrics-tables}
use cryo_lab_telemetry.Bench.Batch.{Producer}
use cryo_lab_telemetry.Bench.Load.{LatencyStats}
use cryo_lab_telemetry.Bench.Report.{Arithmetic, Scraped, answered, db_total_rows, ingest_report}
use cryo_lab_telemetry.Bench.Traffic.{Traffic, start_traffic, no_batches, Run}
use cryo_lab_telemetry.Bench.Traffic.Numbers.{KeepsMicros, row}
use cryo_lab_telemetry.Bench.Traffic.Owned.{start-Owned, Owned-same}
use cryo_lab_telemetry.Bench.Traffic.Landed.{Inv, Run-Inv}

delta :
    (after before : Scraped) (new old : ℕ)
    → db_total_rows after ≡ pos new
    → db_total_rows before ≡ pos old
    → old ≤ new
    → db_total_rows after -ℤ db_total_rows before ≡ pos (new - old)
delta after before new old a b h =
    rw (a, b) (eq_of_parts _ _ (omega (arith, h, -ℤ_parts (pos new) (pos old))))

module _ (w : World) (q : Reads w) (clock : Clock) where
  open w use {State, tables}

  -- a scrape of the server's /metrics whose response arrives
  abbrev pub scrape : Server → State → Scraped
  scrape srv s = answered (handle_metrics w q clock srv s).0.body

  db_total_rows-scrape :
      (srv : Server) (s : State)
      → IsMap srv.metrics.per_source
      → (total_rows w q s).0 ≢ none
      → db_total_rows (scrape srv s) ≡ pos (length (tables s).readings)
  unfolding db_total_rows
  db_total_rows-scrape srv s h counted =
      let (resp, e, _, _, totals, _) = metrics_lem w q clock srv s h in
      elim totals [
        | inl (_, n) ↦ ap (λ (r : Response). db_total_rows (answered r.body)) e ∙ ap pos n
        | inr (lost, _) ↦ absurd (counted lost)
      ]

  module _ (a : Arithmetic) (f : Formats) (float : ℕ → Float64) (p : Producer) (token source : Text)
      (n : ℕ) (micros : KeepsMicros w) where
    landed-Inv :
        (concurrency seq : ℕ) (srv0 : Server) (s0 : State) (t : Traffic State)
        → (known : source_for_token srv0.tokens token ≡ some source) → IsMap srv0.metrics.per_source
        → ((k : ℕ) → seq < k → has_key (row w float p source k) (tables s0).readings ≡ false)
        → Run w f float p token n
            (start_traffic concurrency seq srv0 (handle_metrics w q clock srv0 s0).1)
            t
        → Inv w f float p token source n micros srv0 (length (tables s0).readings) known t
    landed-Inv concurrency seq srv0 s0 t known counters unseen run =
        let kept : (tables (handle_metrics w q clock srv0 s0).1).readings ≡ (tables s0).readings =
          ap (λ (u : Tables). u.readings) (handle_metrics-tables w q clock srv0 s0) in
        Run-Inv w f float p token source n micros srv0 (length (tables s0).readings) known _ t
          (record {
            own =
                Owned-same w float p source micros seq (no_batches concurrency)
                  (no_batches concurrency ++ []) _
                  (λ k. ap (weigh (occurs k)) (append-nil (no_batches concurrency)))
                  (start-Owned w float p source micros seq concurrency _
                    (λ k h. ap (has_key (row w float p source k)) kept ∙ unseen k h));
            same = (refl, refl, counters);
            least = omega (arith, ap length kept);
            most = omega (arith, ap length kept);
          })
          run

    -- Where the database keeps whole microseconds apart, the token speaks for a source, no
    -- reading with a number above the counter is stored, nobody else adds readings, and the rows
    -- can be counted before and after: however the workers' steps, the requests and the server's
    -- other work interleave, and whatever requests fail, arrive late or never, the reported change of the rows is at least as
    -- many as the batches answered with a success have readings, and at most as many as all
    -- batches sent have; without an error it is exactly the readings sent.
    pub Run-delta :
        (concurrency seq : ℕ) (srv0 : Server) (s0 : State) (t : Traffic State)
        (stats : LatencyStats) (rate : a.floats.Float) (wall : ℤ) (total : ℕ)
        → source_for_token srv0.tokens token ≡ some source
        → IsMap srv0.metrics.per_source
        → ((k : ℕ) → seq < k → has_key (row w float p source k) (tables s0).readings ≡ false)
        → (total_rows w q s0).0 ≢ none
        → Run w f float p token n
            (start_traffic concurrency seq srv0 (handle_metrics w q clock srv0 s0).1)
            t
        → (total_rows w q t.world).0 ≢ none
        → stats.ok ≡ t.ok
        → stats.errs ≡ t.errs
        → total ≡ t.ok + t.errs
        → let r =
            ingest_report a rate n total wall stats (scrape srv0 s0) (scrape t.server t.world) in
          (landed : ℕ) × (r.db_rows_delta ≡ pos landed)
          × (n * r.ok ≤ landed)
          × (landed ≤ n * r.requests_sent)
          × (r.errors ≡ 0 → landed ≡ n * r.requests_sent)
    unfolding ingest_report
    Run-delta concurrency seq srv0 s0 t stats rate wall total known counters unseen before run after
          ok errs sent =
        let inv = landed-Inv concurrency seq srv0 s0 t known counters unseen run in
        let old = length (tables s0).readings in
        let new = length (tables t.world).readings in
        let whole : n * total ≡ n * (t.ok + t.errs) = ap (λ (k : ℕ). n * k) sent in
        let good : n * stats.ok ≡ n * t.ok = ap (λ (k : ℕ). n * k) ok in
        (
          new - old,
          delta (scrape t.server t.world) (scrape srv0 s0) new old
              (db_total_rows-scrape t.server t.world inv.same.2 after)
              (db_total_rows-scrape srv0 s0 counters before) (omega (arith, inv.least)),
          omega (arith, inv.least, good),
          omega (arith, inv.most, whole),
          λ none_lost.
              let all : n * t.ok ≡ n * (t.ok + t.errs) =
                ap (λ (k : ℕ). n * k) (omega (arith, none_lost, errs)) in
              omega (arith, inv.least, inv.most, whole, all),
        )
