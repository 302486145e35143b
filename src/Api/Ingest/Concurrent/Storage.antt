-- ===== src/Api/Ingest/Concurrent/Storage.antt =====
-- What calls of handleIngest that run at the same time have stored and counted.
use mathlib.Core.Path.{subst}
use cryo_lab_telemetry.Prelude.{
  ℕ, ◌+◌, ◌%◌, ◌^◌, ◌≤◌, ◌<◌, ◌≡◌, refl, sym, ap, List, [], ◌∷◌, map, length, All, arith,
}
use cryo_lab_telemetry.Prelude.Weights.{weigh}
use cryo_lab_telemetry.Store.Data.{Reading, Row}
use cryo_lab_telemetry.Store.World.{World}
use cryo_lab_telemetry.Store.Insert.Rows.{IsUnique, HasKeys}
use cryo_lab_telemetry.Store.Insert.Chunks.{rows_of}
use cryo_lab_telemetry.Store.Insert.Interleaved.Rounds.{counted, failures, Held}
use cryo_lab_telemetry.Alert.Firing.{Formats}
use cryo_lab_telemetry.Api.Ingest.Concurrent.{
  Pc, inserting, inserted, checking, decided, firing, logging, answered, failed, Core, Shared, Run,
  begin, arrive, move, reload, elsewhere,
}
use cryo_lab_telemetry.Api.Ingest.Concurrent.Calls.{
  call_of, recorded, weigh-recorded-le, Stored, Move-Stored, Counts, Move-Counts,
}

module _ (w : World) (f : Formats) where
  open w use {State, tables}

  -- The storage and the counters of a run.
  record IsStored (start : Core State) (s : Shared w f) : Type 0 where
    stored :
        Stored w f (length (tables start.world).readings) (tables s.core.world).readings s.calls
    counts : Counts w f start.metrics.total s.core.metrics.total s.calls

  Run-IsStored :
      (start : Core State) (s : Shared w f)
      → IsUnique (tables start.world).readings
      → start.metrics.total < 2 ^ 64
      → Run w f start s
      → IsStored start s
  Run-IsStored start s keys fits begin = record {
    stored = record { unique = keys; low = omega arith; high = omega arith; held = tt };
    counts = omega (arith, fits);
  }
  Run-IsStored start s keys fits (arrive run source rs) =
      let h = Run-IsStored start _ keys fits run in
      record {
        stored = record {
          unique = h.stored.unique;
          low = omega (arith, h.stored.low);
          high = omega (arith, h.stored.high);
          held = (tt, h.stored.held);
        };
        counts = omega (arith, h.counts);
      }
  Run-IsStored start s keys fits (move {s = r} run before after p q mv at e) =
      let h = Run-IsStored start r keys fits run in
      rw e (record {
        stored = Move-Stored w f _ r.core _ p q r.calls before after h.stored at mv;
        counts = Move-Counts w f _ r.core _ p q r.calls before after h.counts at mv;
      })
  Run-IsStored start s keys fits (reload run thresholds limit) =
      let h = Run-IsStored start _ keys fits run in record { stored = h.stored; counts = h.counts }
  Run-IsStored start s keys fits (elsewhere {s = r} run world same logged) =
      let h = Run-IsStored start r keys fits run in
      record {
        stored =
            subst (λ rows. Stored w f (length (tables start.world).readings) rows r.calls)
              (sym same) h.stored;
        counts = h.counts;
      }

  -- The readings of a call that has answered 200 are stored.
  abbrev pub HasStored : List Row → Pc → Type 0
  HasStored rows (answered rs n) = HasKeys (rows_of w rs) rows
  HasStored rows (inserting source rs start n) = Unit
  HasStored rows (inserted source rs n) = Unit
  HasStored rows (checking rs n todo) = Unit
  HasStored rows (decided rs n todo r t) = Unit
  HasStored rows (firing rs n todo r e) = Unit
  HasStored rows (logging rs n todo r e notified) = Unit
  HasStored rows (failed rs n) = Unit

  Held-HasStored :
      (rows : List Row) (calls : List Pc)
      → All (Held w rows) (map call_of calls)
      → All (HasStored rows) calls
  Held-HasStored rows [] h = tt
  Held-HasStored rows (answered rs n ∷ calls) (h, hs) = (h, Held-HasStored rows calls hs)
  Held-HasStored rows (inserting source rs start n ∷ calls) (h, hs) =
      (tt, Held-HasStored rows calls hs)
  Held-HasStored rows (inserted source rs n ∷ calls) (h, hs) = (tt, Held-HasStored rows calls hs)
  Held-HasStored rows (checking rs n todo ∷ calls) (h, hs) = (tt, Held-HasStored rows calls hs)
  Held-HasStored rows (decided rs n todo r t ∷ calls) (h, hs) = (tt, Held-HasStored rows calls hs)
  Held-HasStored rows (firing rs n todo r e ∷ calls) (h, hs) = (tt, Held-HasStored rows calls hs)
  Held-HasStored rows (logging rs n todo r e notified ∷ calls) (h, hs) =
      (tt, Held-HasStored rows calls hs)
  Held-HasStored rows (failed rs n ∷ calls) (h, hs) = (tt, Held-HasStored rows calls hs)

  -- a call that has answered 200
  abbrev pub IsAnswered : Pc → Type 0
  IsAnswered p = (rs : List Reading) × (n : ℕ) × (p ≡ answered rs n)

  all_recorded :
      (calls : List Pc)
      → All IsAnswered calls
      → (weigh counted (map call_of calls) ≡ weigh recorded calls)
        × (weigh failures (map call_of calls) ≡ 0)
  all_recorded [] h = (refl, refl)
  all_recorded (p ∷ calls) ((rs, n, e), hs) =
      let (c, none_failed) = all_recorded calls hs in
      (
        omega (arith, c, ap (λ (q : Pc). counted (call_of q)) e, ap recorded e),
        omega (arith, none_failed, ap (λ (q : Pc). failures (call_of q)) e),
      )

  -- Where no two stored readings had the same key before, and the total of the counters fits an
  -- int64: however calls of the ingest handler, with their checks and the reloads of the
  -- alerter, interleave, and whatever statements fail: no two stored readings have the same key;
  -- every call that has answered 200 has all its batch stored; the total has grown, as int64, by
  -- the rows that the calls have recorded, which are no more than the table has grown by, and
  -- exactly that where all calls have answered 200.
  pub Run-recorded :
      (start : Core State) (s : Shared w f)
      → IsUnique (tables start.world).readings
      → start.metrics.total < 2 ^ 64
      → Run w f start s
      → let base = length (tables start.world).readings in
        let rows = (tables s.core.world).readings in
        IsUnique rows
        × All (HasStored rows) s.calls
        × (s.core.metrics.total ≡ (start.metrics.total + weigh recorded s.calls) % 2 ^ 64)
        × (base + weigh recorded s.calls ≤ length rows)
        × (All IsAnswered s.calls → length rows ≡ base + weigh recorded s.calls)
  Run-recorded start s keys fits run =
      let h = Run-IsStored start s keys fits run in
      (
        h.stored.unique,
        Held-HasStored _ s.calls h.stored.held,
        h.counts,
        omega (arith, h.stored.low, weigh-recorded-le s.calls),
        λ all.
            let (c, none_failed) = all_recorded s.calls all in
            omega (arith, h.stored.low, h.stored.high, c, none_failed),
      )
