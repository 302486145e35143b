-- ===== src/Bench/Read/After.antt =====
-- The read mode against a server that has handled any requests before.
use mathlib.Core.List.{Memᴰ}
use mathlib.Core.List.Memᴰ
use mathlib.Core.Path.{subst}
use cryo_lab_telemetry.Prelude.{
  ℕ, ◌*◌, ◌≤◌, ◌<◌, ◌≡◌, ◌≢◌, inl, inr, Text, IsMap, some, List, [], ◌∷◌, All,
}
use cryo_lab_telemetry.Values.{second}
use cryo_lab_telemetry.Store.Data.{Row, Channel}
use cryo_lab_telemetry.Store.Insert.Rows.{IsUnique}
use cryo_lab_telemetry.Api.Http.{write_json, channels_response, Server}
use cryo_lab_telemetry.Api.Ops.{handle_channels}
use cryo_lab_telemetry.Api.Router.{Setup}
use cryo_lab_telemetry.Api.Router.Histories.{History, IsIngested, History-Grown}
use cryo_lab_telemetry.Bench.Read.{listed, to_read, hours, ranges}
use cryo_lab_telemetry.Bench.Read.Accepted.{Rfc3339, IsRead, to_read-IsAccepted}

ingested-named :
    (srv : Server) (r : Row) (new : List Row)
    → All (IsIngested srv.tokens) new
    → Memᴰ r new
    → r.metric ≢ []
ingested-named srv r [] h i = elim i [ ]
ingested-named srv r (x ∷ new) ((_, _, named, _), h) (Memᴰ.head same) =
    λ empty. named (subst (λ (y : Row). y.metric ≡ []) same empty)
ingested-named srv r (x ∷ new) (h, hs) (Memᴰ.tail i) = ingested-named srv r new hs i

module _ (e : Setup) (srv0 : Server) (s0 : e.world.State) (one_each : IsMap srv0.metrics.per_source)
    (keys : IsUnique (e.world.tables s0).readings)
    (clean : (r : Row) → Memᴰ r (e.world.tables s0).readings → r.metric ≢ []) where
  stored-named :
      (srv : Server) (s : e.world.State)
      → History e srv0 s0 srv s
      → (r : Row) → Memᴰ r (e.world.tables s).readings
      → r.metric ≢ []
  stored-named srv s h r i =
      let g = History-Grown e srv0 s0 one_each keys srv s h in
      elim (Memᴰ.append_cases g.new (subst (λ l. Memᴰ r l) g.added i)) [
        | inl new ↦ ingested-named srv0 r g.new g.from new
        | inr old ↦ clean r old
      ]

  -- Take a server whose counters have each source once, and tables without a double key and
  -- without a reading of an empty metric. After any history of requests, reloads and waits, let
  -- the bench read the channels, and choose a source and metrics from them and its flags. Then
  -- every request of the read mode, at any state of the database, for one of these metrics and
  -- one of the ranges, and at a time from the forty-first day of the year 1 to the end of the
  -- year 9999, is answered with a series over exactly the range, in steps of at least 5 seconds,
  -- or with 500 where the query fails; a range of up to 31 days has at most 744 steps. The
  -- metric is that of the flags, or that of a stored reading of the source.
  pub History-IsRead :
      (f : Rfc3339) (srv : Server) (s1 s : e.world.State) (cs : List Channel)
      (source_flag metric_flag source m : Text) (metrics : List Text) (span n : ℕ)
      → History e srv0 s0 srv s1
      → (handle_channels e.world e.reads s1).0 ≡ write_json 200 (channels_response cs)
      → to_read source_flag metric_flag (listed cs) ≡ some (source, metrics)
      → Memᴰ m metrics
      → Memᴰ span ranges
      → hours (40 * 24) ≤ n
      → n < 315_537_897_600 * second
      → IsRead e.world e.reads f s1 s source_flag metric_flag source m span n
  History-IsRead f srv s1 s cs source_flag metric_flag source m metrics span n h answered chosen i j
        early late =
      to_read-IsAccepted e.world e.reads f s1 s cs source_flag metric_flag source m metrics span n
        answered (stored-named srv s1 h) chosen i j early late
