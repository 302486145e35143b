-- ===== src/Api/Ingest/Concurrent.antt =====
-- Calls of handleIngest (server/internal/api/ingest.go) that run at the same time, with the
-- reloads of the alerter. A step is one statement of the database, or one section under a mutex
-- of the alerter or of the counters; the steps of the calls come in any order. A call starts
-- behind the validation of its batch; what the notifiers send is left out.
pub mod Calls
pub mod Storage
pub mod Alarms
pub mod Alone
pub mod OneRun
use cryo_lab_telemetry.Prelude.{
  ℕ, ◌+◌, ◌≤◌, ◌<◌, ◌≡◌, Text, Map, lookup, Option, none, some, List, [], ◌∷◌, ◌++◌, Bool, length,
}
use cryo_lab_telemetry.Prelude.Int.{ℤ}
use cryo_lab_telemetry.Store.Data.{Reading, Threshold}
use cryo_lab_telemetry.Store.World.{World}
use cryo_lab_telemetry.Store.Insert.{max_rows_per_stmt}
use cryo_lab_telemetry.Store.Insert.Interleaved.{chunk_answer}
use cryo_lab_telemetry.Store.Settings.{insert_alert_log}
use cryo_lab_telemetry.Metrics.{Tracker, record_ingest}
use cryo_lab_telemetry.Alert.{Alerter, Event, evaluate, transition}
use cryo_lab_telemetry.Alert.Edges.{Step}
use cryo_lab_telemetry.Alert.Firing.{Formats, log_entry, notify}

-- Where a call stands, with its batch and the rows that it has counted.
pub data Pc : Type 0 where
  -- in InsertReadings, at `start`
  inserting : Text → List Reading → ℕ → ℕ → Pc
  -- before RecordIngest
  inserted : Text → List Reading → ℕ → Pc
  -- at the head of the loop of Check, with the readings that are left
  checking : List Reading → ℕ → List Reading → Pc
  -- has read the threshold of a reading, before `transition`
  decided : List Reading → ℕ → List Reading → Reading → Threshold → Pc
  -- in `fire`, before `allowNotify`
  firing : List Reading → ℕ → List Reading → Reading → Event → Pc
  -- in `fire`, before InsertAlertLog
  logging : List Reading → ℕ → List Reading → Reading → Event → Bool → Pc
  -- has answered 200
  answered : List Reading → ℕ → Pc
  -- has answered 500
  failed : List Reading → ℕ → Pc

-- What the calls share; `trace` is the log of the calls of `transition`, in their order, and `lost`
-- has the metric of each InsertAlertLog that has returned an error, which `fire` logs and passes over.
pub record Core (S : Type 0) : Type 0 where
  pub alerter : Alerter
  pub metrics : Tracker
  pub world : S
  pub trace : List Step
  pub lost : List Text

abbrev pub after_round : Text → List Reading → ℕ → ℕ → Option ℕ → Pc
after_round source rs start n none = failed rs n
after_round source rs start n (some k) = inserting source rs (start + max_rows_per_stmt) (n + k)

abbrev pub after_transition : List Reading → ℕ → List Reading → Reading → Option Event → Pc
after_transition rs n todo r none = checking rs n todo
after_transition rs n todo r (some e) = firing rs n todo r e

abbrev pub lost_by : Reading → Option (Unit {0}) → List Text
lost_by r none = r.metric ∷ []
lost_by r (some _) = []

abbrev pub verdict_step : Reading → Threshold → Step
verdict_step r t = record { metric = r.metric; threshold = t; cross = evaluate t r.value }

module _ (w : World) (f : Formats) where
  open w use {State, tables, now}

  -- What one call does to what is shared, and where it stands then.
  pub data Move (m : Core State) : Pc → Core State → Pc → Type 0 where
    round :
        (source : Text) (rs : List Reading) (start n : ℕ)
        → start < length rs
        → Move m
            (inserting source rs start n)
            (record m { world = (chunk_answer w rs start m.world).1 })
            (after_round source rs start n (chunk_answer w rs start m.world).0)
    finish :
        (source : Text) (rs : List Reading) (start n : ℕ)
        → length rs ≤ start
        → Move m (inserting source rs start n) m (inserted source rs n)
    -- RecordIngest
    count :
        (source : Text) (rs : List Reading) (n : ℕ)
        → Move m
            (inserted source rs n)
            (record m { metrics = record_ingest m.metrics source n (now m.world) })
            (checking rs n rs)
    -- t, ok := a.thresholds[r.Metric], where it is not ok
    skip :
        (rs todo : List Reading) (n : ℕ) (r : Reading)
        → lookup r.metric m.alerter.thresholds ≡ none
        → Move m (checking rs n (r ∷ todo)) m (checking rs n todo)
    read :
        (rs todo : List Reading) (n : ℕ) (r : Reading) (t : Threshold)
        → lookup r.metric m.alerter.thresholds ≡ some t
        → Move m (checking rs n (r ∷ todo)) m (decided rs n todo r t)
    -- `transition`
    decide :
        (rs todo : List Reading) (n : ℕ) (r : Reading) (t : Threshold)
        → Move m
            (decided rs n todo r t)
            (record m {
              alerter = (transition m.alerter r.metric t (evaluate t r.value)).0;
              trace = m.trace ++ verdict_step r t ∷ [];
            })
            (after_transition rs n todo r (transition m.alerter r.metric t (evaluate t r.value)).1)
    -- len(a.notifiers) > 0 && a.allowNotify()
    ask :
        (rs todo : List Reading) (n : ℕ) (r : Reading) (e : Event)
        → Move m
            (firing rs n todo r e)
            (record m { alerter = (notify w f m.alerter m.world).0 })
            (logging rs n todo r e (notify w f m.alerter m.world).1)
    -- InsertAlertLog
    log :
        (rs todo : List Reading) (n : ℕ) (r : Reading) (e : Event) (notified : Bool)
        → Move m
            (logging rs n todo r e notified)
            (record m {
              world = (insert_alert_log w (log_entry r e notified) m.world).1;
              lost = m.lost ++ lost_by r (insert_alert_log w (log_entry r e notified) m.world).0;
            })
            (checking rs n todo)
    reply : (rs : List Reading) (n : ℕ) → Move m (checking rs n []) m (answered rs n)

  pub record Shared : Type 0 where
    pub core : Core State
    pub calls : List Pc

  pub data Run (start : Core State) : Shared → Type 0 where
    begin : Run start (record { core = start; calls = [] })
    -- a call passes the guard and the validation
    arrive :
        {s : Shared}
        → Run start s
        → (source : Text) (rs : List Reading)
        → Run start (record s { calls = inserting source rs 0 0 ∷ s.calls })
    -- a step of a call
    move :
        {s t : Shared} {m : Core State}
        → Run start s
        → (before after : List Pc) (p q : Pc) → Move s.core p m q
        → s.calls ≡ before ++ p ∷ after
        → t ≡ record { core = m; calls = before ++ q ∷ after }
        → Run start t
    -- the section of Reload under the mutex, with what it has read
    reload :
        {s : Shared}
        → Run start s
        → (thresholds : Map Threshold) (cap : ℤ)
        → Run start (record s {
          core = record s.core {
            alerter = record s.core.alerter { thresholds = thresholds; max_per_day = cap };
          };
        })
    -- whatever else happens outside, without a new reading and without a new entry in the alert log
    elsewhere :
        {s : Shared}
        → Run start s
        → (world : State) → (tables world).readings ≡ (tables s.core.world).readings
        → (tables world).alert_log ≡ (tables s.core.world).alert_log
        → Run start (record s { core = record s.core { world = world } })
