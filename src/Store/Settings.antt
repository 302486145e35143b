-- ===== src/Store/Settings.antt =====
-- The control-plane queries of server/internal/store/store.go: configuration values, thresholds
-- and the alert log. Each is one statement.
use cryo_lab_telemetry.Prelude.{Text, Option, none, some, List}
use cryo_lab_telemetry.Store.Data.{Threshold, AlertEvent}
use cryo_lab_telemetry.Store.World.{World}

-- A missing row is an error like any other.
abbrev pub found {ℓ} : {A : Type ℓ} → Option (Option A) → Option A
found (some (some v)) = some v
found _ = none

module _ (w : World) where
  open w use {State}

  unfoldable pub get_config_value : Text → State → Option Text × State
  get_config_value key s = let (v, s') = w.select_config key s in (found v, s')

  unfoldable pub set_config_value : Text → Text → State → Option (Unit {0}) × State
  set_config_value key value s = w.upsert_config key value s

  unfoldable pub get_thresholds : State → Option (List Threshold) × State
  get_thresholds s = w.select_thresholds s

  unfoldable pub upsert_threshold : Threshold → State → Option (Unit {0}) × State
  upsert_threshold t s = w.upsert_threshold t s

  unfoldable pub insert_alert_log : AlertEvent → State → Option (Unit {0}) × State
  insert_alert_log e s = w.insert_alert_log e s
