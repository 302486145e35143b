-- ===== src/Alert.antt =====
-- server/internal/alert/alert.go: the alerter's state and operations. Every section that the
-- source holds the mutex for is one function here.
pub mod Firing
pub mod Rule
pub mod Edges
pub mod Cap
pub mod Notifiers
use cryo_lab_telemetry.Prelude.{
  ℕ, zero, suc, ◌+◌, Text, text, is_empty, Map, lookup, insert, Option, none, some, List, [], ◌∷◌,
  ◌++◌, Bool, true, false, not, ◌&&◌, if◌then◌else◌,
}
use cryo_lab_telemetry.Prelude.Decimal.{atoi}
use cryo_lab_telemetry.Prelude.Int.{ℤ, pos, leb_ℤ, eq_ℤ}
use cryo_lab_telemetry.Values.{Float64, zero_float, float_lt, Time, utc_day}
use cryo_lab_telemetry.Store.Data.{
  Reading, Threshold, Bound, min, max, LogKind, crossed, recovered, AlertEvent,
}
use cryo_lab_telemetry.Store.World.{World}
use cryo_lab_telemetry.Store.Settings.{get_config_value, get_thresholds, insert_alert_log}

-- The state of the alerter. `notifiers` counts the notifiers; a missing metric and the text "" are
-- `none` in `state`; the day is its number, and `none` before the first count.
pub record Alerter : Type 0 where
  pub notifiers : ℕ
  pub thresholds : Map Threshold
  pub max_per_day : ℤ
  pub state : Map (Option Bound)
  pub notify_day : Option ℤ
  pub notify_n : ℕ

-- New
pub new : ℕ → ℤ → Alerter
new notifiers default_max_per_day = record {
  notifiers = notifiers;
  thresholds = [];
  max_per_day = default_max_per_day;
  state = [];
  notify_day = none;
  notify_n = 0;
}

pub record Cross : Type 0 where
  pub kind : Bound
  pub threshold_value : Float64

abbrev exceeds : Float64 → Option Float64 → Bool
exceeds value none = false
exceeds value (some bound) = float_lt bound value

abbrev falls_below : Float64 → Option Float64 → Bool
falls_below value none = false
falls_below value (some bound) = float_lt value bound

-- *t.Max, *t.Min; only read where the pointer is not nil
abbrev deref : Option Float64 → Float64
deref none = zero_float
deref (some v) = v

-- `none` is the answer `Cross{}, false`.
unfoldable pub evaluate : Threshold → Float64 → Option Cross
evaluate t value =
    if not t.enabled
    then none
    else if exceeds value t.max
    then some (record { kind = max; threshold_value = deref t.max })
    else if falls_below value t.min
    then some (record { kind = min; threshold_value = deref t.min })
    else none

pub bound_value : Threshold → Bound → Float64
bound_value t max = deref t.max
bound_value t min = deref t.min

-- The triple (event, kind, thr) of `transition`; the event "" is `none` where one is optional.
pub record Event : Type 0 where
  pub recovery : Bool
  pub kind : Bound
  pub thr : Float64

abbrev or_in_range : Option (Option Bound) → Option Bound
or_in_range none = none
or_in_range (some b) = b

-- a.state[metric]
unfoldable pub alarm : Alerter → Text → Option Bound
alarm a metric = or_in_range (lookup metric a.state)

abbrev is_kind : Option Bound → Bound → Bool
is_kind (some min) min = true
is_kind (some max) max = true
is_kind _ _ = false

set_alarm : Alerter → Text → Option Bound → Alerter
set_alarm a metric b = record a { state = insert metric b a.state }

unfoldable pub transition : Alerter → Text → Threshold → Option Cross → Alerter × Option Event
unfolding set_alarm
transition a metric t (some cross) =
    if not (is_kind (alarm a metric) cross.kind)
    then (
      set_alarm a metric (some cross.kind),
      some (record { recovery = false; kind = cross.kind; thr = cross.threshold_value }),
    )
    else (a, none)
transition a metric t none = elim (alarm a metric) [
  | none ↦ (a, none)
  | some prev ↦ (
    set_alarm a metric none,
    some (record { recovery = true; kind = prev; thr = bound_value t prev }),
  )
]

abbrev pub same_day : Option ℤ → ℤ → Bool
same_day none day = false
same_day (some d) day = eq_ℤ d day

new_day : Alerter → ℤ → Alerter
new_day a day =
    if same_day a.notify_day day then a else record a { notify_day = some day; notify_n = 0 }

count_notify : Alerter → Alerter × Bool
count_notify a =
    if leb_ℤ a.max_per_day (pos a.notify_n)
    then (a, false)
    else (record a { notify_n = a.notify_n + 1 }, true)

-- allowNotify, at a clock that shows `day`
unfoldable pub allow_notify : Alerter → ℤ → Alerter × Bool
unfolding new_day count_notify
allow_notify a day = if leb_ℤ a.max_per_day (pos 0) then (a, true) else count_notify (new_day a day)
