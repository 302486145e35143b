-- ===== src/Alert/Firing/Dispatch.antt =====
-- A checked batch: its transitions, its entries in the alert log and its messages.
use cryo_lab_telemetry.Prelude.{
  ℕ, zero, suc, ◌≡◌, ap, inl, inr, Text, lookup, Map, Option, none, some, List, [], ◌∷◌, ◌++◌, map,
  Bool, false, arith, if◌then◌else◌,
}
use cryo_lab_telemetry.Store.Data.{Reading, Threshold, AlertEvent, Tables}
use cryo_lab_telemetry.Store.World.{World}
use cryo_lab_telemetry.Store.Settings.{insert_alert_log}
use cryo_lab_telemetry.Values.{utc_day}
use cryo_lab_telemetry.Prelude.Int.{ℤ}
use cryo_lab_telemetry.Alert.{Alerter, Event, evaluate, transition, allow_notify}
use cryo_lab_telemetry.Alert.Firing.{Formats, Message, log_kind, log_entry, subject, body, notify}
use cryo_lab_telemetry.Alert.Edges.{Step, run_steps}

-- The steps that a batch makes: a reading whose metric has no threshold makes none.
abbrev step_of : Reading → Option Threshold → List Step
step_of r none = []
step_of r (some t) = record { metric = r.metric; threshold = t; cross = evaluate t r.value } ∷ []

pub steps_of : Map Threshold → List Reading → List Step
steps_of th [] = []
steps_of th (r ∷ rs) = step_of r (lookup r.metric th) ++ steps_of th rs

-- An event that has been fired, with its reading and what the daily cap said.
pub record Firing : Type 0 where
  pub reading : Reading
  pub event : Event
  pub notified : Bool

abbrev pub caused : Firing → Reading × Event
caused x = (x.reading, x.event)

abbrev pub with_reading : Reading → Option Event → List (Reading × Event)
with_reading r none = []
with_reading r (some e) = (r, e) ∷ []

abbrev pub event_at : Alerter → Reading → Option Threshold → List (Reading × Event)
event_at a r none = []
event_at a r (some t) = with_reading r (transition a r.metric t (evaluate t r.value)).1

abbrev pub alerter_at : Alerter → Reading → Option Threshold → Alerter
alerter_at a r none = a
alerter_at a r (some t) = (transition a r.metric t (evaluate t r.value)).0

-- The events of a batch, each with the reading that has caused it.
pub events_of : Map Threshold → Alerter → List Reading → List (Reading × Event)
events_of th a [] = []
events_of th a (r ∷ rs) =
    event_at a r (lookup r.metric th) ++ events_of th (alerter_at a r (lookup r.metric th)) rs

-- The entry of the alert log for a fired event.
abbrev pub entry_of : Firing → AlertEvent
entry_of x = record {
  source = x.reading.source;
  metric = x.reading.metric;
  value = x.reading.value;
  kind = log_kind x.event;
  threshold_value = x.event.thr;
  notified = x.notified;
}

-- 0, …, n - 1
abbrev pub indices : ℕ → List ℕ
indices zero = []
indices (suc n) = indices n ++ n ∷ []

-- The messages of a fired event: one for each of `n` notifiers, of its reading, where the cap allows.
abbrev pub messages_of : (w : World) → Formats → ℕ → Firing → List Message
messages_of w f n x =
    if x.notified
    then map
        (λ k. record {
          notifier = k;
          subject = subject x.reading x.event;
          body = body w f x.reading x.event;
        })
        (indices n)
    else []

abbrev pub all_messages : (w : World) → Formats → ℕ → List Firing → List Message
all_messages w f n [] = []
all_messages w f n (x ∷ xs) = messages_of w f n x ++ all_messages w f n xs

-- What an operation leaves of the alerter when it only counts dispatches.
pub record Counts (a b : Alerter) : Type 0 where
  pub state : b.state ≡ a.state
  thresholds : b.thresholds ≡ a.thresholds
  notifiers : b.notifiers ≡ a.notifiers

allow_notify-Counts : (a : Alerter) (d : ℤ) → Counts a (allow_notify a d).0
unfolding allow_notify
allow_notify-Counts a d = ground arith

module _ (w : World) (f : Formats) where
  open w use {State, tables, now}

  pub notify-Counts : (a : Alerter) (s : State) → Counts a (notify w f a s).0
  unfolding notify
  notify-Counts a s = ground (arith, allow_notify-Counts a (utc_day (now s)))

  notify_silent : (a : Alerter) (s : State) → a.notifiers ≡ 0 → (notify w f a s).1 ≡ false
  unfolding notify
  notify_silent a s h = ground arith

  pub alert_log-insert :
      (e : AlertEvent) (s : State)
      → (insert_alert_log w e s).0 ≡ some tt
      → (tables (insert_alert_log w e s).1).alert_log ≡ (tables s).alert_log ++ e ∷ []
  unfolding insert_alert_log
  alert_log-insert e s ok = elim (w.insert_alert_log_law e s) [
    | inl (r, u) ↦ ap (λ (t : Tables). t.alert_log) u
    | inr (inl (r, u)) ↦ cc
    | inr (inr (r, u)) ↦ cc
  ]

  abbrev entry : Alerter → Reading → Event → State → AlertEvent
  entry a r e s = log_entry r e (notify w f a s).1

  abbrev firing_of : Alerter → Reading → Event → State → Firing
  firing_of a r e s = record { reading = r; event = e; notified = (notify w f a s).1 }

  -- What a part of a batch does to an alerter whose alarms are those of `b`: its alarms, the entries
  -- that it adds to the log, and its messages, for the events `es` that its readings cause.
  abbrev Logged :
      Alerter
      → List Step
      → List (Reading × Event)
      → ℕ
      → List AlertEvent
      → Alerter × List Message × State
      → Type 0
  Logged b steps es n before r =
      (fired : List Firing) × (map caused fired ≡ es)
      × (r.0.state ≡ (run_steps b steps).0.state)
      × ((tables r.2).alert_log ≡ before ++ map entry_of fired)
      × (r.1 ≡ all_messages w f n fired)

abbrev pub of_metric : Reading × Event → Text × Event
of_metric p = (p.0.metric, p.1)
