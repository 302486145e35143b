-- ===== src/Alert/Firing.antt =====
-- The rest of server/internal/alert/alert.go: recording and dispatching an event, checking a batch,
-- and reloading the configuration.
pub mod Dispatch
pub mod Reload
pub mod Frame
use cryo_lab_telemetry.Prelude.{
  ℕ, zero, suc, Text, text, text_eq, Map, lookup, insert, Option, none, some, List, [], ◌∷◌, ◌++◌,
  Bool, true, false, ltb, if◌then◌else◌,
}
use cryo_lab_telemetry.Prelude.Decimal.{atoi}
use cryo_lab_telemetry.Prelude.Int.{ℤ, pos, leb_ℤ}
use cryo_lab_telemetry.Values.{Float64, Time, utc_day}
use cryo_lab_telemetry.Store.Data.{
  Reading, Threshold, Bound, min, max, LogKind, crossed, recovered, AlertEvent,
}
use cryo_lab_telemetry.Store.World.{World}
use cryo_lab_telemetry.Store.Settings.{get_config_value, get_thresholds, insert_alert_log}
use cryo_lab_telemetry.Alert.{Alerter, Cross, Event, evaluate, transition, allow_notify}

abbrev pub max_emails_config_key : Text
max_emails_config_key = text "alert_max_emails_per_day"

-- The verbs %g and time.RFC3339, which write numbers and the times of readings into messages. The
-- source writes a time in the location that its reading came with; here it is a function of the
-- instant.
pub record Formats : Type 0 where
  pub float_g : Float64 → Text
  pub rfc3339 : Time → Text

-- One call of a notifier's `Send`, made off the ingest path.
pub record Message : Type 0 where
  pub notifier : ℕ
  pub subject : Text
  pub body : Text

abbrev bound_text : Bound → Text
bound_text min = text "min"
bound_text max = text "max"

abbrev log_kind : Event → LogKind
log_kind e = if e.recovery then recovered else crossed e.kind

-- what `fire` writes to alert_log
unfoldable pub log_entry : Reading → Event → Bool → AlertEvent
log_entry r e notified = record {
  source = r.source;
  metric = r.metric;
  value = r.value;
  kind = log_kind e;
  threshold_value = e.thr;
  notified = notified;
}

pub subject : Reading → Event → Text
subject r e =
    text "[lab-monitor] "
    ++ (r.metric
        ++ (if e.recovery
            then text " back to normal"
            else text " " ++ (bound_text e.kind ++ text " threshold crossed")))

-- one call of `Send` for each notifier
pub sends : ℕ → Text → Text → List Message
sends zero subj b = []
sends (suc n) subj b = sends n subj b ++ record { notifier = n; subject = subj; body = b } ∷ []

-- `m[t.Metric] = t` for each row
by_metric : Map Threshold → List Threshold → Map Threshold
by_metric m [] = m
by_metric m (t ∷ ts) = by_metric (insert t.metric t m) ts

abbrev parsed : Option Text → Option ℤ
parsed none = none
parsed (some v) = atoi v

abbrev with_cap : Alerter → Option ℤ → Alerter
with_cap a none = a
with_cap a (some n) = if leb_ℤ (pos 0) n then record a { max_per_day = n } else a

module _ (w : World) (f : Formats) where
  open w use {State, now}

  pub body : Reading → Event → Text
  body r e =
      r.metric
      ++ (text " on "
          ++ (r.source
              ++ (text " read "
                  ++ (f.float_g r.value
                      ++ (text (if e.recovery then " — back within the " else " — crossing the ")
                          ++ (bound_text e.kind
                              ++ (text " threshold of "
                                  ++ (f.float_g e.thr
                                      ++ (text " at " ++ (f.rfc3339 r.ts ++ text "."))))))))))

  -- len(a.notifiers) > 0 && a.allowNotify()
  unfoldable pub notify : Alerter → State → Alerter × Bool
  notify a s = if ltb 0 a.notifiers then allow_notify a (utc_day (now s)) else (a, false)

  -- An error of the log's INSERT is logged and passed over.
  unfoldable pub fire : Alerter → Reading → Event → State → Alerter × List Message × State
  unfolding log_entry
  fire a r e s =
      let (a', notified) = notify a s in
      let (_, s') = insert_alert_log w (log_entry r e notified) s in
      (a', if notified then sends a.notifiers (subject r e) (body r e) else [], s')

  unfoldable pub handle_transition :
      Alerter → Reading → Threshold → Option Cross → State → Alerter × List Message × State
  handle_transition a r t cross s =
      let (a', event) = transition a r.metric t cross in
      elim event [ none ↦ (a', [], s) | some e ↦ fire a' r e s ]

  -- one round of `Check`
  unfoldable pub check_reading : Alerter → Reading → State → Alerter × List Message × State
  check_reading a r s = elim (lookup r.metric a.thresholds) [
    | none ↦ (a, [], s)
    | some t ↦ handle_transition a r t (evaluate t r.value) s
  ]

  -- Check
  unfoldable pub check : Alerter → List Reading → State → Alerter × List Message × State
  check a [] s = (a, [], s)
  check a (r ∷ rs) s =
      let (a', out, s') = check_reading a r s in
      let (a'', more, s'') = check a' rs s' in (a'', out ++ more, s'')

module _ (w : World) where
  open w use {State}

  -- Reload
  pub reload : Alerter → State → Alerter × State
  reload a s =
      let (ts, s') = get_thresholds w s in
      elim ts [
        | none ↦ (a, s')
        | some l ↦
            let (v, s'') = get_config_value w max_emails_config_key s' in
            (with_cap (record a { thresholds = by_metric [] l }) (parsed v), s'')
      ]
