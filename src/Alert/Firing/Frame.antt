-- ===== src/Alert/Firing/Frame.antt =====
-- Checking a batch and reloading write to no table but the alert log.
use cryo_lab_telemetry.Prelude.{
  ◌≡◌, refl, ap, ◌∙◌, inl, inr, Option, List, [], ◌∷◌, ◌++◌, lookup, Option-cases,
}
use cryo_lab_telemetry.Store.Data.{Reading, Threshold, Tables, AlertEvent}
use cryo_lab_telemetry.Store.World.{World}
use cryo_lab_telemetry.Store.Settings.{insert_alert_log, get_thresholds, get_config_value}
use cryo_lab_telemetry.Alert.{Alerter, Cross, Event, evaluate, transition}
use cryo_lab_telemetry.Alert.Firing.{
  Formats, log_entry, notify, fire, handle_transition, check_reading, check, reload,
  max_emails_config_key,
}

-- Two states of the tables that differ in the alert log at most.
pub record SameData (t u : Tables) : Type 0 where
  pub readings : u.readings ≡ t.readings
  pub config : u.config ≡ t.config
  pub thresholds : u.thresholds ≡ t.thresholds

pub SameData-refl : (t : Tables) → SameData t t
SameData-refl t = record { readings = refl; config = refl; thresholds = refl }

SameData-of_eq : (t u v : Tables) → u ≡ v → SameData t v → SameData t u
SameData-of_eq t u v e h = record {
  readings = ap (λ (x : Tables). x.readings) e ∙ h.readings;
  config = ap (λ (x : Tables). x.config) e ∙ h.config;
  thresholds = ap (λ (x : Tables). x.thresholds) e ∙ h.thresholds;
}

pub SameData-trans : (t u v : Tables) → SameData t u → SameData u v → SameData t v
SameData-trans t u v h k = record {
  readings = k.readings ∙ h.readings;
  config = k.config ∙ h.config;
  thresholds = k.thresholds ∙ h.thresholds;
}

module _ (w : World) (f : Formats) where
  open w use {State, tables}

  insert_alert_log-SameData :
      (e : AlertEvent) (s : State) → SameData (tables s) (tables (insert_alert_log w e s).1)
  unfolding insert_alert_log
  insert_alert_log-SameData e s =
      let t = tables s in
      let logged : SameData t (record t { alert_log = t.alert_log ++ e ∷ [] }) = record {
        readings = refl;
        config = refl;
        thresholds = refl;
      } in
      elim (w.insert_alert_log_law e s) [
        | inl (r, u) ↦ SameData-of_eq t _ _ u logged
        | inr (inl (r, u)) ↦ SameData-of_eq t _ _ u (SameData-refl t)
        | inr (inr (r, u)) ↦ SameData-of_eq t _ _ u logged
      ]

  fire-SameData :
      (a : Alerter) (r : Reading) (e : Event) (s : State)
      → SameData (tables s) (tables (fire w f a r e s).2)
  unfolding fire
  fire-SameData a r e s = insert_alert_log-SameData (log_entry r e (notify w f a s).1) s

  handle_transition-SameData :
      (a : Alerter) (r : Reading) (t : Threshold) (c : Option Cross) (s : State)
      → SameData (tables s) (tables (handle_transition w f a r t c s).2)
  handle_transition-SameData a r t c s = elim (Option-cases (transition a r.metric t c).1) [
    | inl quiet ↦
        unfold handle_transition in rw (quiet, handle_transition) (SameData-refl (tables s))
    | inr (e, loud) ↦
        unfold handle_transition in
        rw (loud, handle_transition) (fire-SameData (transition a r.metric t c).0 r e s)
  ]

  check_reading-SameData :
      (a : Alerter) (r : Reading) (s : State)
      → SameData (tables s) (tables (check_reading w f a r s).2)
  unfolding check_reading
  check_reading-SameData a r s = elim (Option-cases (lookup r.metric a.thresholds)) [
    | inl unknown ↦ rw (unknown, check_reading) (SameData-refl (tables s))
    | inr (t, known) ↦
        rw (known, check_reading) (handle_transition-SameData a r t (evaluate t r.value) s)
  ]

  pub check-SameData :
      (a : Alerter) (rs : List Reading) (s : State)
      → SameData (tables s) (tables (check w f a rs s).2)
  unfolding check
  check-SameData a [] s = SameData-refl (tables s)
  check-SameData a (r ∷ rs) s =
      let (a', out, s') = check_reading w f a r s in
      SameData-trans (tables s) (tables s') _ (check_reading-SameData a r s)
        (check-SameData a' rs s')

module _ (w : World) where
  open w use {State, tables}

  -- A reload writes nothing.
  pub reload-tables : (a : Alerter) (s : State) → tables (reload w a s).1 ≡ tables s
  unfolding reload get_thresholds get_config_value
  reload-tables a s =
      let s' = (w.select_thresholds s).1 in
      elim (Option-cases (w.select_thresholds s).0) [
        | inl failed ↦ rw (failed, reload) (w.select_thresholds_keeps s)
        | inr (l, got) ↦
            rw (got, reload)
              (elim (w.select_config_law max_emails_config_key s') [
                | inl (_, u) ↦ u ∙ w.select_thresholds_keeps s
                | inr (inl (_, u)) ↦ u ∙ w.select_thresholds_keeps s
                | inr (inr (_, u)) ↦ u ∙ w.select_thresholds_keeps s
              ])
      ]
