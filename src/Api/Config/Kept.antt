-- ===== src/Api/Config/Kept.antt =====
-- The configuration handlers write neither readings nor the alert log, and keep the tokens.
use cryo_lab_telemetry.Prelude.{
  ◌≡◌, refl, ap, ◌∙◌, inl, inr, Text, List, [], ◌∷◌, ◌||◌, Option-cases, Bool-cases, is_empty,
}
use cryo_lab_telemetry.Prelude.Int.{ℤ, pos, eq_ℤ, ltb_ℤ}
use cryo_lab_telemetry.Prelude.Decimal.{itoa}
use cryo_lab_telemetry.Store.Data.{Threshold, Tables, set_key}
use cryo_lab_telemetry.Store.World.{World}
use cryo_lab_telemetry.Store.Settings.{set_config_value, upsert_threshold}
use cryo_lab_telemetry.Alert.Firing.{reload}
use cryo_lab_telemetry.Alert.Firing.Frame.{reload-tables}
use cryo_lab_telemetry.Api.Http.{ConfigPayload, Decoded, decoded, malformed, Server}
use cryo_lab_telemetry.Api.Config.{
  sampling_interval_key, max_emails_key, Stage, store_number, put_interval, put_max_emails,
  put_thresholds, ◌andthen◌, put_stages, get_config, finish, put_config,
}
use cryo_lab_telemetry.Api.Config.Current.{current_config-tables}

-- Two states of the tables that differ in the configuration and the thresholds at most.
pub record SameReadings (t u : Tables) : Type 0 where
  pub readings : u.readings ≡ t.readings
  pub alert_log : u.alert_log ≡ t.alert_log

pub SameReadings-of_eq : (t u v : Tables) → u ≡ v → SameReadings t v → SameReadings t u
SameReadings-of_eq t u v e h = record {
  readings = ap (λ (x : Tables). x.readings) e ∙ h.readings;
  alert_log = ap (λ (x : Tables). x.alert_log) e ∙ h.alert_log;
}

pub SameReadings-refl : (t : Tables) → SameReadings t t
SameReadings-refl t = record { readings = refl; alert_log = refl }

SameReadings-trans : (t u v : Tables) → SameReadings t u → SameReadings u v → SameReadings t v
SameReadings-trans t u v h k = record {
  readings = k.readings ∙ h.readings;
  alert_log = k.alert_log ∙ h.alert_log;
}

module _ (w : World) where
  open w use {State, tables}

  abbrev Keeps : Stage w → Type 0
  Keeps m = (s : State) → SameReadings (tables s) (tables (m s).1)

  Keeps-andthen : (m k : Stage w) → Keeps m → Keeps k → Keeps (◌andthen◌ w m k)
  Keeps-andthen m k hm hk s = elim (Option-cases (m s).0) [
    | inl on ↦ rw (on, ◌andthen◌) (SameReadings-trans (tables s) _ _ (hm s) (hk (m s).1))
    | inr (r, stop) ↦ rw (stop, ◌andthen◌) (hm s)
  ]

  upsert_config-SameReadings :
      (key value : Text) (s : State)
      → SameReadings (tables s) (tables (w.upsert_config key value s).1)
  upsert_config-SameReadings key value s =
      let t = tables s in
      let written : SameReadings t (record t { config = set_key key value t.config }) = record {
        readings = refl;
        alert_log = refl;
      } in
      elim (w.upsert_config_law key value s) [
        | inl (r, u) ↦ SameReadings-of_eq t _ _ u written
        | inr (inl (r, u)) ↦ SameReadings-of_eq t _ _ u (SameReadings-refl t)
        | inr (inr (r, u)) ↦ SameReadings-of_eq t _ _ u written
      ]

  upsert_threshold-SameReadings :
      (x : Threshold) (s : State) → SameReadings (tables s) (tables (w.upsert_threshold x s).1)
  upsert_threshold-SameReadings x s =
      let t = tables s in
      let written : SameReadings t (record t { thresholds = set_key x.metric x t.thresholds }) =
        record { readings = refl; alert_log = refl } in
      elim (w.upsert_threshold_law x s) [
        | inl (r, u) ↦ SameReadings-of_eq t _ _ u written
        | inr (inl (r, u)) ↦ SameReadings-of_eq t _ _ u (SameReadings-refl t)
        | inr (inr (r, u)) ↦ SameReadings-of_eq t _ _ u written
      ]

  store_number-Keeps : (key : Text) (n : ℤ) (msg : Text) → Keeps (store_number w key n msg)
  unfolding store_number set_config_value
  store_number-Keeps key n msg s = elim (Option-cases (w.upsert_config key (itoa n) s).0) [
    | inl failed ↦ rw (failed, store_number) (upsert_config-SameReadings key (itoa n) s)
    | inr (_, stored) ↦ rw (stored, store_number) (upsert_config-SameReadings key (itoa n) s)
  ]

  put_interval-Keeps : (n : ℤ) → Keeps (put_interval w n)
  unfolding put_interval
  put_interval-Keeps n s = elim (Bool-cases (eq_ℤ n (pos 0))) [
    | inl unset ↦ rw (unset, put_interval) (SameReadings-refl (tables s))
    | inr set ↦ elim (Bool-cases (ltb_ℤ n (pos 1) || ltb_ℤ (pos 3600) n)) [
      | inl wrong ↦ rw (set, wrong, put_interval) (SameReadings-refl (tables s))
      | inr ok ↦ rw (set, ok, put_interval) (store_number-Keeps sampling_interval_key n _ s)
    ]
  ]

  put_max_emails-Keeps : (n : ℤ) → Keeps (put_max_emails w n)
  unfolding put_max_emails
  put_max_emails-Keeps n s = elim (Bool-cases (eq_ℤ n (pos 0))) [
    | inl unset ↦ rw (unset, put_max_emails) (SameReadings-refl (tables s))
    | inr set ↦ elim (Bool-cases (ltb_ℤ n (pos 1) || ltb_ℤ (pos 1000) n)) [
      | inl wrong ↦ rw (set, wrong, put_max_emails) (SameReadings-refl (tables s))
      | inr ok ↦ rw (set, ok, put_max_emails) (store_number-Keeps max_emails_key n _ s)
    ]
  ]

  put_thresholds-Keeps : (ts : List Threshold) → Keeps (put_thresholds w ts)
  unfolding put_thresholds upsert_threshold
  put_thresholds-Keeps [] s = SameReadings-refl (tables s)
  put_thresholds-Keeps (t ∷ ts) s = elim (Bool-cases (is_empty t.metric)) [
    | inl nameless ↦ rw (nameless, put_thresholds) (SameReadings-refl (tables s))
    | inr named ↦ elim (Option-cases (w.upsert_threshold t s).0) [
      | inl failed ↦ rw (named, failed, put_thresholds) (upsert_threshold-SameReadings t s)
      | inr (_, stored) ↦
          rw (named, stored, put_thresholds)
            (SameReadings-trans (tables s) _ _ (upsert_threshold-SameReadings t s)
              (put_thresholds-Keeps ts (w.upsert_threshold t s).1))
    ]
  ]

  put_stages-Keeps : (req : ConfigPayload) → Keeps (put_stages w req)
  unfolding put_stages
  put_stages-Keeps req =
      let interval = put_interval w req.sampling_interval_seconds in
      let max_emails = put_max_emails w req.alert_max_emails_per_day in
      Keeps-andthen (◌andthen◌ w interval max_emails) (put_thresholds w req.thresholds)
        (Keeps-andthen interval max_emails (put_interval-Keeps req.sampling_interval_seconds)
          (put_max_emails-Keeps req.alert_max_emails_per_day))
        (put_thresholds-Keeps req.thresholds)

  -- PUT /api/config, whatever it answers, keeps the readings, the alert log, the tokens and the
  -- counters.
  pub put_config-SameReadings :
      (srv : Server) (body : Decoded ConfigPayload) (s : State)
      → let h = put_config w srv body s in
        SameReadings (tables s) (tables h.world)
        × (h.server.tokens ≡ srv.tokens)
        × (h.server.started_at ≡ srv.started_at)
        × (h.server.metrics ≡ srv.metrics)
        × (h.messages ≡ [])
  unfolding put_config finish
  put_config-SameReadings srv (malformed _) s =
      (SameReadings-refl (tables s), refl, refl, refl, refl)
  put_config-SameReadings srv (decoded req) s =
      let s' = (put_stages w req s).1 in
      elim (Option-cases (put_stages w req s).0) [
        | inl on ↦
            let kept =
              current_config-tables w (reload w srv.alerter s').1
              ∙ reload-tables w srv.alerter s' in
            rw (on, put_config)
              (
                SameReadings-trans (tables s) _ _ (put_stages-Keeps req s)
                    (SameReadings-of_eq _ _ _ kept (SameReadings-refl _)),
                refl,
                refl,
                refl,
                refl,
              )
        | inr (r, stop) ↦ rw (stop, put_config) (put_stages-Keeps req s, refl, refl, refl, refl)
      ]

  -- GET /api/config changes nothing.
  pub get_config-keeps :
      (srv : Server) (s : State)
      → let h = get_config w srv s in
        (tables h.world ≡ tables s) × (h.server ≡ srv) × (h.messages ≡ [])
  unfolding get_config
  get_config-keeps srv s = (current_config-tables w s, refl, refl)
