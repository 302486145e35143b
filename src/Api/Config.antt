-- ===== src/Api/Config.antt =====
-- The configuration handlers of server/internal/api/config.go.
pub mod Current
pub mod Update
pub mod Put
pub mod Partial
pub mod Kept
use cryo_lab_telemetry.Prelude.{
  ℕ, Text, text, is_empty, Option, none, some, List, [], ◌∷◌, Bool, true, false, ◌||◌,
  if◌then◌else◌,
}
use cryo_lab_telemetry.Prelude.Decimal.{itoa, atoi}
use cryo_lab_telemetry.Prelude.Int.{ℤ, pos, eq_ℤ, ltb_ℤ}
use cryo_lab_telemetry.Store.Data.{Threshold}
use cryo_lab_telemetry.Store.World.{World}
use cryo_lab_telemetry.Store.Settings.{
  get_config_value, set_config_value, get_thresholds, upsert_threshold,
}
use cryo_lab_telemetry.Alert.Firing.{reload}
use cryo_lab_telemetry.Api.Http.{
  Decoded, decoded, malformed, ConfigPayload, config_response, Response, write_error, write_json,
  Server, Handled,
}

abbrev pub sampling_interval_key : Text
sampling_interval_key = text "sampling_interval_seconds"

abbrev pub max_emails_key : Text
max_emails_key = text "alert_max_emails_per_day"

-- the stored number, or the default where the row is missing or no number
abbrev pub number_or : ℤ → Option Text → ℤ
number_or n none = n
number_or n (some v) = elim (atoi v) [ none ↦ n | some k ↦ k ]

module _ (w : World) where
  open w use {State}

  -- currentConfig
  unfoldable pub current_config : State → Option ConfigPayload × State
  current_config s =
      let (v, s1) = get_config_value w sampling_interval_key s in
      let (e, s2) = get_config_value w max_emails_key s1 in
      let (ts, s3) = get_thresholds w s2 in
      elim ts [
        | none ↦ (none, s3)
        | some l ↦ (
          some (record {
            sampling_interval_seconds = number_or (pos 5) v;
            alert_max_emails_per_day = number_or (pos 6) e;
            thresholds = l;
          }),
          s3,
        )
      ]

  -- handleGetConfig
  pub get_config : Server → State → Handled State
  get_config srv s =
      let (payload, s') = current_config s in
      let response : Response = elim payload [
        | none ↦ write_error 500 (text "could not read config")
        | some p ↦ write_json 200 (config_response p)
      ] in
      record { response = response; server = srv; messages = []; world = s' }

  -- A part of `handlePutConfig`: the answer where the handler returns there, and the world.
  abbrev pub Stage : Type 0
  Stage = State → Option Response × State

  store_number : Text → ℤ → Text → Stage
  store_number key n msg s =
      let (done, s') = set_config_value w key (itoa n) s in
      elim done [ none ↦ (some (write_error 500 msg), s') | some _ ↦ (none, s') ]

  put_interval : ℤ → Stage
  unfolding store_number
  put_interval n s =
      if eq_ℤ n (pos 0)
      then (none, s)
      else if ltb_ℤ n (pos 1) || ltb_ℤ (pos 3600) n
      then (some (write_error 400 (text "sampling_interval_seconds must be 1..3600")), s)
      else store_number sampling_interval_key n (text "could not update interval") s

  put_max_emails : ℤ → Stage
  unfolding store_number
  put_max_emails n s =
      if eq_ℤ n (pos 0)
      then (none, s)
      else if ltb_ℤ n (pos 1) || ltb_ℤ (pos 1000) n
      then (some (write_error 400 (text "alert_max_emails_per_day must be 1..1000")), s)
      else store_number max_emails_key n (text "could not update email cap") s

  put_thresholds : List Threshold → Stage
  put_thresholds [] s = (none, s)
  put_thresholds (t ∷ ts) s =
      if is_empty t.metric
      then (some (write_error 400 (text "threshold metric is required")), s)
      else let (done, s') = upsert_threshold w t s in
        let rest = put_thresholds ts s' in
        elim done [
          | none ↦ (some (write_error 500 (text "could not update threshold")), s')
          | some _ ↦ rest
        ]

  infixl 5 ◌andthen◌
  -- the next part runs only where the one before has not returned
  abbrev ◌andthen◌ : Stage → Stage → Stage
  ◌andthen◌ m k s = let (r, s') = m s in elim r [ some resp ↦ (some resp, s') | none ↦ k s' ]

  pub put_stages : ConfigPayload → Stage
  put_stages req =
      put_interval req.sampling_interval_seconds
      andthen put_max_emails req.alert_max_emails_per_day
      andthen put_thresholds req.thresholds

  pub reread : Option ConfigPayload → Response
  reread none = write_error 500 (text "updated, but could not re-read config")
  reread (some p) = write_json 200 (config_response p)

  -- what follows the writes: Reload, then the payload anew
  pub finish : Server → State → Handled State
  finish srv s =
      let (alerter, s') = reload w srv.alerter s in
      let (payload, s'') = current_config s' in
      record {
        response = reread payload;
        server = record srv { alerter = alerter };
        messages = [];
        world = s'';
      }

  -- handlePutConfig
  pub put_config : Server → Decoded ConfigPayload → State → Handled State
  put_config srv (malformed _) s = record {
    response = write_error 400 (text "invalid JSON body");
    server = srv;
    messages = [];
    world = s;
  }
  put_config srv (decoded req) s =
      let (stop, s') = put_stages req s in
      let finished = finish srv s' in
      elim stop [
        | some resp ↦ record { response = resp; server = srv; messages = []; world = s' }
        | none ↦ finished
      ]
