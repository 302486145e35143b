-- ===== src/Api/Config/Put.antt =====
-- The whole of `handlePutConfig`.
use cryo_lab_telemetry.Prelude.{◌≡◌, ◌⊎◌, refl, sym, ◌∙◌, inl, inr, Option, none, some, text, All}
use cryo_lab_telemetry.Store.Data.{Tables}
use cryo_lab_telemetry.Store.World.{World}
use cryo_lab_telemetry.Alert.Firing.{reload}
use cryo_lab_telemetry.Alert.Firing.Frame.{reload-tables}
use cryo_lab_telemetry.Api.Http.{ConfigPayload, Response, decoded, Server, write_error}
use cryo_lab_telemetry.Api.Config.{reread, finish, put_stages, put_config}
use cryo_lab_telemetry.Api.Config.Current.{current_config-tables}
use cryo_lab_telemetry.Api.Config.Update.{IsValid, parts, written, Stopped, put_stages-Does}

module _ (w : World) where
  open w use {State, tables}

  finish-tables : (srv : Server) (s : State) → tables (finish w srv s).world ≡ tables s
  unfolding finish
  finish-tables srv s =
      current_config-tables w (reload w srv.alerter s).1 ∙ reload-tables w srv.alerter s

  -- What the answer to a request means: `u` are the tables afterwards, `srv'` the server.
  pub data Answer (srv : Server) (req : ConfigPayload) (s : State) (u : Tables) (r : Response)
      (srv' : Server) : Type 0 where
    -- 200, or 500 where the configuration could not be read anew: the request is valid, all of
    -- it is stored, and the alerter has been reloaded from what is stored
    updated :
        (r.status ≡ 200) ⊎ (r ≡ write_error 500 (text "updated, but could not re-read config"))
        → All IsValid (parts req)
        → u ≡ written (parts req) (tables s)
        → (s' : State) → tables s' ≡ u
        → srv' ≡ record srv { alerter = (reload w srv.alerter s').0 }
        → Answer srv req s u r srv'
    -- 400 for the first part that is not valid, or 500 for a part whose statement failed: the
    -- parts before it are valid and stored, and the server is as before
    stopped : Stopped w (parts req) (tables s) u r → srv' ≡ srv → Answer srv req s u r srv'

  reread-cases :
      (p : Option ConfigPayload)
      → ((reread w p).status ≡ 200)
        ⊎ (reread w p ≡ write_error 500 (text "updated, but could not re-read config"))
  unfolding reread
  reread-cases none = inr refl
  reread-cases (some p) = inl refl

  -- The answer to a decoded request is 200, or 500 with the text that the configuration could
  -- not be read anew, where every part of the request is valid, all are stored and the alerter has
  -- been reloaded; or 400 at the first part that is not valid, and then exactly the parts before it
  -- are stored; or 500 at a valid part, and then exactly the parts before it are stored, or those
  -- and that part. Where the handler stops at a part, the server, its alerter included, is as before.
  -- The parts are the interval, the cap and the thresholds, in this order.
  pub put_config-Answer :
      (srv : Server) (req : ConfigPayload) (s : State)
      → let h = put_config w srv (decoded req) s in
        Answer srv req s (tables h.world) h.response h.server
  unfolding put_config finish
  put_config-Answer srv req s = elim (put_stages-Does w req s) [
    | inl (e, ok, u) ↦
        let s' = (put_stages w req s).1 in
        rw (e, put_config)
          (updated (reread-cases _) ok (finish-tables srv s' ∙ u) s' (sym (finish-tables srv s'))
            refl)
    | inr (r, e, stop) ↦ rw (e, put_config) (stopped stop refl)
  ]
