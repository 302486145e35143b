-- ===== src/Api/Admin.antt =====
-- The control plane: `requireAdmin` of server/internal/api/middleware.go, the login of config.go,
-- and the route that `Router` guards with it.
pub mod Guarded
use cryo_lab_telemetry.Prelude.{
  ℕ, Text, text, Option, none, some, List, [], ◌∷◌, Bool, not, if◌then◌else◌, drop, length,
}
use cryo_lab_telemetry.Prelude.Split.{has_prefix}
use cryo_lab_telemetry.Values.{Time}
use cryo_lab_telemetry.Store.World.{World}
use cryo_lab_telemetry.Auth.Admin.{JwtLibrary, JwtManager, check_credentials, issue, verify}
use cryo_lab_telemetry.Api.Http.{
  Decoded, decoded, malformed, ConfigPayload, login_response, Response, write_error, write_json,
  Server, Handled,
}
use cryo_lab_telemetry.Api.Config.{put_config}

pub record LoginRequest : Type 0 where
  pub username : Text
  pub password : Text

-- What a guard decides: the answer where it ends the request, or the authenticated subject.
pub data Guard : Type 0 where
  denied : Response → Guard
  admitted : Text → Guard

abbrev pub bearer : Text
bearer = text "Bearer "

module _ (lib : JwtLibrary) (m : JwtManager) where
  login_token : Option (Text × Time) → Response
  login_token none = write_error 500 (text "could not issue token")
  login_token (some (token, expires)) = write_json 200 (login_response token expires)

  -- handleLogin
  unfoldable pub handle_login : Time → Decoded LoginRequest → Response
  unfolding login_token
  handle_login now (malformed _) = write_error 400 (text "invalid JSON body")
  handle_login now (decoded req) =
      if not (check_credentials m req.username req.password)
      then write_error 401 (text "invalid credentials")
      else login_token (issue lib m now req.username)

  verified : Option Text → Guard
  verified none = denied (write_error 401 (text "invalid token"))
  verified (some subject) = admitted subject

  -- requireAdmin, for the header Authorization
  pub require_admin : Time → Text → Guard
  require_admin now header =
      if not (has_prefix header bearer)
      then denied (write_error 401 (text "missing bearer token"))
      else verified (verify lib m now (drop (length bearer) header))

  -- PUT /api/config: requireAdmin, then handlePutConfig
  pub update_config :
      (w : World) → Server → Text → Decoded ConfigPayload → w.State → Handled w.State
  update_config w srv header body s =
      let done = put_config w srv body s in
      elim (require_admin (w.now s) header) [
        | denied r ↦ record { response = r; server = srv; messages = []; world = s }
        | admitted subject ↦ done
      ]
