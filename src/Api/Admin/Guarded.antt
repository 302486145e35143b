-- ===== src/Api/Admin/Guarded.antt =====
-- What the guard of the control plane lets through.
use mathlib.Core.Path.{subst}
use cryo_lab_telemetry.Prelude.{
  inl, inr, ◌⊎◌, ◌≡◌, ◌≢◌, refl, sym, ap, ◌∙◌, Text, text, Option, none, some, [], ◌∷◌, ◌++◌, true,
  false, Option-cases, arith, Bool-cases, drop, length,
}
use cryo_lab_telemetry.Prelude.Int.{◌+ℤ◌, ◌<ℤ◌}
use cryo_lab_telemetry.Prelude.Split.{has_prefix}
use cryo_lab_telemetry.Values.{Time}
use cryo_lab_telemetry.Store.World.{World}
use cryo_lab_telemetry.Auth.Admin.{
  JwtLibrary, JwtManager, check_credentials, numeric_date, issue, verify,
}
use cryo_lab_telemetry.Auth.Admin.Verified.{check_credentials_iff, verify-issue}
use cryo_lab_telemetry.Api.Http.{
  Decoded, decoded, ConfigPayload, login_response, Response, write_error, write_json, Server,
}
use cryo_lab_telemetry.Api.Config.{put_config}
use cryo_lab_telemetry.Api.Config.Kept.{put_config-SameReadings}
use cryo_lab_telemetry.Api.Admin.{
  LoginRequest, denied, admitted, bearer, login_token, handle_login, verified, require_admin,
  update_config,
}

parts_of_prefix : (h p : Text) → has_prefix h p ≡ true → h ≡ p ++ drop (length p) h
parts_of_prefix h [] e = refl
parts_of_prefix [] (d ∷ p) e = absurd (ground arith)
parts_of_prefix (c ∷ h) (d ∷ p) e = ground (arith, parts_of_prefix h p)

same_login : (t u : Text) (x y : Time) → login_response t x ≡ login_response u y → (t ≡ u) × (x ≡ y)
same_login t u x y e = (cc, cc)

module _ (lib : JwtLibrary) (m : JwtManager) where
  require_admin-bearer :
      (now : Time) (token subject : Text)
      → verify lib m now token ≡ some subject
      → require_admin lib m now (bearer ++ token) ≡ admitted subject
  unfolding require_admin verified
  require_admin-bearer now token subject e = ap (verified lib m) e

  -- The guard denies a request with 401, or its header carries a token that verifies.
  require_admin-cases :
      (now : Time) (header : Text)
      → ((r : Response) × (require_admin lib m now header ≡ denied r)
          × (r.status ≡ 401)
          × ((token subject : Text)
              → header ≡ bearer ++ token
              → verify lib m now token ≢ some subject))
        ⊎ ((token : Text) × (subject : Text) × (require_admin lib m now header ≡ admitted subject)
            × (header ≡ bearer ++ token)
            × (verify lib m now token ≡ some subject))
  unfolding require_admin verified
  require_admin-cases now header = elim (Bool-cases (has_prefix header bearer)) [
    | inr missing ↦ inl (
      write_error 401 (text "missing bearer token"),
      rw (missing, require_admin),
      refl,
      λ token subject e h. true_false (sym (subst (λ x. has_prefix x bearer ≡ false) e missing)),
    )
    | inl given ↦
        let token = drop (length bearer) header in
        let parts = parts_of_prefix header bearer given in
        elim (Option-cases (verify lib m now token)) [
          | inl bad ↦ inl (
            write_error 401 (text "invalid token"),
            rw (given, require_admin) (ap (verified lib m) bad),
            refl,
            λ t subject e h. none-some subject (
                sym bad
                ∙ subst (λ x. verify lib m now (drop (length bearer) x) ≡ some subject) (sym e) h),
          )
          | inr (subject, good) ↦
              inr
                (token, subject, rw (given, require_admin) (ap (verified lib m) good), parts, good)
        ]
  ]
    where
      none-some : (x : Text) → none ≡ some x → ⊥
      none-some x e = cc

      true_false : false ≡ true → ⊥
      true_false e = cc

  -- PUT /api/config without a token that verifies is answered 401 and changes nothing; with one, it
  -- is what the handler does.
  pub update_config-guarded :
      (w : World) (srv : Server) (header : Text) (body : Decoded ConfigPayload) (s : w.State)
      → let h = update_config lib m w srv header body s in
        ((h.response.status ≡ 401)
          × (h.world ≡ s)
          × (h.server ≡ srv)
          × ((token subject : Text)
              → header ≡ bearer ++ token
              → verify lib m (w.now s) token ≢ some subject))
        ⊎ ((token : Text) × (subject : Text) × (header ≡ bearer ++ token)
            × (verify lib m (w.now s) token ≡ some subject)
            × (h ≡ put_config w srv body s))
  unfolding update_config
  update_config-guarded w srv header body s = elim (require_admin-cases (w.now s) header) [
    | inl (r, e, st, h) ↦ rw (e, update_config) (inl (st, refl, refl, h))
    | inr (token, subject, e, parts, good) ↦
        rw (e, update_config) (inr (token, subject, parts, good, refl))
  ]

  pub update_config-silent :
      (w : World) (srv : Server) (header : Text) (body : Decoded ConfigPayload) (s : w.State)
      → (update_config lib m w srv header body s).messages ≡ []
  unfolding update_config
  update_config-silent w srv header body s = elim (require_admin-cases (w.now s) header) [
    | inl (r, e, _, _) ↦ rw (e, update_config) refl
    | inr (token, subject, e, _, _) ↦
        let (_, _, _, _, silent) = put_config-SameReadings w srv body s in
        rw (e, update_config) silent
  ]

  -- A login that is answered with a token had the configured credentials; and until a time-to-live
  -- later, cut off to seconds, the guard admits a request that bears the token.
  pub handle_login-admits :
      (now later expires : Time) (req : LoginRequest) (token : Text)
      → handle_login lib m now (decoded req) ≡ write_json 200 (login_response token expires)
      → later <ℤ numeric_date (now +ℤ m.ttl)
      → (req.username ≡ m.username)
        × (req.password ≡ m.password)
        × (require_admin lib m later (bearer ++ token) ≡ admitted m.username)
  unfolding handle_login login_token
  handle_login-admits now later expires req token e before =
      elim (Bool-cases (check_credentials m req.username req.password)) [
        | inr wrong ↦ absurd (refused _ (rw (wrong, handle_login) at e))
        | inl right ↦
            let (user, pass) = (check_credentials_iff m req.username req.password).0 right in
            let issued =
              login_issued (issue lib m now req.username) (rw (right, handle_login) at e) in
            (
              user,
              pass,
              require_admin-bearer later token m.username (
                  (verify-issue lib m now later expires req.username token issued before).0
                  ∙ ap some user),
            )
      ]
    where
      refused :
          (msg : Text) → write_error 401 msg ≡ write_json 200 (login_response token expires) → ⊥
      refused msg h = absurd (omega (arith, ap (λ (r : Response). r.status) h))

      login_issued :
          (o : Option (Text × Time))
          → login_token lib m o ≡ write_json 200 (login_response token expires)
          → o ≡ some (token, expires)
      login_issued none h = absurd (omega (arith, ap (λ (r : Response). r.status) h))
      login_issued (some (t, x)) h =
          let same = same_login t token x expires (ap (λ (r : Response). r.body) h) in
          λ i. some (same.0 i, same.1 i)
