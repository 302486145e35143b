-- ===== src/Tests/Jwt.antt =====
-- A JWT library that signs one set of claims, and the theorems on the control plane at concrete
-- inputs.
use mathlib.Core.Path.{subst}
use cryo_lab_telemetry.Prelude.{
  arith, ℕ, ◌*◌, ◌≡◌, ◌≢◌, ◌↔◌, ◌⊎◌, inl, inr, refl, sym, ap, Text, text, text_eq, text_eq_iff,
  text_eq_refl, Option, none, some, [], ◌++◌, Bool, true, false, ◌&&◌, if◌then◌else◌, Bool-cases,
}
use cryo_lab_telemetry.Prelude.Int.{pos, eq_ℤ, ltb_ℤ, eq_of_parts, ◌<ℤ◌, ◌+ℤ◌}
use cryo_lab_telemetry.Values.{Time, second}
use cryo_lab_telemetry.Auth.{constant_time_compare}
use cryo_lab_telemetry.Auth.Admin.{
  Method, hs256, other, Claims, InForce, JwtLibrary, JwtManager, verify, check_credentials, issue,
}
use cryo_lab_telemetry.Auth.Admin.Verified.{verify_iff}
use cryo_lab_telemetry.Api.Http.{decoded, ConfigPayload, login_response, write_json}
use cryo_lab_telemetry.Api.Config.{put_config}
use cryo_lab_telemetry.Api.Admin.{
  LoginRequest, admitted, bearer, handle_login, require_admin, update_config,
}
use cryo_lab_telemetry.Api.Admin.Guarded.{update_config-guarded, handle_login-admits}
use cryo_lab_telemetry.Tests.Memory.{memory, start, server}

abbrev pub manager : JwtManager
manager = record {
  secret = text "0123456789abcdef";
  ttl = pos (3600 * second);
  username = text "admin";
  password = text "pw";
}

-- the claims of a login at the second 10
abbrev pub claims : Claims
claims = record {
  subject = text "admin";
  issued_at = some (pos (10 * second));
  expires_at = some (pos (3610 * second));
  not_before = none;
}

abbrev pub is_time : Option Time → ℕ → Bool
is_time none n = false
is_time (some t) n = eq_ℤ t (pos n)

abbrev pub is_missing : Option Time → Bool
is_missing none = true
is_missing (some t) = false

abbrev pub are_claims : Claims → Bool
are_claims c =
    text_eq c.subject (text "admin")
    && is_time c.issued_at (10 * second)
    && is_time c.expires_at (3610 * second)
    && is_missing c.not_before

time_sound : (t : Option Time) (n : ℕ) → is_time t n ≡ true → t ≡ some (pos n)
time_sound none n h = absurd (ground arith)
time_sound (some t) n h = ap some (eq_of_parts t (pos n) (ground arith))

missing_sound : (t : Option Time) → is_missing t ≡ true → t ≡ none
missing_sound none h = refl
missing_sound (some t) h = absurd (ground arith)

and_both : (a b : Bool) → (a && b) ≡ true → (a ≡ true) × (b ≡ true)
and_both a b h = (ground arith, ground arith)

are_claims_sound : (c : Claims) → are_claims c ≡ true → c ≡ claims
are_claims_sound c h =
    let (h3, d) = and_both _ (is_missing c.not_before) h in
    let (h2, e) = and_both _ (is_time c.expires_at (3610 * second)) h3 in
    let (s, i) =
      and_both (text_eq c.subject (text "admin")) (is_time c.issued_at (10 * second)) h2 in
    let subject = (text_eq_iff c.subject (text "admin")).0 s in
    let issued = time_sound c.issued_at (10 * second) i in
    let expires = time_sound c.expires_at (3610 * second) e in
    let missing = missing_sound c.not_before d in
    λ k. record {
      subject = subject k;
      issued_at = issued k;
      expires_at = expires k;
      not_before = missing k;
    }

-- The token is the key itself.
abbrev pub IsSigned : Method → Text → Claims → Text → Type 0
IsSigned m key c t = (m ≡ hs256) × (c ≡ claims) × (t ≡ key)

abbrev pub sign : Claims → Text → Option Text
sign c key = if are_claims c then some key else none

abbrev pub parse_with : Option Text → Time → Text → Option Claims
parse_with none now t = none
parse_with (some key) now t =
    if text_eq t key && ltb_ℤ now (pos (3610 * second)) then some claims else none

pub sign_sound : (c : Claims) (key t : Text) → sign c key ≡ some t → IsSigned hs256 key c t
sign_sound c key t h = elim (Bool-cases (are_claims c)) [
  | inl ours ↦ (refl, are_claims_sound c ours, same t key (rw (ours, sign) at h))
  | inr others ↦ absurd (lost t (rw (others, sign) at h))
]
  where
    same : (t key : Text) → some key ≡ some t → t ≡ key
    same t key e = cc

    lost : (t : Text) → none ≡ some t → ⊥
    lost t e = cc

in_force : (now : Time) → ltb_ℤ now (pos (3610 * second)) ≡ true → InForce now claims
in_force now h = record {
  not_expired = λ e p. subst (λ x. now <ℤ x) (same _ e p) (ground arith);
  begun = λ b p. absurd (lost b p);
}
  where
    same : (x y : Time) → some x ≡ some y → x ≡ y
    same x y e = cc

    lost : (b : Time) → none ≡ some b → ⊥
    lost b e = cc

pub parse_with_sound :
    (o : Option Text) (now : Time) (t : Text) (c : Claims)
    → parse_with o now t ≡ some c
    → (key : Text) × (o ≡ some key) × IsSigned hs256 key c t × InForce now c
parse_with_sound none now t c h = absurd (lost c h)
  where
    lost : (c : Claims) → none ≡ some c → ⊥
    lost c e = cc
parse_with_sound (some key) now t c h =
    elim (Bool-cases (text_eq t key && ltb_ℤ now (pos (3610 * second)))) [
      | inr bad ↦ absurd (lost c (rw (bad, parse_with) at h))
      | inl good ↦
          let (e, live) = and_both (text_eq t key) (ltb_ℤ now (pos (3610 * second))) good in
          let same : claims ≡ c = unique c (rw (good, parse_with) at h) in
          (
            key,
            refl,
            (refl, sym same, (text_eq_iff t key).0 e),
            subst (InForce now) same (in_force now live),
          )
    ]
  where
    lost : (c : Claims) → none ≡ some c → ⊥
    lost c e = cc

    unique : (c : Claims) → some claims ≡ some c → claims ≡ c
    unique c e = ap (λ o. or_claims o) e
      where
        or_claims : Option Claims → Claims
        or_claims none = claims
        or_claims (some x) = x

pub parse_with_complete :
    (o : Option Text) (now : Time) (t : Text) (c : Claims) (key : Text)
    → o ≡ some key
    → c ≡ claims
    → t ≡ key
    → InForce now c
    → parse_with o now t ≡ some c
parse_with_complete o now t c key e p q live =
    let unexpired : ltb_ℤ now (pos (3610 * second)) ≡ true =
      before now (live.not_expired (pos (3610 * second)) (ap (λ (x : Claims). x.expires_at) p)) in
    rw (e, q, parse_with) (rw (text_eq_refl key, unexpired) (ap some (sym p)))
  where
    before : (now : Time) → now <ℤ pos (3610 * second) → ltb_ℤ now (pos (3610 * second)) ≡ true
    before now h = ground arith

abbrev pub one_token : JwtLibrary
one_token = record {
  Signed = IsSigned;
  signed_string = sign;
  parse_with_claims = λ keys now t. parse_with (keys hs256) now t;
  signed_string_law = sign_sound;
  parse_sound = λ keys now t c h.
      let (key, e, signed, live) = parse_with_sound (keys hs256) now t c h in
      (hs256, key, e, signed, live);
  parse_complete = λ keys now t c m key e signed live.
      parse_with_complete (keys hs256) now t c key (subst (λ x. keys x ≡ some key) signed.0 e)
        signed.1 signed.2 live;
}

verify_iff_example :
    (verify one_token manager (pos (20 * second)) manager.secret ≡ some (text "admin")) ↔ (
      (method : Method) × (c : Claims) × ((alg : Text) → method ≢ other alg)
      × IsSigned method manager.secret c manager.secret
      × InForce (pos (20 * second)) c
      × (c.subject ≡ text "admin"))
verify_iff_example = verify_iff one_token manager (pos (20 * second)) manager.secret (text "admin")

abbrev request : ConfigPayload
request = record {
  sampling_interval_seconds = pos 20;
  alert_max_emails_per_day = pos 0;
  thresholds = [];
}

update_config-guarded_example :
    let h = update_config one_token manager memory server [] (decoded request) start in
    ((h.response.status ≡ 401)
      × (h.world ≡ start)
      × (h.server ≡ server)
      × ((token subject : Text)
          → [] ≡ bearer ++ token
          → verify one_token manager start.clock token ≢ some subject))
    ⊎ ((token : Text) × (subject : Text) × ([] ≡ bearer ++ token)
        × (verify one_token manager start.clock token ≡ some subject)
        × (h ≡ put_config memory server (decoded request) start))
update_config-guarded_example =
    update_config-guarded one_token manager memory server [] (decoded request) start

abbrev credentials : LoginRequest
credentials = record { username = text "admin"; password = text "pw" }

logged_in :
    handle_login one_token manager (pos (10 * second)) (decoded credentials)
    ≡ write_json 200 (login_response manager.secret (pos (3610 * second)))
unfolding handle_login check_credentials issue text_eq ◌+ℤ◌ constant_time_compare
logged_in = refl

handle_login-admits_example :
    (credentials.username ≡ manager.username)
    × (credentials.password ≡ manager.password)
    × (require_admin one_token manager (pos (20 * second)) (bearer ++ manager.secret)
        ≡ admitted manager.username)
unfolding ◌+ℤ◌
handle_login-admits_example =
    handle_login-admits one_token manager (pos (10 * second)) (pos (20 * second))
      (pos (3610 * second)) credentials manager.secret logged_in (omega arith)
