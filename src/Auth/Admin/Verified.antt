-- ===== src/Auth/Admin/Verified.antt =====
-- What a verified token is, and which tokens are verified.
use mathlib.Core.Path.{subst}
use cryo_lab_telemetry.Prelude.{
  inl, inr, ◌≡◌, ◌≢◌, ◌↔◌, refl, sym, ap, ◌∙◌, Text, text_eq_iff, none, some, true, Option-cases,
  arith,
}
use cryo_lab_telemetry.Prelude.Int.{◌+ℤ◌, ◌<ℤ◌}
use cryo_lab_telemetry.Values.{Time}
use cryo_lab_telemetry.Auth.{constant_time_compare}
use cryo_lab_telemetry.Auth.Admin.{
  Method, hs256, hs384, hs512, other, Claims, InForce, JwtLibrary, JwtManager, check_credentials,
  numeric_date, issue, issued_claims, signing_key, verify,
}

-- Credentials pass exactly when both are the configured ones.
pub check_credentials_iff :
    (m : JwtManager) (username password : Text)
    → (check_credentials m username password ≡ true)
      ↔ ((username ≡ m.username) × (password ≡ m.password))
unfolding check_credentials constant_time_compare
check_credentials_iff m username password =
    ground (arith, text_eq_iff username m.username, text_eq_iff password m.password)

same_some : {A : Type 0} → (x y : A) → some x ≡ some y → x ≡ y
same_some x y e = cc

none-some : (key : Text) → none ≡ some key → ⊥
none-some key e = cc

hmac_key :
    (m : JwtManager) (method : Method) (key : Text)
    → signing_key m method ≡ some key
    → (key ≡ m.secret) × ((alg : Text) → method ≢ other alg)
unfolding signing_key
hmac_key m hs256 key e = (sym (same_some _ _ e), λ alg h. cc)
hmac_key m hs384 key e = (sym (same_some _ _ e), λ alg h. cc)
hmac_key m hs512 key e = (sym (same_some _ _ e), λ alg h. cc)
hmac_key m (other alg) key e = absurd (none-some key e)

key_of_hmac :
    (m : JwtManager) (method : Method)
    → ((alg : Text) → method ≢ other alg)
    → signing_key m method ≡ some m.secret
unfolding signing_key
key_of_hmac m hs256 h = refl
key_of_hmac m hs384 h = refl
key_of_hmac m hs512 h = refl
key_of_hmac m (other alg) h = absurd (h alg refl)

verify_sound :
    (lib : JwtLibrary) (m : JwtManager) (now : Time) (token subject : Text)
    → verify lib m now token ≡ some subject
    → (c : Claims) × (lib.parse_with_claims (signing_key m) now token ≡ some c)
      × (c.subject ≡ subject)
unfolding verify
verify_sound lib m now token subject h =
    elim (Option-cases (lib.parse_with_claims (signing_key m) now token)) [
      | inl bad ↦ absurd (none-some subject (rw (bad, verify) at h))
      | inr (c, p) ↦ (c, p, same_some c.subject subject (rw (p, verify) at h))
    ]

verify_of_parse :
    (lib : JwtLibrary) (m : JwtManager) (now : Time) (token : Text) (c : Claims)
    → lib.parse_with_claims (signing_key m) now token ≡ some c
    → verify lib m now token ≡ some c.subject
unfolding verify
verify_of_parse lib m now token c p = rw (p, verify)

-- A token verifies exactly when it carries claims in force, of the subject returned, under an HMAC
-- signature with the secret of the server; no other signing method is accepted.
pub verify_iff :
    (lib : JwtLibrary) (m : JwtManager) (now : Time) (token subject : Text)
    → (verify lib m now token ≡ some subject) ↔ (
        (method : Method) × (c : Claims) × ((alg : Text) → method ≢ other alg)
        × lib.Signed method m.secret c token
        × InForce now c
        × (c.subject ≡ subject))
verify_iff lib m now token subject = (
  λ h.
      let (c, p, e) = verify_sound lib m now token subject h in
      let (method, key, k, signed, live) = lib.parse_sound (signing_key m) now token c p in
      let (same, hmac) = hmac_key m method key k in
      (method, c, hmac, subst (λ x. lib.Signed method x c token) same signed, live, e),
  λ h.
      let (method, c, hmac, signed, live, e) = h in
      verify_of_parse lib m now token c (
        lib.parse_complete (signing_key m) now token c method m.secret (key_of_hmac m method hmac)
          signed live)
      ∙ ap some e,
)

issue-cases :
    (lib : JwtLibrary) (m : JwtManager) (now expires : Time) (username token : Text)
    → issue lib m now username ≡ some (token, expires)
    → (lib.signed_string (issued_claims m now username) m.secret ≡ some token)
      × (expires ≡ now +ℤ m.ttl)
unfolding issue
issue-cases lib m now expires username token e =
    elim (Option-cases (lib.signed_string (issued_claims m now username) m.secret)) [
      | inl bad ↦ absurd (none_pair (rw (bad, issue) at e))
      | inr (t, ok) ↦
          let same = pair_some (rw (ok, issue) at e) in
          (
            ok ∙ ap some (ap (λ (p : Text × Time). p.0) same),
            sym (ap (λ (p : Text × Time). p.1) same),
          )
    ]
  where
    none_pair : {x : Text × Time} → none ≡ some x → ⊥
    none_pair h = cc

    pair_some : {x y : Text × Time} → some x ≡ some y → x ≡ y
    pair_some h = cc

-- A token that is issued expires a time-to-live later, and until that time, cut off to seconds, it
-- verifies for its subject.
pub verify-issue :
    (lib : JwtLibrary) (m : JwtManager) (now later expires : Time) (username token : Text)
    → issue lib m now username ≡ some (token, expires)
    → later <ℤ numeric_date (now +ℤ m.ttl)
    → (verify lib m later token ≡ some username) × (expires ≡ now +ℤ m.ttl)
verify-issue lib m now later expires username token e before =
    let (signed, expiry) = issue-cases lib m now expires username token e in
    let claims = issued_claims m now username in
    let live : InForce later claims = record {
      not_expired = λ t p. subst (λ x. later <ℤ x) (time_some _ t p) before;
      begun = λ b p. absurd (none_time b p);
    } in
    (
      (verify_iff lib m later token username).1 (
        hs256,
        claims,
        λ alg h. cc,
        lib.signed_string_law claims m.secret token signed,
        live,
        refl,
      ),
      expiry,
    )
  where
    time_some : (x y : Time) → some x ≡ some y → x ≡ y
    time_some x y h = cc

    none_time : (b : Time) → none ≡ some b → ⊥
    none_time b h = cc
