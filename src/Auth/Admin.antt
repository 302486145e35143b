-- ===== src/Auth/Admin.antt =====
-- server/internal/auth/jwt.go: the credentials and the tokens of the control plane, over the JWT
-- library as a parameter.
pub mod Verified
use cryo_lab_telemetry.Prelude.{
  ℕ, suc, ◌+◌, ◌*◌, ◌/◌, ◌-◌, ◌≡◌, Text, Option, none, some, Bool, ◌&&◌, ◌==◌,
}
use cryo_lab_telemetry.Prelude.Int.{ℤ, pos, negsuc, ◌+ℤ◌, ◌<ℤ◌}
use cryo_lab_telemetry.Values.{Time, second}
use cryo_lab_telemetry.Auth.{constant_time_compare}

-- The signing methods: those of *jwt.SigningMethodHMAC, and any other by its name.
pub data Method : Type 0 where
  hs256 hs384 hs512 : Method
  other : Text → Method

-- jwt.RegisteredClaims, as far as the server sets it or the library checks it.
pub record Claims : Type 0 where
  pub subject : Text
  pub issued_at : Option Time
  pub expires_at : Option Time
  pub not_before : Option Time

-- The claims are in force.
pub record InForce (now : Time) (c : Claims) : Type 0 where
  pub not_expired : (e : Time) → c.expires_at ≡ some e → now <ℤ e
  pub begun : (b : Time) → c.not_before ≡ some b → ¬ (now <ℤ b)

-- The JWT library: `Signed m key c t` says that the token `t` carries the claims `c` with a
-- signature of the method `m` under the key.
pub record JwtLibrary : Type 1 where
  pub Signed : Method → Text → Claims → Text → Type 0
  -- jwt.NewWithClaims(jwt.SigningMethodHS256, claims).SignedString(key)
  pub signed_string : Claims → Text → Option Text
  -- jwt.ParseWithClaims, with the key that the function gives for a method; the library reads
  -- the clock
  pub parse_with_claims : (Method → Option Text) → Time → Text → Option Claims
  pub signed_string_law :
      (c : Claims) (key t : Text) → signed_string c key ≡ some t → Signed hs256 key c t
  pub parse_sound :
      (keys : Method → Option Text) (now : Time) (t : Text) (c : Claims)
      → parse_with_claims keys now t ≡ some c
      → (m : Method) × (key : Text) × (keys m ≡ some key) × Signed m key c t × InForce now c
  pub parse_complete :
      (keys : Method → Option Text) (now : Time) (t : Text) (c : Claims) (m : Method) (key : Text)
      → keys m ≡ some key
      → Signed m key c t
      → InForce now c
      → parse_with_claims keys now t ≡ some c

-- JWTManager; its clock is an argument of the operations
pub record JwtManager : Type 0 where
  pub secret : Text
  pub ttl : ℤ
  pub username : Text
  pub password : Text

-- CheckCredentials
unfoldable pub check_credentials : JwtManager → Text → Text → Bool
check_credentials m username password =
    (constant_time_compare username m.username == 1)
    && (constant_time_compare password m.password == 1)

-- jwt.NewNumericDate: the time cut off to seconds
abbrev pub numeric_date : Time → Time
numeric_date (pos n) = pos (n / second * second)
numeric_date (negsuc n) = negsuc ((n / second + 1) * second - 1)

-- the claims of an issued token
abbrev pub issued_claims : JwtManager → Time → Text → Claims
issued_claims m now username = record {
  subject = username;
  issued_at = some (numeric_date now);
  expires_at = some (numeric_date (now +ℤ m.ttl));
  not_before = none;
}

-- Issue: the token and the time that it expires
unfoldable pub issue : JwtLibrary → JwtManager → Time → Text → Option (Text × Time)
issue lib m now username = elim (lib.signed_string (issued_claims m now username) m.secret) [
  | none ↦ none
  | some t ↦ some (t, now +ℤ m.ttl)
]

-- the function that Verify passes to the library
signing_key : JwtManager → Method → Option Text
signing_key m (other alg) = none
signing_key m _ = some m.secret

-- Verify
pub verify : JwtLibrary → JwtManager → Time → Text → Option Text
verify lib m now token = elim (lib.parse_with_claims (signing_key m) now token) [
  | none ↦ none
  | some claims ↦ some claims.subject
]
