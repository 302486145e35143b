-- ===== src/Config.antt =====
-- server/internal/config/config.go: the settings that the server reads from its environment.
pub mod Tokens
use cryo_lab_telemetry.Prelude.{
  ℕ, ◌+◌, ◌*◌, Text, text, is_empty, Map, insert, Option, none, some, List, [], ◌∷◌, Bool, ◌||◌,
  if◌then◌else◌, ltb, length, not, ◌&&◌,
}
use cryo_lab_telemetry.Prelude.Int.{ℤ, pos, times, wrap64}
use cryo_lab_telemetry.Values.{second}
use cryo_lab_telemetry.Prelude.Split.{split_on, split_two, trim_space, keep_trimmed}

-- what one piece of INGEST_TOKENS adds to the map
add_source : Text → Text → Map Text → Map Text
add_source source token out =
    if is_empty source || is_empty token then out else insert token source out

add_pair : Text → Map Text → Map Text
unfolding add_source
add_pair pair out = if is_empty pair then out else elim (split_two b':' pair) [
  | none ↦ out
  | some (source, token) ↦ add_source (trim_space source) (trim_space token) out
]

add_pairs : List Text → Map Text → Map Text
add_pairs [] out = out
add_pairs (p ∷ ps) out = add_pairs ps (add_pair (trim_space p) out)

-- parseIngestTokens
pub parse_ingest_tokens : Text → Map Text
parse_ingest_tokens raw = add_pairs (split_on b',' raw) []

-- splitNonEmpty
pub split_non_empty : Text → List Text
split_non_empty raw = keep_trimmed (split_on b',' raw)

-- envOr, for the environment as a function: a missing variable is ""
pub env_or : (Text → Text) → Text → Text → Text
env_or env key def = let v = env key in if is_empty v then def else v

-- envInt. The scanner is fmt.Sscanf(_, "%d", _); a failure is `none`.
pub env_int : (Text → Option ℤ) → (Text → Text) → Text → ℤ → ℤ
env_int sscanf_d env key def =
    let v = env key in if is_empty v then def else elim (sscanf_d v) [ none ↦ def | some n ↦ n ]

pub record SmtpConfig : Type 0 where
  pub host : Text
  pub port : Text
  pub username : Text
  pub password : Text
  pub from : Text

-- Enabled
pub enabled : SmtpConfig → Bool
enabled s = not (is_empty s.host) && not (is_empty s.from)

-- Config
pub record Config : Type 0 where
  pub database_url : Text
  pub http_addr : Text
  pub db_max_conns : ℤ
  pub ingest_tokens : Map Text
  pub admin_username : Text
  pub admin_password : Text
  pub jwt_secret : Text
  -- nanoseconds
  pub jwt_ttl : ℤ
  pub alert_max_emails_day : ℤ
  pub smtp : SmtpConfig
  pub alert_email_to : List Text
  pub slack_webhook_url : Text

-- How many bytes UTF-8 takes for a text.
abbrev pub byte_length : Text → ℕ
byte_length [] = 0
byte_length (c ∷ s) =
    (if ltb c 0x80 then 1 else if ltb c 0x800 then 2 else if ltb c 0x10000 then 3 else 4)
    + byte_length s

-- What Load returns: the settings, or the text of an error.
pub data Loaded : Type 0 where
  loaded : Config → Loaded
  load_error : Text → Loaded

settings_of : (Text → Option ℤ) → (Text → Text) → Config
settings_of sscanf_d env = record {
  database_url = env (text "DATABASE_URL");
  http_addr = env_or env (text "HTTP_ADDR") (text ":8080");
  db_max_conns = env_int sscanf_d env (text "DB_MAX_CONNS") (pos 10);
  ingest_tokens = parse_ingest_tokens (env (text "INGEST_TOKENS"));
  admin_username = env_or env (text "ADMIN_USERNAME") (text "admin");
  admin_password = env (text "ADMIN_PASSWORD");
  jwt_secret = env (text "JWT_SECRET");
  jwt_ttl = wrap64 (times (env_int sscanf_d env (text "JWT_TTL_HOURS") (pos 24)) (3600 * second));
  alert_max_emails_day = env_int sscanf_d env (text "ALERT_MAX_EMAILS_PER_DAY") (pos 6);
  smtp = record {
    host = env (text "SMTP_HOST");
    port = env_or env (text "SMTP_PORT") (text "587");
    username = env (text "SMTP_USERNAME");
    password = env (text "SMTP_PASSWORD");
    from = env (text "SMTP_FROM");
  };
  alert_email_to = split_non_empty (env (text "ALERT_EMAIL_TO"));
  slack_webhook_url = env (text "SLACK_WEBHOOK_URL");
}

-- the checks at the end of Load
validated : Config → Loaded
validated cfg =
    if is_empty cfg.database_url
    then load_error (text "DATABASE_URL is required")
    else if is_empty cfg.ingest_tokens
    then load_error (text "INGEST_TOKENS is required (format: source:token[,source2:token2])")
    else if is_empty cfg.admin_password
    then load_error (text "ADMIN_PASSWORD is required")
    else if ltb (byte_length cfg.jwt_secret) 16
    then load_error (text "JWT_SECRET is required and must be at least 16 bytes")
    else loaded cfg

-- Load
pub load : (Text → Option ℤ) → (Text → Text) → Loaded
load sscanf_d env = validated (settings_of sscanf_d env)
