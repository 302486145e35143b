-- ===== src/Auth.antt =====
-- server/internal/auth/auth.go: the tokens of the ingest plane.
pub mod Tokens
pub mod Admin
use cryo_lab_telemetry.Prelude.{
  ℕ, Text, text_eq, Map, is_empty, Option, none, some, List, [], ◌∷◌, ◌==◌, if◌then◌else◌,
}

-- subtle.ConstantTimeCompare: 1 for equal contents, else 0. Its timing is not modelled.
unfoldable pub constant_time_compare : Text → Text → ℕ
constant_time_compare s t = if text_eq s t then 1 else 0

-- The loop over the map, with what it has matched so far. A map is ranged over in no fixed order,
-- so the entries come in any.
unfoldable pub match_token : Text → Option Text → Map Text → Option Text
match_token token matched [] = matched
match_token token matched ((known, source) ∷ rest) =
    match_token token (if constant_time_compare token known == 1 then some source else matched) rest

-- SourceForToken; `none` is ("", false)
unfoldable pub source_for_token : Map Text → Text → Option Text
source_for_token tokens token = if is_empty token then none else match_token token none tokens
