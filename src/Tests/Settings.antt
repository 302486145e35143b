-- ===== src/Tests/Settings.antt =====
-- The reading of INGEST_TOKENS at a concrete input.
use cryo_lab_telemetry.Prelude.{arith, ◌≡◌, refl, text, [], ◌∷◌, map}
use cryo_lab_telemetry.Prelude.Split.Laws.{join}
use cryo_lab_telemetry.Config.{parse_ingest_tokens}
use cryo_lab_telemetry.Config.Tokens.{
  Entry, entry_text, IsEntry, inserted, parse_ingest_tokens-join,
}

abbrev first : Entry
first = record { source = text "ab"; token = text "t:1" }

abbrev second : Entry
second = record { source = text "b"; token = text "u" }

abbrev first-IsEntry : IsEntry first
first-IsEntry = record {
  source_trimmed = (refl, refl);
  token_trimmed = (refl, refl);
  source_no_comma = (λ e. omega (arith, e), (λ e. omega (arith, e), tt));
  source_no_colon = (λ e. omega (arith, e), (λ e. omega (arith, e), tt));
  token_no_comma = (λ e. omega (arith, e), (λ e. omega (arith, e), (λ e. omega (arith, e), tt)));
}

abbrev second-IsEntry : IsEntry second
second-IsEntry = record {
  source_trimmed = (refl, refl);
  token_trimmed = (refl, refl);
  source_no_comma = (λ e. omega (arith, e), tt);
  source_no_colon = (λ e. omega (arith, e), tt);
  token_no_comma = (λ e. omega (arith, e), tt);
}

parse_ingest_tokens-join_example :
    parse_ingest_tokens (join b',' (map entry_text (first ∷ second ∷ [])))
    ≡ inserted (first ∷ second ∷ []) []
parse_ingest_tokens-join_example =
    parse_ingest_tokens-join first (second ∷ []) (first-IsEntry, (second-IsEntry, tt))
