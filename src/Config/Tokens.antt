-- ===== src/Config/Tokens.antt =====
-- Reading INGEST_TOKENS back.
use cryo_lab_telemetry.Prelude.{
  ◌≡◌, refl, ap, ◌∙◌, Text, Map, insert, List, [], ◌∷◌, ◌++◌, map, All, arith, false, All-append,
  is_empty,
}
use cryo_lab_telemetry.Prelude.Split.{trim_space}
use cryo_lab_telemetry.Prelude.Split.Laws.{
  join, Without, IsTrimmed, split_on-join, split_two-append, trim_space-IsTrimmed, IsTrimmed-append,
}
use cryo_lab_telemetry.Config.{add_source, add_pair, add_pairs, parse_ingest_tokens}

-- A source with its token, as the environment may name it.
pub record Entry : Type 0 where
  pub source : Text
  pub token : Text

abbrev pub entry_text : Entry → Text
entry_text e = e.source ++ b':' ∷ e.token

-- Names that the format can carry.
pub record IsEntry (e : Entry) : Type 0 where
  pub source_trimmed : IsTrimmed e.source
  pub token_trimmed : IsTrimmed e.token
  pub source_no_comma : Without b',' e.source
  pub source_no_colon : Without b':' e.source
  pub token_no_comma : Without b',' e.token

-- Each token with its source, in order, so that a later entry wins.
abbrev pub inserted : List Entry → Map Text → Map Text
inserted [] out = out
inserted (e ∷ es) out = inserted es (insert e.token e.source out)

entry_text-Without : (e : Entry) → IsEntry e → Without b',' (entry_text e)
entry_text-Without e h =
    All-append _ e.source (b':' ∷ e.token) h.source_no_comma (λ k. omega arith, h.token_no_comma)

add_source-trimmed :
    (source token : Text) (out : Map Text)
    → IsTrimmed source
    → IsTrimmed token
    → add_source source token out ≡ insert token source out
unfolding add_source
add_source-trimmed [] token out h k = elim h [ ]
add_source-trimmed (c ∷ s) [] out h k = elim k [ ]
add_source-trimmed (c ∷ s) (d ∷ t) out h k = refl

add_pair-entry :
    (e : Entry) (out : Map Text)
    → IsEntry e
    → add_pair (trim_space (entry_text e)) out ≡ insert e.token e.source out
unfolding add_pair
add_pair-entry e out h =
    rw
      (
        trim_space-IsTrimmed (entry_text e)
            (IsTrimmed-append b':' e.source e.token h.source_trimmed h.token_trimmed),
        split_two-append b':' e.source e.token h.source_no_colon,
        trim_space-IsTrimmed e.source h.source_trimmed,
        trim_space-IsTrimmed e.token h.token_trimmed,
        nonempty e.source e.token,
      )
      (add_source-trimmed e.source e.token out h.source_trimmed h.token_trimmed)
  where
    nonempty : (s t : Text) → is_empty (s ++ b':' ∷ t) ≡ false
    nonempty [] t = refl
    nonempty (c ∷ s) t = refl

add_pairs-entries :
    (es : List Entry) (out : Map Text)
    → All IsEntry es
    → add_pairs (map entry_text es) out ≡ inserted es out
unfolding add_pairs
add_pairs-entries [] out h = refl
add_pairs-entries (e ∷ es) out (h, hs) =
    ap (add_pairs (map entry_text es)) (add_pair-entry e out h)
    ∙ add_pairs-entries es (insert e.token e.source out) hs

-- A list of entries written "source:token,source2:token2" is read as the map from each token to its
-- source, where the source has no colon, neither has a comma, and neither is empty or has space at
-- an end; of two entries with one token the later is kept.
pub parse_ingest_tokens-join :
    (e : Entry) (es : List Entry)
    → All IsEntry (e ∷ es)
    → parse_ingest_tokens (join b',' (map entry_text (e ∷ es))) ≡ inserted (e ∷ es) []
unfolding parse_ingest_tokens
parse_ingest_tokens-join e es h =
    ap (λ r. add_pairs r [])
      (split_on-join b',' (entry_text e) (map entry_text es) (no_commas (e ∷ es) h))
    ∙ add_pairs-entries (e ∷ es) [] h
  where
    no_commas : (l : List Entry) → All IsEntry l → All (Without b',') (map entry_text l)
    no_commas [] k = tt
    no_commas (x ∷ xs) (k, ks) = (entry_text-Without x k, no_commas xs ks)
