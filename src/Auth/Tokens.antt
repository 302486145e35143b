-- ===== src/Auth/Tokens.antt =====
-- Which token speaks for which source.
use mathlib.Core.List.{Memᴰ}
use cryo_lab_telemetry.Prelude.{
  ◌≡◌, ◌≢◌, ◌↔◌, refl, ap, inl, inr, Text, text_eq, text_eq_iff, Map, lookup, Option, none, some,
  [], ◌∷◌, arith, Bool-cases, IsMap,
}
use cryo_lab_telemetry.Auth.{constant_time_compare, match_token, source_for_token}

abbrev or_else : Option Text → Option Text → Option Text
or_else none matched = matched
or_else (some source) matched = some source

-- Where no key stands twice, the last match of the loop is the only one.
match_token-eq-lookup :
    (token : Text) (matched : Option Text) (m : Map Text)
    → IsMap m
    → match_token token matched m ≡ or_else (lookup token m) matched
unfolding match_token constant_time_compare lookup
match_token-eq-lookup token matched [] u = refl
match_token-eq-lookup token matched ((k, v) ∷ m) u = elim (Bool-cases (text_eq token k)) [
  | inl same ↦
      let e : token ≡ k = (text_eq_iff token k).0 same in
      rw same (
        ground (
          arith,
          match_token-eq-lookup token (some v) m u.1,
          text_eq_iff k token,
          ap (λ (t : Text). lookup t m) e,
          u.0,
        ))
  | inr other ↦ rw other (
      ground (
        arith,
        match_token-eq-lookup token matched m u.1,
        text_eq_iff k token,
        text_eq_iff token k,
      ))
]

lookup-Memᴰ : (k v : Text) (m : Map Text) → lookup k m ≡ some v → Memᴰ (k, v) m
unfolding lookup
lookup-Memᴰ k v [] h = cc
lookup-Memᴰ k v ((j, w) ∷ m) h = elim (Bool-cases (text_eq j k)) [
  | inl same ↦ Memᴰ.head (ground (arith, text_eq_iff j k))
  | inr other ↦ Memᴰ.tail (lookup-Memᴰ k v m (ground arith))
]

lookup_of_Memᴰ : (k v : Text) (m : Map Text) → IsMap m → Memᴰ (k, v) m → lookup k m ≡ some v
unfolding lookup
lookup_of_Memᴰ k v [] u i = elim i [ ]
lookup_of_Memᴰ k v ((j, w) ∷ m) u (Memᴰ.head e) = ground (arith, text_eq_iff j k)
lookup_of_Memᴰ k v ((j, w) ∷ m) u (Memᴰ.tail i) =
    ground (arith, lookup_of_Memᴰ k v m u.1 i, text_eq_iff j k)

-- A request speaks for a source exactly when its token is not empty and the map binds the token to
-- that source, in whatever order the map is ranged over.
pub source_for_token_iff :
    (tokens : Map Text) (token source : Text)
    → IsMap tokens
    → (source_for_token tokens token ≡ some source) ↔ ((token ≢ []) × Memᴰ (token, source) tokens)
unfolding source_for_token
source_for_token_iff tokens [] source u = (λ h. cc, λ h. absurd (h.0 refl))
source_for_token_iff tokens (c ∷ t) source u =
    let e = match_token-eq-lookup (c ∷ t) none tokens u in
    (
      λ h. (λ p. cc, lookup-Memᴰ (c ∷ t) source tokens (ground arith)),
      λ h. rw e (rw (lookup_of_Memᴰ (c ∷ t) source tokens u h.1) refl),
    )
