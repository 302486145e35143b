-- ===== src/Api/Series/Answers.antt =====
-- What the answers to a read of a series mean.
use mathlib.Core.Path.{subst}
use cryo_lab_telemetry.Store.Data.{Channel}
use cryo_lab_telemetry.Prelude.{
  ℕ, ◌≡◌, ◌≢◌, ◌⊎◌, refl, sym, ap, ◌∙◌, inl, inr, Text, text, is_empty, Option, none, some, List,
  [], arith, true, false, Bool-cases, Option-cases, ◌||◌,
}
use cryo_lab_telemetry.Prelude.Int.{◌<ℤ◌, ltb_ℤ, ◌-ℤ◌}
use cryo_lab_telemetry.Values.{Time}
use cryo_lab_telemetry.Store.Series.{Bucket, SeriesQueries, query_series}
use cryo_lab_telemetry.Store.Series.Steps.{IsStep}
use cryo_lab_telemetry.Api.Series.{
  Query, default_range, bound_or, range, bad_range, ordered_range, parse_time_range, resolve_step,
  Answer, error, series, handle_series,
}
use cryo_lab_telemetry.Api.Series.Steps.{resolve_step-IsStep}

-- The bounds that a request asks for, in order: `to` or else now, `from` or else three hours
-- before.
pub record Bounds (parse : Text → Option Time) (now : Time) (q : Query) (from to : Time)
    : Type 0 where
  pub to_given : bound_or parse now q.to ≡ some to
  pub from_given : bound_or parse (to -ℤ default_range) q.from ≡ some from
  pub ordered : from <ℤ to

ordered_range-cases :
    (from to : Time)
    → ((ordered_range from to ≡ range from to) × (from <ℤ to))
      ⊎ ((msg : Text) × (ordered_range from to ≡ bad_range msg) × ¬ (from <ℤ to))
unfolding ordered_range
ordered_range-cases from to = elim (Bool-cases (ltb_ℤ from to)) [
  | inl e ↦ inl (rw (e, ordered_range), ground arith)
  | inr e ↦ inr (text "'from' must be before 'to'", rw (e, ordered_range), λ h. ground arith)
]

same_some : {A : Type 0} → (x y : A) → some x ≡ some y → x ≡ y
same_some x y e = cc

subst2 : {t to f from : Time} → t ≡ to → f ≡ from → f <ℤ t → from <ℤ to
subst2 {t} {to} {f} {from} p q h = subst (λ x. x <ℤ to) q (subst (λ x. f <ℤ x) p h)

from_given :
    (parse : Text → Option Time) (now : Time) (q : Query) (to f t : Time)
    → bound_or parse now q.to ≡ some to
    → Bounds parse now q f t
    → bound_or parse (to -ℤ default_range) q.from ≡ some f
from_given parse now q to f t e b =
    subst (λ x. bound_or parse (x -ℤ default_range) q.from ≡ some f)
      (same_some t to (sym b.to_given ∙ e)) b.from_given

nameless-cases : (s m : Text) → (is_empty s || is_empty m) ≡ true → (s ≡ []) ⊎ (m ≡ [])
nameless-cases s m h = ground arith

named-both : (s m : Text) → (is_empty s || is_empty m) ≡ false → (s ≢ []) × (m ≢ [])
named-both s m h = (λ e. ground arith, λ e. ground arith)

-- The range is refused exactly where there are no such bounds.
pub parse_time_range-cases :
    (parse : Text → Option Time) (now : Time) (q : Query)
    → ((from : Time) × (to : Time) × (parse_time_range parse now q ≡ range from to)
        × Bounds parse now q from to)
      ⊎ ((msg : Text) × (parse_time_range parse now q ≡ bad_range msg)
          × ((from to : Time) → ¬ Bounds parse now q from to))
unfolding parse_time_range
parse_time_range-cases parse now q = elim (Option-cases (bound_or parse now q.to)) [
  | inl bad ↦ inr (
    text "invalid 'to' (want RFC3339)",
    rw (bad, parse_time_range),
    λ f t b. cc (bad, b.to_given),
  )
  | inr (to, e) ↦ elim (Option-cases (bound_or parse (to -ℤ default_range) q.from)) [
    | inl bad ↦ inr (
      text "invalid 'from' (want RFC3339)",
      rw (e, bad, parse_time_range),
      λ f t b. cc (bad, from_given parse now q to f t e b),
    )
    | inr (from, e') ↦ elim (ordered_range-cases from to) [
      | inl (r, lt) ↦ inl (
        from,
        to,
        rw (e, e', parse_time_range) r,
        record { to_given = e; from_given = e'; ordered = lt },
      )
      | inr (msg, r, ge) ↦ inr (
        msg,
        rw (e, e', parse_time_range) r,
        λ f t b. ge (
            subst2 (same_some t to (sym b.to_given ∙ e))
              (same_some f from (sym (from_given parse now q to f t e b) ∙ e')) b.ordered),
      )
    ]
  ]
]

module _ {S : Type 0} (queries : SeriesQueries S) (select_channels : S → Option (List Channel) × S)
    (now : S → Time) (parse_rfc3339 : Text → Option Time) where
  -- What an answer of `handle_series` means.
  pub data Served (q : Query) (s : S) (a : Answer) (s' : S) : Type 0 where
    -- 400: the request lacks a name or an ordered range, and no query was made
    refused :
        (msg : Text)
        → a ≡ error 400 msg
        → s' ≡ s
        → (q.source ≡ [])
          ⊎ (q.metric ≡ [])
          ⊎ ((from to : Time) → ¬ Bounds parse_rfc3339 (now s) q from to)
        → Served q s a s'
    -- the names are there, and one query was made, of an ordered range and a step "<n><unit>", and its outcome is the answer
    queried :
        (from to : Time) (step : Text) (n k : ℕ) (buckets : Option (List Bucket))
        → q.source ≢ []
        → q.metric ≢ []
        → Bounds parse_rfc3339 (now s) q from to
        → IsStep step n k
        → query_series queries q.source q.metric from to step s ≡ (buckets, s')
        → ((buckets ≡ none) × (a ≡ error 500 (text "query failed")))
          ⊎ ((bs : List Bucket) × (buckets ≡ some bs)
              × (a ≡ series q.source q.metric step from to bs))
        → Served q s a s'

  -- The handler answers 400 and makes no query where a name or an ordered range is missing; or both
  -- names and the range are there, and it makes one query, over the ordered range of the request with a step of one to four digits and a
  -- unit, and answers its buckets, or 500 where it failed.
  pub handle_series-Served :
      (q : Query) (s : S)
      → let (a, s') = handle_series queries select_channels now parse_rfc3339 q s in Served q s a s'
  unfolding handle_series
  handle_series-Served q s = elim (Bool-cases (is_empty q.source || is_empty q.metric)) [
    | inl nameless ↦
        rw (nameless, handle_series)
          (refused _ refl refl (or_range (nameless-cases q.source q.metric nameless)))
    | inr named ↦ elim (parse_time_range-cases parse_rfc3339 (now s) q) [
      | inr (msg, e, bad) ↦ rw (named, e, handle_series) (refused msg refl refl (inr (inr bad)))
      | inl (from, to, e, b) ↦
          let (source_named, metric_named) = named-both q.source q.metric named in
          let step = resolve_step q.step from to in
          let (n, k, h) = resolve_step-IsStep q.step from to in
          let answer = query_series queries q.source q.metric from to step s in
          elim (Option-cases answer.0) [
            | inl failed ↦
                rw (named, e, failed, handle_series)
                  (queried from to step n k none source_named metric_named b h
                    (ap (λ o. (o, answer.1)) failed) (inl (refl, refl)))
            | inr (bs, got) ↦
                rw (named, e, got, handle_series)
                  (queried from to step n k (some bs) source_named metric_named b h
                    (ap (λ o. (o, answer.1)) got) (inr (bs, refl, refl)))
          ]
    ]
  ]
    where
      or_range : {A B C : Type 0} → A ⊎ B → A ⊎ B ⊎ C
      or_range (inl a) = inl a
      or_range (inr b) = inr (inl b)
