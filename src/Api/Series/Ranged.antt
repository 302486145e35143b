-- ===== src/Api/Series/Ranged.antt =====
-- The answer to a read of a series that names an ordered range.
use cryo_lab_telemetry.Prelude.{
  ◌≡◌, ◌≢◌, refl, inl, inr, Text, text, is_empty, Option, none, some, List, [], ◌∷◌, false,
  Option-cases, ◌||◌, arith,
}
use cryo_lab_telemetry.Prelude.Int.{◌<ℤ◌, ◌-ℤ◌}
use cryo_lab_telemetry.Values.{Time}
use cryo_lab_telemetry.Store.Data.{Channel}
use cryo_lab_telemetry.Store.Series.{Bucket, SeriesQueries, query_series}
use cryo_lab_telemetry.Api.Series.{
  Query, default_range, bound_or, range, ordered_range, parse_time_range, resolve_step, Answer,
  error, series, handle_series,
}
use cryo_lab_telemetry.Api.Series.Answers.{Bounds}

named : (s m : Text) → s ≢ [] → m ≢ [] → (is_empty s || is_empty m) ≡ false
named s m hs hm = ground arith

module _ (parse : Text → Option Time) (now : Time) (q : Query) (from to : Time)
    (b : Bounds parse now q from to) where
  parse_time_range-Bounds : parse_time_range parse now q ≡ range from to
  unfolding parse_time_range ordered_range
  parse_time_range-Bounds =
      rw (b.to_given, b.from_given, parse_time_range) (ground (arith, b.ordered))

bound_or-given :
    (parse : Text → Option Time) (default : Time) (v : Text) {t : Time}
    → v ≢ []
    → parse v ≡ some t
    → bound_or parse default v ≡ some t
bound_or-given parse default [] h e = absurd (h refl)
bound_or-given parse default (c ∷ v) h e = e

-- Bounds that a request gives.
pub given-Bounds :
    (parse : Text → Option Time) (now : Time) (q : Query) (from to : Time)
    → q.from ≢ []
    → q.to ≢ []
    → parse q.from ≡ some from
    → parse q.to ≡ some to
    → from <ℤ to
    → Bounds parse now q from to
given-Bounds parse now q from to hf ht ef et lt = record {
  to_given = bound_or-given parse now q.to ht et;
  from_given = bound_or-given parse (to -ℤ default_range) q.from hf ef;
  ordered = lt;
}

-- What a query comes to.
abbrev pub answer_of : Query → Text → Time → Time → Option (List Bucket) → Answer
answer_of q step from to none = error 500 (text "query failed")
answer_of q step from to (some bs) = series q.source q.metric step from to bs

module _ {S : Type 0} (queries : SeriesQueries S) (select_channels : S → Option (List Channel) × S)
    (now : S → Time) (parse : Text → Option Time) where
  -- A request with names and an ordered range is one query, and answers what it comes to.
  pub handle_series-Bounds :
      (q : Query) (s : S) (from to : Time)
      → q.source ≢ []
      → q.metric ≢ []
      → Bounds parse (now s) q from to
      → let step = resolve_step q.step from to in
        let (buckets, s') = query_series queries q.source q.metric from to step s in
        handle_series queries select_channels now parse q s ≡ (answer_of q step from to buckets, s')
  unfolding handle_series
  handle_series-Bounds q s from to hs hm b =
      let step = resolve_step q.step from to in
      elim (Option-cases (query_series queries q.source q.metric from to step s).0) [
        | inl lost ↦
            rw
              (
                named q.source q.metric hs hm,
                parse_time_range-Bounds parse (now s) q from to b,
                lost,
                handle_series,
              )
              refl
        | inr (bs, got) ↦
            rw
              (
                named q.source q.metric hs hm,
                parse_time_range-Bounds parse (now s) q from to b,
                got,
                handle_series,
              )
              refl
      ]
