-- ===== src/Bench/Read/Accepted.antt =====
-- The server accepts what the read mode asks for.
use mathlib.Core.List.{Memᴰ}
use mathlib.Core.Path.{subst}
use cryo_lab_telemetry.Prelude.{
  ℕ, ◌*◌, ◌/◌, ◌-◌, ◌≤◌, ◌<◌, ◌≡◌, ◌≢◌, ◌⊎◌, refl, sym, ap, ◌∙◌, inl, inr, Text, text, Option, some,
  List, [], arith, Option-cases,
}
use cryo_lab_telemetry.Prelude.Int.{ℤ, pos, negsuc, ◌-ℤ◌, ◌≤ℤ◌, ◌<ℤ◌, eq_of_parts, -ℤ_parts}
use cryo_lab_telemetry.Values.{Time, second}
use cryo_lab_telemetry.Store.Data.{Row, Channel}
use cryo_lab_telemetry.Store.World.{World}
use cryo_lab_telemetry.Store.Reads.{Reads, channels}
use cryo_lab_telemetry.Store.Series.{Bucket, SeriesQueries, query_series, step_seconds}
use cryo_lab_telemetry.Api.Series.{
  Query, resolve_step, Answer, error, series, handle_series, minutes, step_pattern,
}
use cryo_lab_telemetry.Api.Series.Answers.{Bounds}
use cryo_lab_telemetry.Api.Series.Ranged.{given-Bounds, answer_of, handle_series-Bounds}
use cryo_lab_telemetry.Api.Series.Steps.{resolve_step-auto}
use cryo_lab_telemetry.Store.Reads.Latest.{channels-IsChannels}
use cryo_lab_telemetry.Api.Http.{write_json, channels_response}
use cryo_lab_telemetry.Api.Ops.{handle_channels}
use cryo_lab_telemetry.Api.Router.ReadBack.{handle_channels-read}
use cryo_lab_telemetry.Bench.Read.Chosen.{IsStored, to_read-cases}
use cryo_lab_telemetry.Bench.Read.{listed, to_read, hours, ranges, read_query}

-- An instant without the fraction of its second.
abbrev pub whole : Time → Time
whole (pos n) = pos (n / second * second)
whole (negsuc n) = negsuc n

-- time.RFC3339 as a format and for time.Parse, from the year 1 to the year 9999: what is written is
-- read back, without the fraction of the second.
pub record Rfc3339 : Type 0 where
  pub format : Time → Text
  pub parse : Text → Option Time
  pub written : (t : Time) → format t ≢ []
  pub read_back :
      (n : ℕ) → n < 315_537_897_600 * second → parse (format (pos n)) ≡ some (whole (pos n))

-- A range is a number of seconds.
ranges-seconds :
    (span : ℕ) → Memᴰ span ranges → (k : ℕ) × (span ≡ k * second) × (1 ≤ k) × (k ≤ 40 * 24 * 3600)
ranges-seconds span (Memᴰ.head e) = (3600, e, omega arith, omega arith)
ranges-seconds span (Memᴰ.tail (Memᴰ.head e)) = (24 * 3600, e, omega arith, omega arith)
ranges-seconds span (Memᴰ.tail (Memᴰ.tail (Memᴰ.head e))) =
    (7 * 24 * 3600, e, omega arith, omega arith)
ranges-seconds span (Memᴰ.tail (Memᴰ.tail (Memᴰ.tail (Memᴰ.head e)))) =
    (40 * 24 * 3600, e, omega arith, omega arith)
ranges-seconds span (Memᴰ.tail (Memᴰ.tail (Memᴰ.tail (Memᴰ.tail i)))) = elim i [ ]

sub-pos : (n m : ℕ) → m ≤ n → pos n -ℤ pos m ≡ pos (n - m)
sub-pos n m h = eq_of_parts _ _ (omega (arith, -ℤ_parts (pos n) (pos m)))

whole-sub :
    (n k : ℕ)
    → k * second ≤ n
    → whole (pos n -ℤ pos (k * second)) ≡ whole (pos n) -ℤ pos (k * second)
whole-sub n k h =
    ap whole (sub-pos n (k * second) h)
    ∙ eq_of_parts _ _ (omega (arith, -ℤ_parts (pos (n / second * second)) (pos (k * second))))

sub-sub : (a : ℤ) (k : ℕ) → a -ℤ (a -ℤ pos k) ≡ pos k
sub-sub a k = eq_of_parts _ _ (omega (arith, -ℤ_parts a (a -ℤ pos k), -ℤ_parts a (pos k)))

sub-lt : (a : ℤ) (k : ℕ) → 1 ≤ k → a -ℤ pos k <ℤ a
sub-lt a k h = omega (arith, -ℤ_parts a (pos k))

read_query-Bounds :
    (f : Rfc3339) (now : Time) (source m : Text) (k n : ℕ)
    → 1 ≤ k
    → k * second ≤ n
    → n < 315_537_897_600 * second
    → Bounds f.parse now
        (read_query f.format source m (k * second) (pos n))
        (whole (pos n) -ℤ pos (k * second))
        (whole (pos n))
unfolding read_query
read_query-Bounds f now source m k n some_seconds early late =
    let q = read_query f.format source m (k * second) (pos n) in
    let less = sub-pos n (k * second) early in
    given-Bounds f.parse now q (whole (pos n) -ℤ pos (k * second)) (whole (pos n))
      (f.written (pos n -ℤ pos (k * second))) (f.written (pos n))
      (ap (λ (t : Time). f.parse (f.format t)) less
        ∙ f.read_back (n - k * second) (omega (arith, late))
        ∙ ap some (ap whole (sym less) ∙ whole-sub n k early))
      (f.read_back n late) (sub-lt (whole (pos n)) (k * second) (omega (arith, some_seconds)))

module _ {S : Type 0} (queries : SeriesQueries S) (select_channels : S → Option (List Channel) × S)
    (now : S → Time) (f : Rfc3339) where
  -- The answer is a series over exactly the range, or says that the query failed.
  abbrev pub IsAccepted : Text → Text → ℕ → Time → Answer → Type 0
  IsAccepted source m span to a =
      (step : Text) × (secs : ℕ) × (step_seconds step ≡ pos secs)
      × (5 ≤ secs)
      × (span ≤ hours (31 * 24) → span ≤ 744 * secs * second)
      × ((a ≡ error 500 (text "query failed"))
          ⊎ ((bs : List Bucket) × (a ≡ series source m step (whole to -ℤ pos span) (whole to) bs)))

  answered :
      (q : Query) (s : S) (from to : Time)
      → let step = resolve_step q.step from to in
        let (buckets, s') = query_series queries q.source q.metric from to step s in
        handle_series queries select_channels now f.parse q s
          ≡ (answer_of q step from to buckets, s')
        → let a = (handle_series queries select_channels now f.parse q s).0 in
          (a ≡ error 500 (text "query failed"))
          ⊎ ((bs : List Bucket) × (a
                ≡ series q.source q.metric (resolve_step q.step from to) from to bs))
  answered q s from to e =
      let a = ap (λ (r : Answer × S). r.0) e in
      let step = resolve_step q.step from to in
      elim (Option-cases (query_series queries q.source q.metric from to step s).0) [
        | inl lost ↦ inl (a ∙ ap (answer_of q step from to) lost)
        | inr (bs, got) ↦ inr (bs, a ∙ ap (answer_of q step from to) got)
      ]

  read_query-IsAccepted :
      (source m : Text) (span n : ℕ) (s : S)
      → source ≢ []
      → m ≢ []
      → Memᴰ span ranges
      → hours (40 * 24) ≤ n
      → n < 315_537_897_600 * second
      → IsAccepted source m span
          (pos n)
          (handle_series queries select_channels now f.parse
            (read_query f.format source m span (pos n))
            s).0
  unfolding read_query
  read_query-IsAccepted source m span n s named measured one early late =
      let (k, seconds, some_seconds, few) = ranges-seconds span one in
      subst
        (λ (x : ℕ).
          IsAccepted source m x (pos n)
            (handle_series queries select_channels now f.parse
              (read_query f.format source m x (pos n)) s).0)
        (sym seconds) (accepted k some_seconds few)
    where
      accepted :
          (k : ℕ)
          → 1 ≤ k
          → k ≤ 40 * 24 * 3600
          → IsAccepted source m
              (k * second)
              (pos n)
              (handle_series queries select_channels now f.parse
                (read_query f.format source m (k * second) (pos n))
                s).0
      accepted k some_seconds few =
          let q = read_query f.format source m (k * second) (pos n) in
          let to = whole (pos n) in
          let from = whole (pos n) -ℤ pos (k * second) in
          let b =
            read_query-Bounds f (now s) source m k n some_seconds (omega (arith, few, early))
              late in
          let (secs, e, five, points, _, _) =
            resolve_step-auto [] from to (unfold step_pattern in refl) b.ordered in
          let span = sub-sub to (k * second) in
          (
            resolve_step [] from to,
            secs,
            e,
            five,
            λ h.
                let few_points : pos (k * second) ≤ℤ pos (744 * secs * second) =
                  subst (λ (d : ℤ). (d ≤ℤ minutes 44640) → d ≤ℤ pos (744 * secs * second)) span
                    points (omega (arith, h)) in
                omega (arith, few_points),
            answered q s from to (
                handle_series-Bounds queries select_channels now f.parse q s from to named measured
                  b),
          )

module _ (w : World) (q : Reads w) (f : Rfc3339) where
  open w use {State, now, tables}

  -- What is read of the metric `m`: an accepted answer, where the metric is that of the flags or
  -- that of a reading stored at `s0`.
  abbrev pub IsRead : State → State → Text → Text → Text → Text → ℕ → ℕ → Type 0
  IsRead s0 s source_flag metric_flag source m span n =
      IsAccepted q.series (channels w q) now f source m span (pos n)
        (handle_series q.series (channels w q) now f.parse
          (read_query f.format source m span (pos n)) s).0
      × (((source ≡ source_flag) × (m ≡ metric_flag))
          ⊎ IsStored q.instant (tables s0).readings source m)

  -- Where no stored reading has an empty metric, the server accepts what the bench reads.
  pub to_read-IsAccepted :
      (s0 s : State) (cs : List Channel) (source_flag metric_flag source m : Text)
      (metrics : List Text) (span n : ℕ)
      → (handle_channels w q s0).0 ≡ write_json 200 (channels_response cs)
      → ((r : Row) → Memᴰ r (tables s0).readings → r.metric ≢ [])
      → to_read source_flag metric_flag (listed cs) ≡ some (source, metrics)
      → Memᴰ m metrics
      → Memᴰ span ranges
      → hours (40 * 24) ≤ n
      → n < 315_537_897_600 * second
      → IsRead s0 s source_flag metric_flag source m span n
  to_read-IsAccepted s0 s cs source_flag metric_flag source m metrics span n answered clean chosen i
        j early late =
      let all = channels-IsChannels w q s0 cs (handle_channels-read w q s0 cs answered) in
      let (named, from) =
        to_read-cases q.instant (tables s0).readings cs source_flag metric_flag source m metrics all
          chosen i in
      let accepted = λ (measured : m ≢ []).
        read_query-IsAccepted q.series (channels w q) now f source m span n s named measured j early
          late in
      elim from [
        | inl (measured, same, same') ↦ (accepted measured, inl (same, same'))
        | inr (r, k, src, met) ↦ (accepted (λ e. clean r k (met ∙ e)), inr (r, k, src, met))
      ]
