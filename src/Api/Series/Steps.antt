-- ===== src/Api/Series/Steps.antt =====
-- The steps that a request is answered with.
use mathlib.Core.Path.{subst}
use native.Mathlib.Nat.{lt_of_mul-lt-mul_right}
use cryo_lab_telemetry.Prelude.{
  ℕ, suc, ◌+◌, ◌*◌, ◌-◌, ◌≤◌, ◌<◌, ◌≡◌, ◌⊎◌, refl, sym, ap, ◌∙◌, inl, inr, Text, text, [], ◌∷◌,
  arith, false, Bool-cases, ◌^◌,
}
use cryo_lab_telemetry.Prelude.Decimal.Laws.{IsDigit}
use cryo_lab_telemetry.Prelude.Int.{ℤ, pos, ◌≤ℤ◌, ◌<ℤ◌, leb_ℤ, ◌-ℤ◌, ◌+ℤ◌, -ℤ_parts, +ℤ_parts}
use cryo_lab_telemetry.Values.{Time, second}
use cryo_lab_telemetry.Store.Series.{SeriesQueries, scan_buckets, step_seconds, query_series}
use cryo_lab_telemetry.Store.Series.Steps.{IsUnit, IsStep, step_seconds-IsStep}
use cryo_lab_telemetry.Api.Series.{step_pattern, sub_time, auto_step, minutes, resolve_step}
use cryo_lab_telemetry.Api.Series.Pattern.{step_pattern-IsStep}

-- The automatic steps.
abbrev pub AutoStep : ℤ → Text → Type 0
AutoStep span t =
    (secs : ℕ) × (n : ℕ) × (k : ℕ) × IsStep t n k
    × (secs ≡ n * k)
    × (5 ≤ secs)
    × ((span ≤ℤ minutes 44640) → span ≤ℤ pos (744 * secs * second))
    × ((minutes 60 <ℤ span) → 30 ≤ secs)

abbrev one_digit :
    (d u k : ℕ) → IsDigit d → IsUnit u k → IsStep (d ∷ u ∷ []) (0 * 10 + (d - b'0')) k
one_digit d u k h i = record {
  digits = d ∷ [];
  unit = u;
  parts = refl;
  all_digits = (h, tt);
  some_digit = omega arith;
  few = omega arith;
  number = refl;
  seconds = i;
}

abbrev two_digits :
    (c d u k : ℕ)
    → IsDigit c
    → IsDigit d
    → IsUnit u k
    → IsStep (c ∷ d ∷ u ∷ []) ((0 * 10 + (c - b'0')) * 10 + (d - b'0')) k
two_digits c d u k g h i = record {
  digits = c ∷ d ∷ [];
  unit = u;
  parts = refl;
  all_digits = (g, (h, tt));
  some_digit = omega arith;
  few = omega arith;
  number = refl;
  seconds = i;
}

auto_step-AutoStep : (span : ℤ) → AutoStep span (auto_step span)
unfolding auto_step
auto_step-AutoStep span = elim (Bool-cases (leb_ℤ span (minutes 60))) [
  | inl e ↦ rw e (
    5,
    5,
    1,
    one_digit b'5' b's' 1 (omega arith, omega arith) (inl (refl, refl)),
    refl,
    omega arith,
    λ _. ground arith,
    λ k. absurd (ground arith),
  )
  | inr a ↦ elim (Bool-cases (leb_ℤ span (minutes 360))) [
    | inl e ↦
        rw (a, e)
          (
            30,
            30,
            1,
            two_digits b'3' b'0' b's' 1 (omega arith, omega arith) (omega arith, omega arith)
                (inl (refl, refl)),
            refl,
            omega arith,
            λ _. ground arith,
            λ _. omega arith,
          )
    | inr b ↦ elim (Bool-cases (leb_ℤ span (minutes 1440))) [
      | inl e ↦
          rw (a, b, e)
            (
              120,
              2,
              60,
              one_digit b'2' b'm' 60 (omega arith, omega arith) (inr (inl (refl, refl))),
              refl,
              omega arith,
              λ _. ground arith,
              λ _. omega arith,
            )
      | inr c ↦ elim (Bool-cases (leb_ℤ span (minutes 10080))) [
        | inl e ↦
            rw (a, b, c, e)
              (
                900,
                15,
                60,
                two_digits b'1' b'5' b'm' 60 (omega arith, omega arith) (omega arith, omega arith)
                    (inr (inl (refl, refl))),
                refl,
                omega arith,
                λ _. ground arith,
                λ _. omega arith,
              )
        | inr d ↦ elim (Bool-cases (leb_ℤ span (minutes 44640))) [
          | inl e ↦
              rw (a, b, c, d, e)
                (
                  3600,
                  1,
                  3600,
                  one_digit b'1' b'h' 3600 (omega arith, omega arith)
                      (inr (inr (inl (refl, refl)))),
                  refl,
                  omega arith,
                  λ _. ground arith,
                  λ _. omega arith,
                )
          | inr e ↦
              rw (a, b, c, d, e)
                (
                  21600,
                  6,
                  3600,
                  one_digit b'6' b'h' 3600 (omega arith, omega arith)
                      (inr (inr (inl (refl, refl)))),
                  refl,
                  omega arith,
                  λ k. absurd (ground arith),
                  λ _. omega arith,
                )
        ]
      ]
    ]
  ]
]

-- The cut-off does not matter to a comparison with less than 2 ^ 62 nanoseconds.
lt-sub_time : (t u : Time) (n : ℕ) → n < 2 ^ 62 → (pos n <ℤ t -ℤ u) → pos n <ℤ sub_time t u
unfolding sub_time
lt-sub_time t u n h k = ground arith

sub_time-eq :
    (t u : Time) (n : ℕ) → n < 2 ^ 62 → pos 0 ≤ℤ t -ℤ u → t -ℤ u ≤ℤ pos n → sub_time t u ≡ t -ℤ u
unfolding sub_time
sub_time-eq t u n h z k = ground arith

ordered-difference : (from to : Time) → from <ℤ to → pos 0 ≤ℤ to -ℤ from
unfolding ◌-ℤ◌
ordered-difference from to h = ground arith

-- The step that a request is answered with is always of the form that the pattern asks for.
pub resolve_step-IsStep :
    (requested : Text) (from to : Time)
    → (n : ℕ) × (k : ℕ) × IsStep (resolve_step requested from to) n k
unfolding resolve_step
resolve_step-IsStep requested from to = elim (Bool-cases (step_pattern requested)) [
  | inl e ↦ rw e (step_pattern-IsStep requested e)
  | inr e ↦ let (_, n, k, h, _, _, _, _) = auto_step-AutoStep (sub_time to from) in rw e (n, k, h)
]

times_assoc : (k : ℕ) → 744 * k * second ≡ 744 * (k * second)
times_assoc k = omega arith

times-lt : (w i j : ℕ) → j * w < (i + 745) * w → j ≤ i + 744
times-lt w i j h = omega (arith, lt_of_mul-lt-mul_right w h)

-- A range as long as 744 widths meets no bucket more than 744 behind another.
bucket_span :
    (from to origin : Time) (w i j : ℕ)
    → to -ℤ from ≤ℤ pos (744 * w)
    → (from <ℤ origin +ℤ pos (suc i * w))
    → (origin +ℤ pos (j * w) <ℤ to)
    → j ≤ i + 744
bucket_span from to origin w i j long ends starts = times-lt w i j (
    omega (
      arith,
      long,
      ends,
      starts,
      -ℤ_parts to from,
      +ℤ_parts origin (pos (suc i * w)),
      +ℤ_parts origin (pos (j * w)),
      split,
    ))
  where
    split : (i + 745) * w ≡ suc i * w + 744 * w
    split = grind arith

-- A request that names no valid step is answered with one of at least 5 seconds. A range of up to 31
-- days is at most 744 steps long, and so has a part of at most 745 buckets: wherever the buckets
-- start, if bucket `i` ends after the start of the range and bucket `j` starts before its end, `j` is
-- at most 744 further on. A range of more than an hour has steps of at least 30 seconds.
pub resolve_step-auto :
    (requested : Text) (from to : Time)
    → step_pattern requested ≡ false
    → from <ℤ to
    → (secs : ℕ) × (step_seconds (resolve_step requested from to) ≡ pos secs)
      × (5 ≤ secs)
      × ((to -ℤ from ≤ℤ minutes 44640) → to -ℤ from ≤ℤ pos (744 * secs * second))
      × ((to -ℤ from ≤ℤ minutes 44640)
          → (origin : Time) (i j : ℕ) → (from <ℤ origin +ℤ pos (suc i * (secs * second)))
          → (origin +ℤ pos (j * (secs * second)) <ℤ to)
          → j ≤ i + 744)
      × ((minutes 60 <ℤ to -ℤ from) → 30 ≤ secs)
unfolding resolve_step
resolve_step-auto requested from to e lt =
    let (secs, n, k, h, w, five, points, wide) = auto_step-AutoStep (sub_time to from) in
    let long = λ (r : to -ℤ from ≤ℤ minutes 44640).
      subst (λ d. (d ≤ℤ minutes 44640) → d ≤ℤ pos (744 * secs * second))
        (sub_time-eq to from (44640 * 60 * second) (omega arith) (ordered-difference from to lt) r)
        points r in
    rw e (
      secs,
      step_seconds-IsStep _ n k h ∙ ap pos (sym w),
      five,
      long,
      λ r origin i j ends starts.
          bucket_span from to origin (secs * second) i j
            (subst (λ d. to -ℤ from ≤ℤ pos d) (times_assoc secs) (long r)) ends starts,
      λ r. wide (lt-sub_time to from (60 * 60 * second) (omega arith) r),
    )

module _ {S : Type 0} (q : SeriesQueries S) where
  query_series-width :
      (source metric t : Text) (from to : Time) (secs : ℕ) (s : S)
      → step_seconds t ≡ pos secs
      → let answer = query_series q source metric from to t s in
        ((secs ≡ 0) × (answer ≡ scan_buckets (q.raw t source metric from to s)))
        ⊎ ((1 ≤ secs)
            × (secs < 60)
            × (answer ≡ scan_buckets (q.rollup (text "readings_1s") t source metric from to s)))
        ⊎ ((60 ≤ secs)
            × (answer ≡ scan_buckets (q.rollup (text "readings_1m") t source metric from to s)))
  unfolding query_series
  query_series-width source metric t from to secs s e =
      elim (Bool-cases (leb_ℤ (pos 60) (pos secs))) [
        | inl wide ↦ inr (inr (ground arith, rw (e, wide, query_series)))
        | inr narrow ↦ elim (Bool-cases (leb_ℤ (pos 1) (pos secs))) [
          | inl some_width ↦
              inr (inl (ground arith, ground arith, rw (e, narrow, some_width, query_series)))
          | inr no_width ↦ inl (ground arith, rw (e, narrow, no_width, query_series))
        ]
      ]

  -- What a step of `n` units of `k` seconds is read from: the raw readings only where its width is
  -- 0, else the rollup of seconds where it is shorter than a minute, else the rollup of minutes.
  -- The rows are those that the loop of scanBuckets collects.
  pub query_series-IsStep :
      (source metric t : Text) (from to : Time) (n k : ℕ) (s : S)
      → IsStep t n k
      → let answer = query_series q source metric from to t s in
        ((n * k ≡ 0) × (answer ≡ scan_buckets (q.raw t source metric from to s)))
        ⊎ ((1 ≤ n * k)
            × (n * k < 60)
            × (answer ≡ scan_buckets (q.rollup (text "readings_1s") t source metric from to s)))
        ⊎ ((60 ≤ n * k)
            × (answer ≡ scan_buckets (q.rollup (text "readings_1m") t source metric from to s)))
  query_series-IsStep source metric t from to n k s h =
      query_series-width source metric t from to (n * k) s (step_seconds-IsStep t n k h)
