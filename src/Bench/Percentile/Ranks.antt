-- ===== src/Bench/Percentile/Ranks.antt =====
-- What a percentile is: an order statistic of the samples.
use mathlib.Core.Path.{subst}
use cryo_lab_telemetry.Prelude.{
  ℕ, zero, suc, ◌+◌, ◌-◌, ◌≤◌, ◌<◌, ◌≡◌, inl, inr, refl, sym, ap, ◌∙◌, List, [], ◌∷◌, some,
  if◌then◌else◌, ◌&&◌, length, get_elem?, count, arith, Bool-cases,
}
use cryo_lab_telemetry.Prelude.Int.{ℤ, pos, negsuc, leb_ℤ, ◌≤ℤ◌, ◌-ℤ◌}
use cryo_lab_telemetry.Bench.Percentile.{Floats, sort_samples, position, at_position, pct}
use cryo_lab_telemetry.Bench.Percentile.Order.{
  sort_samples-IsAscending, count-sort_samples, length-sort_samples, get_elem?-count,
  get_elem?_mono,
}

-- The rank that `pct` asks for among `n` samples: ⌈p / 100 * n⌉, as float64 computes it.
abbrev pub rank : (f : Floats) → f.Float → ℕ → ℤ
rank f p n = f.ceil (f.mul (f.div p (f.of_int 100)) (f.of_int n))

-- A rank brought into 1..n.
abbrev pub clamped : ℤ → ℕ → ℕ
clamped (pos r) n = if leb_ℤ (pos n) (pos r) then n else if leb_ℤ (pos r) (pos 0) then 1 else r
clamped (negsuc r) n = 1

-- The position that is read is one below the clamped rank.
position-clamped :
    (r : ℤ) (n : ℕ)
    → 1 ≤ n
    → (i : ℕ) × (position (r -ℤ pos 1) n ≡ pos i) × (suc i ≡ clamped r n) × (i < n)
unfolding position ◌-ℤ◌
position-clamped (pos r) n h = elim (Bool-cases (leb_ℤ (pos n) (pos r))) [
  | inl over ↦ (n - 1, ground arith, ground arith, omega arith)
  | inr under ↦ (r - 1, ground arith, ground arith, ground arith)
]
position-clamped (negsuc r) n h = (0, ground arith, ground arith, omega arith)

at_position-some :
    (s : List ℤ) (z : ℤ) (i : ℕ) (v : ℤ) → z ≡ pos i → get_elem? s i ≡ some v → at_position s z ≡ v
unfolding at_position
at_position-some s z i v e g = rw e (rw (g, at_position) refl)

-- The sample that `pct` reads, and its place.
pct-at :
    (f : Floats) (d : ℤ) (ds : List ℤ) (p : f.Float) (n : ℕ)
    → length (sort_samples (d ∷ ds)) ≡ n
    → 1 ≤ n
    → (i : ℕ) × (suc i ≡ clamped (rank f p n) n)
      × (i < n)
      × (get_elem? (sort_samples (d ∷ ds)) i ≡ some (pct f (d ∷ ds) p))
unfolding pct
pct-at f d ds p n e h =
    let (i, at, c, lt) = position-clamped (rank f p n) n h in
    let s = sort_samples (d ∷ ds) in
    let (v, g, _, _) =
      get_elem?-count s i (sort_samples-IsAscending (d ∷ ds)) (omega (arith, e, lt)) in
    (i, c, lt, g ∙ ap some (sym (at_position-some s _ i v (rw e at) g)))

get_elem?-occurs :
    (v : ℤ) (s : List ℤ) (i : ℕ)
    → get_elem? s i ≡ some v
    → 1 ≤ count (λ e. leb_ℤ v e && leb_ℤ e v) s
get_elem?-occurs v [] i g = absurd (ground arith)
get_elem?-occurs v (x ∷ xs) zero g = ground arith
get_elem?-occurs v (x ∷ xs) (suc i) g = ground (arith, get_elem?-occurs v xs i g)

-- In any non-empty list of samples, of length n, the percentile p is the sample of rank k in sorted
-- order, where k is ⌈p / 100 * n⌉ as float64 computes it, brought into 1..n: at least k samples are
-- at most it, at least n - k + 1 are at least it, and it is one of the samples.
pub pct-rank :
    (f : Floats) (d : ℤ) (ds : List ℤ) (p : f.Float)
    → let n = length (d ∷ ds) in
      let k = clamped (rank f p n) n in
      let v = pct f (d ∷ ds) p in
      (1 ≤ k)
      × (k ≤ n)
      × (k ≤ count (λ e. leb_ℤ e v) (d ∷ ds))
      × (n - k + 1 ≤ count (λ e. leb_ℤ v e) (d ∷ ds))
      × (1 ≤ count (λ e. leb_ℤ v e && leb_ℤ e v) (d ∷ ds))
pct-rank f d ds p =
    let n = length (d ∷ ds) in
    let s = sort_samples (d ∷ ds) in
    let l = length-sort_samples (d ∷ ds) in
    let (i, c, lt, g) = pct-at f d ds p n l (omega arith) in
    let v = pct f (d ∷ ds) p in
    let (w, g', below, above) =
      get_elem?-count s i (sort_samples-IsAscending (d ∷ ds)) (omega (arith, l, lt)) in
    let same : w ≡ v = ground (arith, g, g') in
    let low : suc i ≤ count (λ e. leb_ℤ e v) s =
      subst (λ x. suc i ≤ count (λ e. leb_ℤ e x) s) same below in
    let high : length s - i ≤ count (λ e. leb_ℤ v e) s =
      subst (λ x. length s - i ≤ count (λ e. leb_ℤ x e) s) same above in
    (
      omega (arith, c),
      omega (arith, c, lt),
      omega (arith, c, low, count-sort_samples (λ e. leb_ℤ e v) (d ∷ ds)),
      omega (arith, c, lt, l, high, count-sort_samples (λ e. leb_ℤ v e) (d ∷ ds)),
      omega (
        arith,
        get_elem?-occurs v s i g,
        count-sort_samples (λ e. leb_ℤ v e && leb_ℤ e v) (d ∷ ds),
      ),
    )

-- Of two percentiles of the same samples, that of the lower rank is at most the other.
pub pct_mono :
    (f : Floats) (ds : List ℤ) (p q : f.Float)
    → clamped (rank f p (length ds)) (length ds) ≤ clamped (rank f q (length ds)) (length ds)
    → pct f ds p ≤ℤ pct f ds q
unfolding pct
pct_mono f [] p q h = omega arith
pct_mono f (d ∷ ds) p q h =
    let l = length-sort_samples (d ∷ ds) in
    let n = length (d ∷ ds) in
    let (i, c, lt, g) = pct-at f d ds p n l (omega arith) in
    let (j, c', lt', g') = pct-at f d ds q n l (omega arith) in
    get_elem?_mono (sort_samples (d ∷ ds)) i j _ _ (sort_samples-IsAscending (d ∷ ds))
      (omega (arith, h, c, c')) g g'
