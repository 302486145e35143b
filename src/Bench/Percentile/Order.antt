-- ===== src/Bench/Percentile/Order.antt =====
-- Sorted samples: the same samples, in ascending order.
use cryo_lab_telemetry.Prelude.{
  ℕ, zero, suc, ◌+◌, ◌-◌, ◌≤◌, ◌<◌, ◌≡◌, inl, inr, refl, List, [], ◌∷◌, some, if◌then◌else◌, length,
  get_elem?, count, All, arith, Bool, true, Bool-cases,
}
use cryo_lab_telemetry.Prelude.Int.{ℤ, leb_ℤ, ◌≤ℤ◌}
use cryo_lab_telemetry.Bench.Percentile.{insert_sample, sort_samples}

-- each sample is at most all that follow
abbrev pub IsAscending : List ℤ → Type 0
IsAscending [] = Unit
IsAscending (d ∷ ds) = All (λ e. d ≤ℤ e) ds × IsAscending ds

All-insert :
    (x d : ℤ) (ds : List ℤ) → x ≤ℤ d → All (λ e. x ≤ℤ e) ds → All (λ e. x ≤ℤ e) (insert_sample d ds)
unfolding insert_sample
All-insert x d [] h k = (h, tt)
All-insert x d (e ∷ es) h (k, ks) = elim (Bool-cases (leb_ℤ d e)) [
  | inl before ↦ rw before (h, (k, ks))
  | inr behind ↦ rw behind (k, All-insert x d es h ks)
]

All-trans : (x d : ℤ) (ds : List ℤ) → x ≤ℤ d → All (λ e. d ≤ℤ e) ds → All (λ e. x ≤ℤ e) ds
All-trans x d [] h k = tt
All-trans x d (e ∷ es) h (k, ks) = (omega (arith, h, k), All-trans x d es h ks)

insert_sample-IsAscending :
    (d : ℤ) (ds : List ℤ) → IsAscending ds → IsAscending (insert_sample d ds)
unfolding insert_sample
insert_sample-IsAscending d [] h = (tt, tt)
insert_sample-IsAscending d (e ∷ es) (low, h) = elim (Bool-cases (leb_ℤ d e)) [
  | inl before ↦
      let le : d ≤ℤ e = ground arith in rw before ((le, All-trans d e es le low), (low, h))
  | inr behind ↦ rw behind (All-insert e d es (ground arith) low, insert_sample-IsAscending d es h)
]

pub sort_samples-IsAscending : (ds : List ℤ) → IsAscending (sort_samples ds)
unfolding sort_samples
sort_samples-IsAscending [] = tt
sort_samples-IsAscending (d ∷ ds) =
    insert_sample-IsAscending d (sort_samples ds) (sort_samples-IsAscending ds)

count-insert_sample :
    (p : ℤ → Bool) (d : ℤ) (ds : List ℤ)
    → count p (insert_sample d ds) ≡ (if p d then 1 else 0) + count p ds
unfolding insert_sample
count-insert_sample p d [] = refl
count-insert_sample p d (e ∷ es) = elim (Bool-cases (leb_ℤ d e)) [
  | inl before ↦ rw before
  | inr behind ↦ rw behind (omega (arith, count-insert_sample p d es))
]

-- Sorting keeps how many samples pass a test.
pub count-sort_samples : (p : ℤ → Bool) (ds : List ℤ) → count p (sort_samples ds) ≡ count p ds
unfolding sort_samples
count-sort_samples p [] = refl
count-sort_samples p (d ∷ ds) =
    omega (arith, count-insert_sample p d (sort_samples ds), count-sort_samples p ds)

count-true : (ds : List ℤ) → count (λ d. true) ds ≡ length ds
count-true [] = refl
count-true (d ∷ ds) = omega (arith, count-true ds)

pub length-sort_samples : (ds : List ℤ) → length (sort_samples ds) ≡ length ds
length-sort_samples ds =
    omega (arith, count-true ds, count-true (sort_samples ds), count-sort_samples (λ d. true) ds)

All-count : (d : ℤ) (ds : List ℤ) → All (λ e. d ≤ℤ e) ds → count (λ e. leb_ℤ d e) ds ≡ length ds
All-count d [] h = refl
All-count d (e ∷ es) (h, hs) = ground (arith, All-count d es hs)

pub All-get_elem? :
    (d v : ℤ) (ds : List ℤ) (i : ℕ) → All (λ e. d ≤ℤ e) ds → get_elem? ds i ≡ some v → d ≤ℤ v
All-get_elem? d v [] i h e = absurd (ground arith)
All-get_elem? d v (x ∷ xs) zero (h, hs) e = ground arith
All-get_elem? d v (x ∷ xs) (suc i) (h, hs) e = All-get_elem? d v xs i hs e

-- At a position of an ascending list: those up to it are at most what stands there, and those from
-- it on are at least that.
pub get_elem?-count :
    (ds : List ℤ) (i : ℕ)
    → IsAscending ds
    → i < length ds
    → (v : ℤ) × (get_elem? ds i ≡ some v)
      × (suc i ≤ count (λ d. leb_ℤ d v) ds)
      × (length ds - i ≤ count (λ d. leb_ℤ v d) ds)
get_elem?-count [] i h lt = absurd (omega arith)
get_elem?-count (d ∷ ds) zero (low, h) lt =
    (d, refl, ground arith, ground (arith, All-count d ds low))
get_elem?-count (d ∷ ds) (suc i) (low, h) lt =
    let (v, e, below, above) = get_elem?-count ds i h (omega arith) in
    let le = All-get_elem? d v ds i low e in
    (v, e, ground (arith, below, le), ground (arith, above, le))

-- A later position of an ascending list holds no less.
pub get_elem?_mono :
    (ds : List ℤ) (i j : ℕ) (v w : ℤ)
    → IsAscending ds
    → i ≤ j
    → get_elem? ds i ≡ some v
    → get_elem? ds j ≡ some w
    → v ≤ℤ w
get_elem?_mono [] i j v w h le e e' = absurd (ground arith)
get_elem?_mono (d ∷ ds) zero zero v w h le e e' = ground arith
get_elem?_mono (d ∷ ds) zero (suc j) v w (low, h) le e e' =
    ground (arith, All-get_elem? d w ds j low e')
get_elem?_mono (d ∷ ds) (suc i) zero v w h le e e' = absurd (omega arith)
get_elem?_mono (d ∷ ds) (suc i) (suc j) v w (low, h) le e e' =
    get_elem?_mono ds i j v w h (omega arith) e e'
