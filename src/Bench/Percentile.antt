-- ===== src/Bench/Percentile.antt =====
-- The percentiles of bench/main.go: `pct`, over durations in nanoseconds.
pub mod Order
pub mod Ranks
use cryo_lab_telemetry.Prelude.{
  ℕ, zero, suc, ◌+◌, ◌-◌, List, [], ◌∷◌, Option, none, some, if◌then◌else◌, length, get_elem?,
}
use cryo_lab_telemetry.Prelude.Int.{ℤ, pos, leb_ℤ, ltb_ℤ, ◌-ℤ◌}

-- The float64 operations that `pct` makes.
pub record Floats : Type 1 where
  pub Float : Type 0
  -- float64(n), for an int that is not negative
  pub of_int : ℕ → Float
  pub div : Float → Float → Float
  pub mul : Float → Float → Float
  -- int(math.Ceil(x))
  pub ceil : Float → ℤ

unfoldable pub insert_sample : ℤ → List ℤ → List ℤ
insert_sample d [] = d ∷ []
insert_sample d (e ∷ es) =
    let rest = insert_sample d es in if leb_ℤ d e then d ∷ e ∷ es else e ∷ rest

-- sort.Slice by s[i] < s[j]; samples that are equal cannot be told apart
unfoldable pub sort_samples : List ℤ → List ℤ
sort_samples [] = []
sort_samples (d ∷ ds) = insert_sample d (sort_samples ds)

-- the position that is read in `n` sorted samples, where there are any
unfoldable pub position : ℤ → ℕ → ℤ
position idx n =
    if ltb_ℤ idx (pos 0) then pos 0 else if leb_ℤ (pos n) idx then pos n -ℤ pos 1 else idx

-- s[idx], for an index in range
unfoldable pub at_position : List ℤ → ℤ → ℤ
at_position s (pos i) = elim (get_elem? s i) [ none ↦ pos 0 | some d ↦ d ]
at_position s _ = pos 0

-- pct
unfoldable pub pct : (f : Floats) → List ℤ → f.Float → ℤ
pct f [] p = pos 0
pct f (d ∷ ds) p =
    let s = sort_samples (d ∷ ds) in
    let idx = f.ceil (f.mul (f.div p (f.of_int 100)) (f.of_int (length s))) -ℤ pos 1 in
    at_position s (position idx (length s))
