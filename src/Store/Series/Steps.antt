-- ===== src/Store/Series/Steps.antt =====
-- Steps of the form "<n><unit>".
use cryo_lab_telemetry.Prelude.{
  ℕ, ◌*◌, ◌≤◌, ◌<◌, ◌≡◌, ◌⊎◌, refl, ap, inl, inr, Text, [], ◌∷◌, ◌++◌, length, All, arith,
}
use cryo_lab_telemetry.Prelude.Decimal.Laws.{IsDigit, spelled, atoi-digits}
use cryo_lab_telemetry.Prelude.Int.{pos, wrap64-pos}
use cryo_lab_telemetry.Store.Series.{init_of, last_of, in_seconds, step_seconds}

-- How many seconds a unit has; any other character has none.
abbrev pub IsUnit : ℕ → ℕ → Type 0
IsUnit u k =
    ((u ≡ b's') × (k ≡ 1))
    ⊎ ((u ≡ b'm') × (k ≡ 60))
    ⊎ ((u ≡ b'h') × (k ≡ 3600))
    ⊎ ((u ≡ b'd') × (k ≡ 86400))

-- The step "<n><unit>" of one to four digits: `n` counts units of `k` seconds.
pub record IsStep (t : Text) (n k : ℕ) : Type 0 where
  pub digits : Text
  pub unit : ℕ
  pub parts : t ≡ digits ++ unit ∷ []
  pub all_digits : All IsDigit digits
  pub some_digit : 1 ≤ length digits
  pub few : length digits ≤ 4
  pub number : n ≡ spelled 0 digits
  pub seconds : IsUnit unit k

init_of-snoc : (c : ℕ) (s : Text) (u : ℕ) → init_of c (s ++ u ∷ []) ≡ c ∷ s
init_of-snoc c [] u = refl
init_of-snoc c (d ∷ s) u = rw (init_of-snoc d s u)

last_of-snoc : (c : ℕ) (s : Text) (u : ℕ) → last_of c (s ++ u ∷ []) ≡ u
last_of-snoc c [] u = refl
last_of-snoc c (d ∷ s) u = last_of-snoc d s u

in_seconds-IsUnit : (n u k : ℕ) → n < 10_000 → IsUnit u k → in_seconds (pos n) u ≡ pos (n * k)
unfolding in_seconds
in_seconds-IsUnit n u k h (inl (i, j)) = rw (i, j) (ap pos (omega arith))
in_seconds-IsUnit n u k h (inr (inl (i, j))) = rw (i, j) (wrap64-pos (n * 60) (omega arith))
in_seconds-IsUnit n u k h (inr (inr (inl (i, j)))) = rw (i, j) (wrap64-pos (n * 3600) (omega arith))
in_seconds-IsUnit n u k h (inr (inr (inr (i, j)))) =
    rw (i, j) (wrap64-pos (n * 86400) (omega arith))

step_seconds-snoc :
    (c : ℕ) (s : Text) (u k : ℕ)
    → All IsDigit (c ∷ s)
    → length (c ∷ s) ≤ 4
    → IsUnit u k
    → step_seconds (c ∷ s ++ u ∷ []) ≡ pos (spelled 0 (c ∷ s) * k)
unfolding step_seconds
step_seconds-snoc c [] u k h l i =
    let (e, small) = atoi-digits c [] h l in rw (e, step_seconds) (in_seconds-IsUnit _ u k small i)
step_seconds-snoc c (d ∷ s) u k h l i =
    let (e, small) = atoi-digits c (d ∷ s) h l in
    rw (init_of-snoc d s u, e, last_of-snoc d s u, step_seconds) (in_seconds-IsUnit _ u k small i)

step_seconds-digits :
    (ds : Text) (u k : ℕ)
    → All IsDigit ds
    → 1 ≤ length ds
    → length ds ≤ 4
    → IsUnit u k
    → step_seconds (ds ++ u ∷ []) ≡ pos (spelled 0 ds * k)
step_seconds-digits [] u k h one l i = absurd (omega arith)
step_seconds-digits (c ∷ s) u k h one l i = step_seconds-snoc c s u k h l i

-- The width of a step of one to four digits is its count times its unit, without overflow.
pub step_seconds-IsStep : (t : Text) (n k : ℕ) → IsStep t n k → step_seconds t ≡ pos (n * k)
step_seconds-IsStep t n k h =
    rw (h.parts, h.number)
      (step_seconds-digits h.digits h.unit k h.all_digits h.some_digit h.few h.seconds)
