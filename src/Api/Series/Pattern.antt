-- ===== src/Api/Series/Pattern.antt =====
-- The texts that the step pattern matches.
use cryo_lab_telemetry.Prelude.{
  ℕ, zero, suc, ◌≤◌, ◌≡◌, ◌⊎◌, refl, ap, inl, inr, Text, [], ◌∷◌, ◌++◌, length, All, arith, true,
  Bool-cases,
}
use cryo_lab_telemetry.Prelude.Decimal.Laws.{IsDigit, spelled}
use cryo_lab_telemetry.Store.Series.Steps.{IsUnit, IsStep}
use cryo_lab_telemetry.Api.Series.{is_unit, unit_end, digits_end, step_pattern}

-- A text of one to `m` digits and a unit.
record Matched (m : ℕ) (t : Text) : Type 0 where
  digits : Text
  unit : ℕ
  seconds : ℕ
  parts : t ≡ digits ++ unit ∷ []
  all_digits : All IsDigit digits
  some_digit : 1 ≤ length digits
  few : length digits ≤ m
  is_unit : IsUnit unit seconds

unit_cases : (c : ℕ) → is_unit c ≡ true → (c ≡ b's') ⊎ (c ≡ b'm') ⊎ (c ≡ b'h') ⊎ (c ≡ b'd')
unit_cases c h = ground arith

unit_end-unit : (s : Text) → unit_end s ≡ true → (u : ℕ) × (k : ℕ) × (s ≡ u ∷ []) × IsUnit u k
unfolding unit_end
unit_end-unit [] h = absurd (ground arith)
unit_end-unit (c ∷ []) h = elim (unit_cases c h) [
  | inl e ↦ (c, 1, refl, inl (e, refl))
  | inr (inl e) ↦ (c, 60, refl, inr (inl (e, refl)))
  | inr (inr (inl e)) ↦ (c, 3600, refl, inr (inr (inl (e, refl))))
  | inr (inr (inr e)) ↦ (c, 86400, refl, inr (inr (inr (e, refl))))
]
unit_end-unit (c ∷ d ∷ s) h = absurd (ground arith)

digits_end-one : (m c : ℕ) (s : Text) → IsDigit c → unit_end s ≡ true → Matched (suc m) (c ∷ s)
digits_end-one m c s d h =
    let (u, k, e, i) = unit_end-unit s h in
    record {
      digits = c ∷ [];
      unit = u;
      seconds = k;
      parts = ap (λ r. c ∷ r) e;
      all_digits = (d, tt);
      some_digit = omega arith;
      few = omega arith;
      is_unit = i;
    }

digits_end-more : (m c : ℕ) (s : Text) → IsDigit c → Matched m s → Matched (suc m) (c ∷ s)
digits_end-more m c s d h = record {
  digits = c ∷ h.digits;
  unit = h.unit;
  seconds = h.seconds;
  parts = ap (λ r. c ∷ r) h.parts;
  all_digits = (d, h.all_digits);
  some_digit = omega arith;
  few = omega (arith, h.few);
  is_unit = h.is_unit;
}

digits_end-Matched : (m : ℕ) (t : Text) → digits_end m t ≡ true → Matched (suc m) t
unfolding digits_end
digits_end-Matched m [] h = absurd (ground arith)
digits_end-Matched zero (c ∷ s) h = digits_end-one zero c s (ground arith) (ground arith)
digits_end-Matched (suc m) (c ∷ s) h = elim (Bool-cases (unit_end s)) [
  | inl e ↦ digits_end-one (suc m) c s (ground arith) e
  | inr e ↦ digits_end-more (suc m) c s (ground arith) (digits_end-Matched m s (ground arith))
]

-- A text that the pattern matches is a step of one to four digits.
pub step_pattern-IsStep : (t : Text) → step_pattern t ≡ true → (n : ℕ) × (k : ℕ) × IsStep t n k
unfolding step_pattern
step_pattern-IsStep t h =
    let m = digits_end-Matched 3 t h in
    (
      spelled 0 m.digits,
      m.seconds,
      record {
        digits = m.digits;
        unit = m.unit;
        parts = m.parts;
        all_digits = m.all_digits;
        some_digit = m.some_digit;
        few = m.few;
        number = refl;
        seconds = m.is_unit;
      },
    )
