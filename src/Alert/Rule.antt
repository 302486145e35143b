-- ===== src/Alert/Rule.antt =====
-- `evaluate` against the range that a threshold allows.
use cryo_lab_telemetry.Prelude.{◌≡◌, ◌↔◌, ◌⊎◌, Option, none, some, true, arith}
use cryo_lab_telemetry.Prelude.Int.{ℤ, ◌≤ℤ◌}
use cryo_lab_telemetry.Values.{Float64, finite, float_lt}
use cryo_lab_telemetry.Store.Data.{Threshold, min, max}
use cryo_lab_telemetry.Alert.{Cross, evaluate}

-- A bound that may be missing, as the integer that stands for it.
abbrev pub bound : Option ℤ → Option Float64
bound none = none
bound (some n) = some (finite n)

abbrev pub AtLeast : Option ℤ → ℤ → Type 0
AtLeast none v = Unit
AtLeast (some lo) v = lo ≤ℤ v

abbrev pub AtMost : Option ℤ → ℤ → Type 0
AtMost none v = Unit
AtMost (some hi) v = v ≤ℤ hi

-- An enabled rule with finite bounds finds no violation exactly when the value is between the
-- bounds that it has, both included.
pub evaluate-eq-none_iff :
    (t : Threshold) (lo hi : Option ℤ) (v : ℤ)
    → t.enabled ≡ true
    → t.min ≡ bound lo
    → t.max ≡ bound hi
    → (evaluate t (finite v) ≡ none) ↔ (AtLeast lo v × AtMost hi v)
unfolding evaluate float_lt
evaluate-eq-none_iff t lo hi v on l h = ground arith

-- A violation that is found names a bound that the rule has and that the value is beyond; where
-- it is beyond both, the maximum.
pub evaluate-eq-some :
    (t : Threshold) (value : Float64) (c : Cross)
    → evaluate t value ≡ some c
    → (t.enabled ≡ true)
      × (((c.kind ≡ max)
            × (t.max ≡ some c.threshold_value)
            × (float_lt c.threshold_value value ≡ true))
          ⊎ ((c.kind ≡ min)
              × (t.min ≡ some c.threshold_value)
              × (float_lt value c.threshold_value ≡ true)))
unfolding evaluate
evaluate-eq-some t value c h = ground arith
