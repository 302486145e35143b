-- ===== src/Values.antt =====
-- The Go values that readings are made of: `float64` and `time.Time`.
use cryo_lab_telemetry.Prelude.{ℕ, ◌*◌, ◌/◌, Bool, true, false}
use cryo_lab_telemetry.Prelude.Int.{ℤ, pos, negsuc, eq_ℤ, ltb_ℤ}

-- A finite float64 is an integer multiple of 2 ^ -1074, and `finite n` stands for that multiple,
-- so that comparisons are those of integers. The two zeros, which no comparison tells apart, are
-- one value.
pub data Float64 : Type 0 where
  nan neg_inf pos_inf : Float64
  finite : ℤ → Float64

abbrev pub zero_float : Float64
zero_float = finite (pos 0)

-- a < b
unfoldable pub float_lt : Float64 → Float64 → Bool
float_lt (finite a) (finite b) = ltb_ℤ a b
float_lt (finite a) pos_inf = true
float_lt neg_inf (finite b) = true
float_lt neg_inf pos_inf = true
float_lt _ _ = false

-- math.IsNaN(f) || math.IsInf(f, 0), negated
unfoldable pub is_finite : Float64 → Bool
is_finite (finite n) = true
is_finite _ = false

-- An instant is its distance in nanoseconds from the zero `time.Time`, 0001-01-01T00:00:00Z. The
-- monotonic reading is left out, and so is the location, which shows only in the text of an alarm.
abbrev pub Time : Type 0
Time = ℤ

-- t.IsZero()
abbrev pub is_zero : Time → Bool
is_zero t = eq_ℤ t (pos 0)

abbrev pub second : ℕ
second = 1_000_000_000

-- The number of the UTC day of an instant. It stands for the date text `2006-01-02`, which is the
-- same exactly when the number is.
unfoldable pub utc_day : Time → ℤ
utc_day (pos n) = pos (n / (86_400 * second))
utc_day (negsuc n) = negsuc (n / (86_400 * second))
