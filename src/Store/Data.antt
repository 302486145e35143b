-- ===== src/Store/Data.antt =====
-- The rows and records that the store reads and writes (server/internal/store/store.go).
use cryo_lab_telemetry.Prelude.{
  ℕ, ◌+◌, Text, text_eq, Option, some, List, [], ◌∷◌, Bool, false, ◌&&◌, ◌||◌, if◌then◌else◌,
}
use cryo_lab_telemetry.Prelude.Int.{ℤ, eq_ℤ}
use cryo_lab_telemetry.Values.{Float64, Time}

pub record Reading : Type 0 where
  pub source : Text
  pub metric : Text
  pub ts : Time
  pub value : Float64

-- `nil` bounds are `none`.
pub record Threshold : Type 0 where
  pub metric : Text
  pub min : Option Float64
  pub max : Option Float64
  pub enabled : Bool

-- The texts "min" and "max".
pub data Bound : Type 0 where
  min max : Bound

-- The texts that `AlertEvent.Kind` holds: a bound's, or "recovered".
pub data LogKind : Type 0 where
  crossed : Bound → LogKind
  recovered : LogKind

pub record AlertEvent : Type 0 where
  pub source : Text
  pub metric : Text
  pub value : Float64
  pub kind : LogKind
  pub threshold_value : Float64
  pub notified : Bool

-- A row of the table `readings`; `stamp` is the stored TIMESTAMPTZ.
pub record Row : Type 0 where
  pub source : Text
  pub metric : Text
  pub stamp : ℤ
  pub value : Float64

pub record Channel : Type 0 where
  pub source : Text
  pub metric : Text
  pub last_ts : Time
  pub last_value : Float64

-- Two rows that the key UNIQUE (source, metric, ts) does not tell apart.
unfoldable pub same_key : Row → Row → Bool
same_key a b = text_eq a.source b.source && text_eq a.metric b.metric && eq_ℤ a.stamp b.stamp

-- What the database holds, as a SELECT shows it: `config` and `alert_threshold` by primary key.
pub record Tables : Type 0 where
  pub readings : List Row
  pub config : Text → Option Text
  pub thresholds : Text → Option Threshold
  pub alert_log : List AlertEvent

unfoldable pub has_key : Row → List Row → Bool
has_key r [] = false
has_key r (x ∷ xs) = same_key x r || has_key r xs

-- INSERT ... ON CONFLICT (key) DO UPDATE, at one key
abbrev pub set_key {ℓ} : {V : Type ℓ} → Text → V → (Text → Option V) → Text → Option V
set_key k v rows j = if text_eq k j then some v else rows j

-- INSERT ... ON CONFLICT (source, metric, ts) DO NOTHING, row by row
unfoldable pub insert_row : Row → List Row → List Row
insert_row r rows = if has_key r rows then rows else r ∷ rows

unfoldable pub insert_rows : List Row → List Row → List Row
insert_rows [] rows = rows
insert_rows (r ∷ rs) rows = insert_rows rs (insert_row r rows)

-- The rows affected: those whose key was new when their turn came.
unfoldable pub new_rows : List Row → List Row → ℕ
new_rows [] rows = 0
new_rows (r ∷ rs) rows = (if has_key r rows then 0 else 1) + new_rows rs (insert_row r rows)
