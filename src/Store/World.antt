-- ===== src/Store/World.antt =====
-- What is outside the process: the TimescaleDB server behind pgx, and the wall clock. Each field
-- that runs a statement of store.go may fail (`none`), and its law says what the statement is
-- documented to do. A statement that fails has either had no effect, or was committed by a server
-- whose answer was lost.
use mathlib.Core.List.{Memᴰ}
use cryo_lab_telemetry.Prelude.{
  ℕ, ◌-◌, ◌≡◌, ◌↔◌, ◌⊎◌, Text, Option, none, some, List, [], ◌∷◌, ◌++◌, map, get_elem?,
}
use cryo_lab_telemetry.Prelude.Int.{ℤ}
use cryo_lab_telemetry.Values.{Float64, Time}
use cryo_lab_telemetry.Store.Data.{
  Reading, Threshold, AlertEvent, Row, Tables, set_key, insert_rows, new_rows,
}

-- A bound argument of a statement.
pub data Arg : Type 0 where
  text_arg : Text → Arg
  time_arg : Time → Arg
  float_arg : Float64 → Arg

-- The placeholder numbers of one parenthesised tuple after VALUES.
pub record Tuple : Type 0 where
  pub source : ℕ
  pub metric : ℕ
  pub ts : ℕ
  pub value : ℕ

-- The argument of the placeholder `$n`; they count from 1.
unfoldable pub argument : List Arg → ℕ → Option Arg
argument args n = get_elem? args (n - 1)

abbrev pub typed_row : Option Arg → Option Arg → Option Arg → Option Arg → Option Reading
typed_row (some (text_arg s)) (some (text_arg m)) (some (time_arg t)) (some (float_arg v)) =
    some (record { source = s; metric = m; ts = t; value = v })
typed_row _ _ _ _ = none

-- The row that a tuple of placeholders is, with the arguments put in.
unfoldable pub bound_row : List Arg → Tuple → Option Reading
bound_row args t =
    typed_row (argument args t.source) (argument args t.metric) (argument args t.ts)
      (argument args t.value)

abbrev pub both {ℓ} : {A : Type ℓ} → Option A → Option (List A) → Option (List A)
both (some a) (some l) = some (a ∷ l)
both _ _ = none

unfoldable pub bound_rows : List Arg → List Tuple → Option (List Reading)
bound_rows args [] = some []
bound_rows args (t ∷ ts) = both (bound_row args t) (bound_rows args ts)

-- The row of `readings` that a reading is stored as.
abbrev pub to_row : (Time → ℤ) → Reading → Row
to_row stamp r = record {
  source = r.source;
  metric = r.metric;
  stamp = stamp r.ts;
  value = r.value;
}

-- A statement that answers `a`, or fails, and moves the tables from `t` to `u`, where its effect
-- on them is `spec`.
abbrev pub Ran : {A : Type 0} → Option A → Tables → Tables → A → Tables → Type 0
Ran {A} r t u a v = ((r ≡ some a) × (u ≡ v)) ⊎ ((r ≡ none) × (u ≡ t)) ⊎ ((r ≡ none) × (u ≡ v))

pub record World : Type 1 where
  pub State : Type 0
  pub tables : State → Tables
  -- time.Now()
  pub now : State → Time
  -- the TIMESTAMPTZ that stores an instant
  pub stamp : Time → ℤ
  -- INSERT INTO readings (source, metric, ts, value) VALUES (…),… ON CONFLICT … DO NOTHING
  pub exec_insert : List Tuple → List Arg → State → Option ℕ × State
  -- SELECT value FROM config WHERE key = $1: the inner `none` is pgx.ErrNoRows
  pub select_config : Text → State → Option (Option Text) × State
  -- INSERT INTO config … ON CONFLICT (key) DO UPDATE …
  pub upsert_config : Text → Text → State → Option (Unit {0}) × State
  -- SELECT metric, min_value, max_value, enabled FROM alert_threshold ORDER BY metric
  pub select_thresholds : State → Option (List Threshold) × State
  -- INSERT INTO alert_threshold … ON CONFLICT (metric) DO UPDATE …
  pub upsert_threshold : Threshold → State → Option (Unit {0}) × State
  -- INSERT INTO alert_log …
  pub insert_alert_log : AlertEvent → State → Option (Unit {0}) × State
  pub exec_insert_law :
      (ts : List Tuple) (args : List Arg) (rs : List Reading) (s : State)
      → bound_rows args ts ≡ some rs
      → let t = tables s in
        let rows = map (λ r. to_row stamp r) rs in
        Ran
          (exec_insert ts args s).0
          t
          (tables (exec_insert ts args s).1)
          (new_rows rows t.readings)
          (record t { readings = insert_rows rows t.readings })
  pub select_config_law :
      (k : Text) (s : State)
      → let t = tables s in
        Ran (select_config k s).0 t (tables (select_config k s).1) (t.config k) t
  pub upsert_config_law :
      (k v : Text) (s : State)
      → let t = tables s in
        Ran
          (upsert_config k v s).0
          t
          (tables (upsert_config k v s).1)
          tt
          (record t { config = set_key k v t.config })
  pub upsert_threshold_law :
      (x : Threshold) (s : State)
      → let t = tables s in
        Ran
          (upsert_threshold x s).0
          t
          (tables (upsert_threshold x s).1)
          tt
          (record t { thresholds = set_key x.metric x t.thresholds })
  pub insert_alert_log_law :
      (e : AlertEvent) (s : State)
      → let t = tables s in
        Ran
          (insert_alert_log e s).0
          t
          (tables (insert_alert_log e s).1)
          tt
          (record t { alert_log = t.alert_log ++ e ∷ [] })
  -- every row once, each under its own metric
  pub select_thresholds_law :
      (s : State) (l : List Threshold) (x : Threshold)
      → (select_thresholds s).0 ≡ some l
      → Memᴰ x l ↔ ((tables s).thresholds x.metric ≡ some x)
  pub select_thresholds_keeps : (s : State) → tables (select_thresholds s).1 ≡ tables s
  -- `metric` is the primary key
  pub thresholds_key :
      (s : State) (k : Text) (x : Threshold) → (tables s).thresholds k ≡ some x → x.metric ≡ k
