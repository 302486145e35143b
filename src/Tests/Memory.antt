-- ===== src/Tests/Memory.antt =====
-- A database in memory, in which every statement succeeds, and the texts of numbers and instants.
use mathlib.Core.List.{Memᴰ}
use mathlib.Core.Path.{subst}
use cryo_lab_telemetry.Prelude.{
  ℕ, ◌*◌, text, ◌≡◌, ◌↔◌, inl, inr, refl, Text, text_eq, text_eq_iff, text_eq_refl, Map, lookup,
  insert, lookup-insert, Option, none, some, List, [], ◌∷◌, ◌++◌, map, true, arith, Bool-cases,
  if◌then◌else◌,
}
use cryo_lab_telemetry.Prelude.Int.{ℤ, pos}
use cryo_lab_telemetry.Values.{finite, Time, second}
use cryo_lab_telemetry.Store.Data.{
  Reading, Threshold, AlertEvent, Row, Tables, insert_rows, new_rows,
}
use cryo_lab_telemetry.Store.World.{World, bound_rows, to_row, Ran}
use cryo_lab_telemetry.Alert.{Alerter}
use cryo_lab_telemetry.Alert.Firing.{Formats}
use cryo_lab_telemetry.Metrics.{new}
use cryo_lab_telemetry.Api.Http.{Server}

abbrev pub find : Text → List Threshold → Option Threshold
find k [] = none
find k (t ∷ ts) = if text_eq t.metric k then some t else find k ts

abbrev pub put : Threshold → List Threshold → List Threshold
put x [] = x ∷ []
put x (t ∷ ts) = if text_eq t.metric x.metric then x ∷ ts else t ∷ put x ts

abbrev pub Distinct : List Threshold → Type 0
Distinct [] = Unit
Distinct (t ∷ ts) = (find t.metric ts ≡ none) × Distinct ts

pub find-put :
    (k : Text) (x : Threshold) (ts : List Threshold)
    → find k (put x ts) ≡ (if text_eq x.metric k then some x else find k ts)
find-put k x [] = refl
find-put k x (t ∷ ts) = ground (
  arith,
  text_eq_iff t.metric x.metric,
  text_eq_iff t.metric k,
  text_eq_iff x.metric k,
  find-put k x ts,
)

pub put-Distinct : (x : Threshold) (ts : List Threshold) → Distinct ts → Distinct (put x ts)
put-Distinct x [] h = (refl, tt)
put-Distinct x (t ∷ ts) (h, hs) = elim (Bool-cases (text_eq t.metric x.metric)) [
  | inl same ↦
      rw same (subst (λ k. find k ts ≡ none) ((text_eq_iff t.metric x.metric).0 same) h, hs)
  | inr other ↦ rw other (
    ground (
      arith,
      text_eq_iff t.metric x.metric,
      text_eq_iff x.metric t.metric,
      find-put t.metric x ts,
    ),
    put-Distinct x ts hs,
  )
]

pub find-metric :
    (k : Text) (x : Threshold) (ts : List Threshold) → find k ts ≡ some x → x.metric ≡ k
find-metric k x [] h = cc
find-metric k x (t ∷ ts) h = ground (arith, text_eq_iff t.metric k, find-metric k x ts)

find_of_mem :
    (x : Threshold) (ts : List Threshold) → Distinct ts → Memᴰ x ts → find x.metric ts ≡ some x
find_of_mem x [] u i = elim i [ ]
find_of_mem x (t ∷ ts) u (Memᴰ.head e) = rw e (rw (text_eq_refl t.metric))
find_of_mem x (t ∷ ts) u (Memᴰ.tail i) =
    ground (arith, text_eq_iff t.metric x.metric, u.0, find_of_mem x ts u.1 i)

mem_of_find : (k : Text) (x : Threshold) (ts : List Threshold) → find k ts ≡ some x → Memᴰ x ts
mem_of_find k x [] h = cc
mem_of_find k x (t ∷ ts) h = elim (Bool-cases (text_eq t.metric k)) [
  | inl same ↦ Memᴰ.head (ground arith)
  | inr other ↦ Memᴰ.tail (mem_of_find k x ts (ground arith))
]

pub record Mem : Type 0 where
  pub readings : List Row
  pub config : Map Text
  pub thresholds : List Threshold
  pub distinct : Distinct thresholds
  pub alert_log : List AlertEvent
  pub clock : Time

abbrev pub tables_of : Mem → Tables
tables_of m = record {
  readings = m.readings;
  config = λ k. lookup k m.config;
  thresholds = λ k. find k m.thresholds;
  alert_log = m.alert_log;
}

abbrev pub stamp_of : Time → ℤ
stamp_of t = t

abbrev pub insert_bound : Option (List Reading) → Mem → Option ℕ × Mem
insert_bound none m = (none, m)
insert_bound (some rs) m =
    let rows = map (λ r. to_row stamp_of r) rs in
    (some (new_rows rows m.readings), record m { readings = insert_rows rows m.readings })

pub insert_bound-Ran :
    (o : Option (List Reading)) (rs : List Reading) (m : Mem)
    → o ≡ some rs
    → let rows = map (λ r. to_row stamp_of r) rs in
      Ran
        (insert_bound o m).0
        (tables_of m)
        (tables_of (insert_bound o m).1)
        (new_rows rows m.readings)
        (record (tables_of m) { readings = insert_rows rows m.readings })
insert_bound-Ran none rs m h = cc
insert_bound-Ran (some xs) rs m h = rw (payload xs rs h) (inl (refl, refl))
  where
    payload : (x y : List Reading) → some x ≡ some y → x ≡ y
    payload x y e = cc

pub select-listed :
    (ts l : List Threshold) (x : Threshold)
    → Distinct ts
    → some ts ≡ some l
    → Memᴰ x l ↔ (find x.metric ts ≡ some x)
select-listed ts l x u h = rw (← same ts l h) (find_of_mem x ts u, mem_of_find x.metric x ts)
  where
    same : (x y : List Threshold) → some x ≡ some y → x ≡ y
    same x y e = cc

abbrev pub memory : World
memory = record {
  State = Mem;
  tables = tables_of;
  now = λ m. m.clock;
  stamp = stamp_of;
  exec_insert = λ ts args m. insert_bound (bound_rows args ts) m;
  select_config = λ k m. (some (lookup k m.config), m);
  upsert_config = λ k v m. (some tt, record m { config = insert k v m.config });
  select_thresholds = λ m. (some m.thresholds, m);
  upsert_threshold = λ x m. (
    some tt,
    record m { thresholds = put x m.thresholds; distinct = put-Distinct x m.thresholds m.distinct },
  );
  insert_alert_log = λ e m. (some tt, record m { alert_log = m.alert_log ++ e ∷ [] });
  exec_insert_law = λ ts args rs m h. insert_bound-Ran (bound_rows args ts) rs m h;
  select_config_law = λ k m. inl (refl, refl);
  upsert_config_law = λ k v m.
      inl (refl, λ i. record (tables_of m) { config = λ j. lookup-insert k j v m.config i });
  upsert_threshold_law = λ x m.
      inl (refl, λ i. record (tables_of m) { thresholds = λ j. find-put j x m.thresholds i });
  insert_alert_log_law = λ e m. inl (refl, refl);
  select_thresholds_law = λ m l x h. select-listed m.thresholds l x m.distinct h;
  select_thresholds_keeps = λ m. refl;
  thresholds_key = λ m k x h. find-metric k x m.thresholds h;
}

abbrev pub formats : Formats
formats = record { float_g = λ v. []; rfc3339 = λ t. [] }

abbrev pub lab : Text
lab = text "lab1"

abbrev pub temp : Text
temp = text "temp"

-- between 10 and 30
abbrev pub limits : Threshold
limits = record {
  metric = temp;
  min = some (finite (pos 10));
  max = some (finite (pos 30));
  enabled = true;
}

abbrev pub start : Mem
start = record {
  readings = [];
  config = (text "sampling_interval_seconds", text "10") ∷ [];
  thresholds = limits ∷ [];
  distinct = (refl, tt);
  alert_log = [];
  clock = pos (3 * 86400 * second);
}

-- The temperature `v`, measured at the second `n`.
abbrev pub sample : ℕ → ℕ → Reading
sample n v = record { source = lab; metric = temp; ts = pos (n * second); value = finite (pos v) }

abbrev pub batch : List Reading
batch = sample 1 20 ∷ sample 2 40 ∷ sample 3 20 ∷ []

abbrev pub alerter : Alerter
alerter = record {
  notifiers = 2;
  thresholds = (temp, limits) ∷ [];
  max_per_day = pos 6;
  state = [];
  notify_day = none;
  notify_n = 0;
}

abbrev pub server : Server
server = record {
  tokens = (text "secret", lab) ∷ [];
  alerter = alerter;
  metrics = new (pos 0);
  started_at = pos 0;
}
