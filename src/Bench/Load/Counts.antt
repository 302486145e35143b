-- ===== src/Bench/Load/Counts.antt =====
-- How many workers stand where, and what a step does to such counts.
use cryo_lab_telemetry.Prelude.{
  ℕ, zero, suc, ◌+◌, ◌*◌, ◌≡◌, List, [], ◌∷◌, arith, ◌==◌, if◌then◌else◌,
}
use cryo_lab_telemetry.Prelude.Weights.{weigh}
use cryo_lab_telemetry.Bench.Load.{Pc, idle, holding, answered, appended, done, idle_workers}

pub weigh-idle : (w : Pc → ℕ) (n : ℕ) → weigh w (idle_workers n) ≡ n * w idle
unfolding idle_workers
weigh-idle w zero = omega arith
weigh-idle w (suc n) = omega (arith, weigh-idle w n)

-- how often a number stands in a list
abbrev pub occurs : ℕ → List ℕ → ℕ
occurs i [] = 0
occurs i (j ∷ js) = (if i == j then 1 else 0) + occurs i js

abbrev pub is_holding : Pc → ℕ
is_holding (holding i) = 1
is_holding _ = 0

abbrev pub holds : ℕ → Pc → ℕ
holds i (holding j) = if i == j then 1 else 0
holds i _ = 0

abbrev pub is_answered : Pc → ℕ
is_answered (answered d e) = 1
is_answered _ = 0

abbrev pub is_appended : Pc → ℕ
is_appended (appended e) = 1
is_appended _ = 0

abbrev pub is_done : Pc → ℕ
is_done done = 1
is_done _ = 0

-- how many steps a worker has left, where it takes no further index
abbrev pub steps_left : Pc → ℕ
steps_left idle = 1
steps_left (holding i) = 4
steps_left (answered d e) = 3
steps_left (appended e) = 2
steps_left done = 0
