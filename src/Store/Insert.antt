-- ===== src/Store/Insert.antt =====
-- `InsertReadings` and `insertChunk` of server/internal/store/store.go.
pub mod Rows
pub mod Binding
pub mod Chunks
pub mod Retry
pub mod Interleaved
use cryo_lab_telemetry.Prelude.{
  ℕ, zero, suc, ◌+◌, ◌-◌, ◌*◌, ltb, if◌then◌else◌, Bool, true, false, Option, none, some, List, [],
  ◌∷◌, take, drop, length,
}
use cryo_lab_telemetry.Store.Data.{Reading}
use cryo_lab_telemetry.Store.World.{World, Arg, text_arg, time_arg, float_arg, Tuple}

abbrev pub max_rows_per_stmt : ℕ
max_rows_per_stmt = 1000

-- "($n+1,$n+2,$n+3,$n+4)" for each reading of the chunk, with n = i * 4
unfoldable pub placeholders : ℕ → List Reading → List Tuple
placeholders i [] = []
placeholders i (r ∷ rs) =
    let n = i * 4 in
    record { source = n + 1; metric = n + 2; ts = n + 3; value = n + 4 } ∷ placeholders (suc i) rs

unfoldable pub arguments : List Reading → List Arg
arguments [] = []
arguments (r ∷ rs) =
    text_arg r.source ∷ text_arg r.metric ∷ time_arg r.ts ∷ float_arg r.value ∷ arguments rs

-- What `InsertReadings` returns: the rows inserted so far, and whether an error ended it.
pub record Inserted : Type 0 where
  pub rows : ℕ
  pub failed : Bool

module _ (w : World) where
  open w use {State, exec_insert}

  unfoldable pub insert_chunk : List Reading → State → Option ℕ × State
  insert_chunk chunk s = exec_insert (placeholders 0 chunk) (arguments chunk) s

  -- if end > len(readings) { end = len(readings) }
  unfoldable pub chunk_end : ℕ → List Reading → ℕ
  chunk_end start readings =
      let end = start + max_rows_per_stmt in
      if ltb (length readings) end then length readings else end

  -- the loop of `InsertReadings`; the outer `none` means that the fuel ran out
  unfoldable pub insert_loop : ℕ → List Reading → ℕ → ℕ → State → Option Inserted × State
  insert_loop zero readings start inserted s = (none, s)
  insert_loop (suc fuel) readings start inserted s = elim (ltb start (length readings)) [
    | false ↦ (some (record { rows = inserted; failed = false }), s)
    | true ↦
        let end = chunk_end start readings in
        let (n, s') = insert_chunk (take (end - start) (drop start readings)) s in
        elim n [
          | none ↦ (some (record { rows = inserted; failed = true }), s')
          | some k ↦ insert_loop fuel readings (start + max_rows_per_stmt) (inserted + k) s'
        ]
  ]

  -- Every round passes a reading, so one round more than there are readings is enough.
  unfoldable pub insert_readings : List Reading → State → Option Inserted × State
  insert_readings readings s = insert_loop (suc (length readings)) readings 0 0 s
