-- ===== src/Tests/Concurrent.antt =====
-- Calls of the ingest handler at the same time, at concrete inputs.
use cryo_lab_telemetry.Prelude.{
  ◌+◌, ◌%◌, ◌^◌, ◌≤◌, ◌≡◌, ◌⊎◌, text, refl, text_eq, lookup, List, [], ◌∷◌, All, length, arith,
  false,
}
use cryo_lab_telemetry.Prelude.Int.{pos}
use cryo_lab_telemetry.Prelude.Weights.{weigh}
use cryo_lab_telemetry.Store.Data.{Reading, max, new_rows, has_key}
use cryo_lab_telemetry.Values.{finite, float_lt}
use cryo_lab_telemetry.Store.World.{argument, bound_row, bound_rows}
use cryo_lab_telemetry.Store.Insert.{insert_chunk, chunk_end, placeholders, arguments}
use cryo_lab_telemetry.Store.Insert.Rows.{IsUnique}
use cryo_lab_telemetry.Metrics.{new}
use cryo_lab_telemetry.Alert.{Event, alarm, evaluate, transition}
use cryo_lab_telemetry.Alert.Edges.{verdicts, changes, last_verdict}
use cryo_lab_telemetry.Api.Ingest.Concurrent.{
  Core, Shared, Run, begin, arrive, move, round, finish, count, read, decide, ask, log, reply, Pc,
  inserting,
}
use cryo_lab_telemetry.Api.Ingest.Concurrent.Calls.{recorded}
use cryo_lab_telemetry.Api.Http.{decoded}
use cryo_lab_telemetry.Api.Ingest.{ingest}
use cryo_lab_telemetry.Api.Ingest.Concurrent.OneRun.{IsAside, IsPassed, ingest-IsOneRun}
use cryo_lab_telemetry.Api.Ingest.Concurrent.Storage.{HasStored, IsAnswered, Run-recorded}
use cryo_lab_telemetry.Api.Ingest.Concurrent.Alarms.{unlogged, logged, errors, Run-alarms}
use cryo_lab_telemetry.Tests.Memory.{
  Mem, memory, tables_of, formats, alerter, lab, temp, start, sample, server, limits,
}

abbrev idle : Core Mem
idle = record { alerter = alerter; metrics = server.metrics; world = start; trace = []; lost = [] }

-- two batches, the second of which violates the threshold
abbrev warm : List Reading
warm = sample 1 20 ∷ []

abbrev hot : List Reading
hot = sample 2 40 ∷ []

two_arrived :
    Run memory formats idle
      (record { core = idle; calls = inserting lab hot 0 0 ∷ inserting lab warm 0 0 ∷ [] })
two_arrived = arrive (arrive begin lab warm) lab hot

abbrev above : Event
above = record { recovery = false; kind = max; thr = finite (pos 30) }

abbrev waiting : List Pc
waiting = inserting lab warm 0 0 ∷ []

-- The second call goes up to its answer, while the first waits.
abbrev answered_first : (s : Shared memory formats) × Run memory formats idle s
unfolding insert_chunk chunk_end placeholders arguments argument bound_row bound_rows new_rows
    has_key lookup text_eq evaluate transition alarm float_lt
answered_first =
    let r1 = move two_arrived [] waiting _ _ (round lab hot 0 0 (omega arith)) refl refl in
    let r2 = move r1 [] waiting _ _ (finish lab hot 1000 1 (omega arith)) refl refl in
    let r3 = move r2 [] waiting _ _ (count lab hot 1) refl refl in
    let r4 = move r3 [] waiting _ _ (read hot [] 1 (sample 2 40) limits refl) refl refl in
    let r5 = move r4 [] waiting _ _ (decide hot [] 1 (sample 2 40) limits) refl refl in
    let r6 = move r5 [] waiting _ _ (ask hot [] 1 (sample 2 40) above) refl refl in
    let r7 = move r6 [] waiting _ _ (log hot [] 1 (sample 2 40) above _) refl refl in
    let r8 = move r7 [] waiting _ _ (reply hot 1) refl refl in (_, r8)

abbrev after : Shared memory formats
after = answered_first.0

Run-recorded_example :
    let rows = (tables_of after.core.world).readings in
    IsUnique rows
    × All (HasStored memory formats rows) after.calls
    × (after.core.metrics.total ≡ (0 + weigh recorded after.calls) % 2 ^ 64)
    × (0 + weigh recorded after.calls ≤ length rows)
    × (All (IsAnswered memory formats) after.calls → length rows ≡ 0 + weigh recorded after.calls)
unfolding new
Run-recorded_example = Run-recorded memory formats idle after tt (omega arith) answered_first.1

Run-alarms_example :
    let before = alarm idle.alerter temp in
    let seen = verdicts temp after.core.trace in
    let new =
      logged temp (tables_of after.core.world).alert_log + weigh (unlogged temp) after.calls in
    (alarm after.core.alerter temp ≡ last_verdict before seen)
    × (new ≤ logged temp [] + changes before seen)
    × (logged temp [] + changes before seen ≤ new + errors temp after.core.lost)
Run-alarms_example = Run-alarms memory formats idle after temp refl answered_first.1

ingest-IsOneRun_example :
    let h = ingest memory formats server (text "secret") (decoded hot) start in
    IsAside memory formats server (decoded hot) start h
    ⊎ IsPassed memory formats server (text "secret") (decoded hot) start h
ingest-IsOneRun_example = ingest-IsOneRun memory formats server (text "secret") (decoded hot) start
