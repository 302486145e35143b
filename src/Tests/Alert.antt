-- ===== src/Tests/Alert.antt =====
-- The theorems on alerting, tokens and counters at concrete inputs.
use mathlib.Core.List.{Memᴰ}
use cryo_lab_telemetry.Prelude.{
  arith, ◌≡◌, ◌≢◌, ◌↔◌, ◌≤◌, ◌⊎◌, refl, Text, text, text_eq, none, some, List, [], ◌∷◌, count, Bool,
  ◌&&◌, lookup,
}
use cryo_lab_telemetry.Prelude.Int.{ℤ, pos, eq_ℤ}
use cryo_lab_telemetry.Values.{finite}
use cryo_lab_telemetry.Store.Data.{max}
use cryo_lab_telemetry.Store.Settings.{get_thresholds}
use cryo_lab_telemetry.Alert.{Cross, Event, alarm}
use cryo_lab_telemetry.Alert.Edges.{
  Step, run_steps, verdicts, changes, last_verdict, run_steps-changes,
}
use cryo_lab_telemetry.Alert.Cap.{CapStep, ask, set_cap, run_cap, run_cap-le}
use cryo_lab_telemetry.Alert.Firing.{reload, max_emails_config_key}
use cryo_lab_telemetry.Alert.Firing.Dispatch.{Firing}
use cryo_lab_telemetry.Alert.Firing.Reload.{stored_cap, reload_lem}
use cryo_lab_telemetry.Auth.{source_for_token}
use cryo_lab_telemetry.Auth.Tokens.{source_for_token_iff}
use cryo_lab_telemetry.Tests.Memory.{tables_of, memory, start, alerter, server, limits, temp, lab}

abbrev too_hot : Cross
too_hot = record { kind = max; threshold_value = finite (pos 30) }

abbrev hot : Step
hot = record { metric = temp; threshold = limits; cross = some too_hot }

abbrev fine : Step
fine = record { metric = temp; threshold = limits; cross = none }

abbrev three_steps : List Step
three_steps = hot ∷ hot ∷ fine ∷ []

run_steps-changes_example :
    (count (λ (e : Text × Event). text_eq e.0 temp) (run_steps alerter three_steps).1
      ≡ changes (alarm alerter temp) (verdicts temp three_steps))
    × (alarm (run_steps alerter three_steps).0 temp
        ≡ last_verdict (alarm alerter temp) (verdicts temp three_steps))
run_steps-changes_example = run_steps-changes alerter three_steps temp

abbrev cap_steps : List CapStep
cap_steps = ask (pos 7) ∷ set_cap 1 ∷ ask (pos 7) ∷ ask (pos 8) ∷ []

run_cap-le_example :
    count (λ (x : ℤ × Bool). eq_ℤ x.0 (pos 7) && x.1) (run_cap alerter cap_steps).1 ≤ 6
run_cap-le_example =
    run_cap-le 6 6 alerter cap_steps (pos 7) refl (omega arith) (omega arith) (omega arith)
      (tt, (omega arith, omega arith, (omega arith, (omega arith, tt))))

reload_lem_example :
    let (ts, s') = get_thresholds memory start in
    let r = (reload memory alerter start).0 in
    ((ts ≡ none) × (r ≡ alerter))
    ⊎ (((k : Text) → lookup k r.thresholds ≡ (tables_of start).thresholds k)
        × ((r.state ≡ alerter.state)
            × (r.notify_day ≡ alerter.notify_day)
            × (r.notify_n ≡ alerter.notify_n))
        × ((((memory.select_config max_emails_config_key s').0 ≡ none)
              × (r.max_per_day ≡ alerter.max_per_day))
            ⊎ (r.max_per_day
                ≡ stored_cap ((tables_of start).config max_emails_config_key) alerter.max_per_day)))
reload_lem_example = reload_lem memory alerter start

source_for_token_iff_example :
    (source_for_token server.tokens (text "secret") ≡ some lab)
    ↔ ((text "secret" ≢ []) × Memᴰ (text "secret", lab) server.tokens)
unfolding lookup
source_for_token_iff_example = source_for_token_iff server.tokens (text "secret") lab (refl, tt)
