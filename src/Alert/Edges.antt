-- ===== src/Alert/Edges.antt =====
-- Edge-triggered alerting: what the transitions of one metric emit, in any interleaving.
pub mod Traces
use cryo_lab_telemetry.Prelude.{
  ℕ, ◌+◌, ◌≡◌, ◌∙◌, refl, Text, text_eq, text_eq_iff, lookup-insert, Option, none, some, List, [],
  ◌∷◌, ◌++◌, Bool, true, false, arith, count, count-append, if◌then◌else◌, Bool-cases, inl, inr,
}
use cryo_lab_telemetry.Store.Data.{Threshold, Bound, min, max}
use cryo_lab_telemetry.Alert.{Alerter, Cross, Event, alarm, set_alarm, transition, bound_value}

-- One call of `transition`. The mutex makes any interleaving of concurrent batches a list of these.
pub record Step : Type 0 where
  pub metric : Text
  pub threshold : Threshold
  pub cross : Option Cross

abbrev pub verdict : Option Cross → Option Bound
verdict none = none
verdict (some c) = some c.kind

abbrev pub emitted : Text → Option Event → List (Text × Event)
emitted metric none = []
emitted metric (some e) = (metric, e) ∷ []

-- The alerter after the steps, and the events with their metrics.
unfoldable pub run_steps : Alerter → List Step → Alerter × List (Text × Event)
run_steps a [] = (a, [])
run_steps a (x ∷ xs) =
    let (a', event) = transition a x.metric x.threshold x.cross in
    let (a'', events) = run_steps a' xs in (a'', emitted x.metric event ++ events)

-- The verdicts of one metric's steps, in order.
unfoldable pub verdicts : Text → List Step → List (Option Bound)
verdicts m [] = []
verdicts m (x ∷ xs) = if text_eq x.metric m then verdict x.cross ∷ verdicts m xs else verdicts m xs

abbrev pub same_verdict : Option Bound → Option Bound → Bool
same_verdict none none = true
same_verdict (some min) (some min) = true
same_verdict (some max) (some max) = true
same_verdict _ _ = false

-- How often the verdict changes, from the one before the first.
unfoldable pub changes : Option Bound → List (Option Bound) → ℕ
changes prev [] = 0
changes prev (b ∷ bs) = (if same_verdict prev b then 0 else 1) + changes b bs

unfoldable pub last_verdict : Option Bound → List (Option Bound) → Option Bound
last_verdict prev [] = prev
last_verdict prev (b ∷ bs) = last_verdict b bs

-- After a transition its metric has the alarm of the verdict, and every other metric its own.
pub alarm-transition :
    (a : Alerter) (x m : Text) (t : Threshold) (c : Option Cross)
    → alarm (transition a x t c).0 m ≡ (if text_eq x m then verdict c else alarm a m)
unfolding transition alarm set_alarm
alarm-transition a x m t none =
    ground (arith, text_eq_iff x m, lookup-insert {V = Option Bound} x m none a.state)
alarm-transition a x m t (some c) =
    ground (arith, text_eq_iff x m, lookup-insert x m (some c.kind) a.state)

-- What one transition emits: nothing where the verdict is the alarm, an alert with the bound
-- crossed where it is another violation, and a recovery with the bound left where it is none.
abbrev pub expected : Option Bound → Threshold → Option Cross → Option Event
expected none t none = none
expected (some b) t none = some (record { recovery = true; kind = b; thr = bound_value t b })
expected prev t (some c) =
    if same_verdict prev (some c.kind)
    then none
    else some (record { recovery = false; kind = c.kind; thr = c.threshold_value })

pub transition-eq-expected :
    (a : Alerter) (x : Text) (t : Threshold) (c : Option Cross)
    → (transition a x t c).1 ≡ expected (alarm a x) t c
unfolding transition
transition-eq-expected a x t none = ground arith
transition-eq-expected a x t (some c) = ground arith

abbrev pub of_metric : Text → Text × Event → Bool
of_metric m e = text_eq e.0 m

count-expected :
    (x m : Text) (prev : Option Bound) (t : Threshold) (c : Option Cross)
    → count (of_metric m) (emitted x (expected prev t c))
      ≡ (if text_eq x m then (if same_verdict prev (verdict c) then 0 else 1) else 0)
count-expected x m none t none = ground arith
count-expected x m (some b) t none = ground arith
count-expected x m none t (some c) = ground arith
count-expected x m (some b) t (some c) = ground arith

-- One event where the verdict changes, none where it stays.
pub count-emitted :
    (a : Alerter) (x m : Text) (t : Threshold) (c : Option Cross)
    → count (of_metric m) (emitted x (transition a x t c).1)
      ≡ (if text_eq x m then (if same_verdict (alarm a m) (verdict c) then 0 else 1) else 0)
count-emitted a x m t c = rw (transition-eq-expected a x t c) (elim (Bool-cases (text_eq x m)) [
  | inl same ↦ rw (← (text_eq_iff x m).0 same) (count-expected x x (alarm a x) t c)
  | inr other ↦ count-expected x m (alarm a x) t c ∙ (rw other)
])

-- Whatever the alerter does for other metrics in between, a metric gets exactly one event for each
-- change of its verdict (in range, above, below), counted from its alarm before the steps, and its
-- alarm afterwards is its last verdict.
pub run_steps-changes :
    (a : Alerter) (xs : List Step) (m : Text)
    → (count (λ (e : Text × Event). text_eq e.0 m) (run_steps a xs).1
        ≡ changes (alarm a m) (verdicts m xs))
      × (alarm (run_steps a xs).0 m ≡ last_verdict (alarm a m) (verdicts m xs))
unfolding run_steps verdicts changes last_verdict
run_steps-changes a [] m = (refl, refl)
run_steps-changes a (x ∷ xs) m =
    let t = transition a x.metric x.threshold x.cross in
    let rest = run_steps-changes t.0 xs m in
    let split = count-append (of_metric m) (emitted x.metric t.1) (run_steps t.0 xs).1 in
    let first = count-emitted a x.metric m x.threshold x.cross in
    let next = alarm-transition a x.metric m x.threshold x.cross in
    elim (Bool-cases (text_eq x.metric m)) [
      | inl same ↦
          let now : alarm t.0 m ≡ verdict x.cross = next ∙ (rw same) in
          let one : count (of_metric m) (emitted x.metric t.1)
              ≡ (if same_verdict (alarm a m) (verdict x.cross) then 0 else 1) =
            first ∙ (rw same) in
          rw same (omega (arith, split, one, rw now at (rest.0)), rw now at (rest.1))
      | inr other ↦
          let now : alarm t.0 m ≡ alarm a m = next ∙ (rw other) in
          let zero_events : count (of_metric m) (emitted x.metric t.1) ≡ 0 = first ∙ (rw other) in
          rw other (omega (arith, split, zero_events, rw now at (rest.0)), rw now at (rest.1))
    ]
