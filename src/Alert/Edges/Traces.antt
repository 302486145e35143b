-- ===== src/Alert/Edges/Traces.antt =====
-- One more transition behind a list of them.
use cryo_lab_telemetry.Prelude.{
  ◌+◌, ◌≡◌, ◌∙◌, refl, sym, ap, Text, text_eq, Option, List, [], ◌∷◌, ◌++◌, arith, count,
  if◌then◌else◌, Bool-cases, inl, inr,
}
use cryo_lab_telemetry.Store.Data.{Bound}
use cryo_lab_telemetry.Alert.{Alerter, Event, alarm, transition}
use cryo_lab_telemetry.Alert.Edges.{
  Step, verdict, emitted, verdicts, changes, last_verdict, same_verdict, alarm-transition,
  of_metric, count-emitted,
}

-- Alerters with the same states have the same alarms.
pub alarm_of_state : (a b : Alerter) (m : Text) → b.state ≡ a.state → alarm b m ≡ alarm a m
unfolding alarm
alarm_of_state a b m e = rw e refl

changes-snoc :
    (prev b : Option Bound) (bs : List (Option Bound))
    → changes prev (bs ++ b ∷ [])
      ≡ changes prev bs + (if same_verdict (last_verdict prev bs) b then 0 else 1)
unfolding changes last_verdict
changes-snoc prev b [] = omega arith
changes-snoc prev b (c ∷ bs) = omega (arith, changes-snoc c b bs)

last_verdict-snoc :
    (prev b : Option Bound) (bs : List (Option Bound)) → last_verdict prev (bs ++ b ∷ []) ≡ b
unfolding last_verdict
last_verdict-snoc prev b [] = refl
last_verdict-snoc prev b (c ∷ bs) = last_verdict-snoc c b bs

verdicts-snoc :
    (m : Text) (xs : List Step) (x : Step)
    → verdicts m (xs ++ x ∷ [])
      ≡ (if text_eq x.metric m then verdicts m xs ++ verdict x.cross ∷ [] else verdicts m xs)
unfolding verdicts
verdicts-snoc m [] x = refl
verdicts-snoc m (y ∷ xs) x = elim (Bool-cases (text_eq y.metric m)) [
  | inl same ↦ rw same (ground (arith, verdicts-snoc m xs x))
  | inr other ↦ rw other (verdicts-snoc m xs x)
]

-- The alarm of a metric after one more transition, and how often its verdict has changed.
pub snoc-changes :
    (a : Alerter) (m : Text) (before : Option Bound) (xs : List Step) (x : Step)
    → alarm a m ≡ last_verdict before (verdicts m xs)
    → let (a', event) = transition a x.metric x.threshold x.cross in
      (alarm a' m ≡ last_verdict before (verdicts m (xs ++ x ∷ [])))
      × (changes before (verdicts m (xs ++ x ∷ []))
          ≡ changes before (verdicts m xs)
            + count (λ (e : Text × Event). text_eq e.0 m) (emitted x.metric event))
snoc-changes a m before xs x h =
    let now = alarm-transition a x.metric m x.threshold x.cross in
    let new = count-emitted a x.metric m x.threshold x.cross in
    elim (Bool-cases (text_eq x.metric m)) [
      | inl same ↦
          let v = verdict x.cross in
          let one_more : verdicts m (xs ++ x ∷ []) ≡ verdicts m xs ++ v ∷ [] =
            verdicts-snoc m xs x ∙ (rw same) in
          let alarmed : alarm (transition a x.metric x.threshold x.cross).0 m ≡ v =
            now ∙ (rw same) in
          let fresh : count (of_metric m)
                (emitted x.metric (transition a x.metric x.threshold x.cross).1)
              ≡ (if same_verdict (alarm a m) v then 0 else 1) =
            new ∙ (rw same) in
          (
            alarmed
                ∙ sym (
                    ap (last_verdict before) one_more ∙ last_verdict-snoc before v (verdicts m xs)),
            omega (
              arith,
              ap (changes before) one_more,
              changes-snoc before v (verdicts m xs),
              rw h at fresh,
            ),
          )
      | inr other ↦
          let no_more : verdicts m (xs ++ x ∷ []) ≡ verdicts m xs =
            verdicts-snoc m xs x ∙ (rw other) in
          let alarmed : alarm (transition a x.metric x.threshold x.cross).0 m ≡ alarm a m =
            now ∙ (rw other) in
          let none_fresh : count (of_metric m)
                (emitted x.metric (transition a x.metric x.threshold x.cross).1)
              ≡ 0 =
            new ∙ (rw other) in
          (
            alarmed ∙ h ∙ ap (last_verdict before) (sym no_more),
            omega (arith, ap (changes before) no_more, none_fresh),
          )
    ]
