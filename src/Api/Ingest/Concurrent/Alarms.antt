-- ===== src/Api/Ingest/Concurrent/Alarms.antt =====
-- What calls of handleIngest that run at the same time make of the alarms and of the alert log.
use mathlib.Core.List.{append-nil}
use cryo_lab_telemetry.Prelude.{
  Bool, ℕ, ◌+◌, ◌≤◌, ◌≡◌, refl, sym, ap, ◌∙◌, inl, inr, Text, text_eq, Option, none, some, List, [],
  ◌∷◌, ◌++◌, arith, count, count-append, if◌then◌else◌,
}
use cryo_lab_telemetry.Prelude.Weights.{weigh, weigh-move}
use cryo_lab_telemetry.Store.Data.{Reading, AlertEvent, Bound, Tables, Threshold}
use cryo_lab_telemetry.Store.World.{World}
use cryo_lab_telemetry.Store.Insert.{insert_chunk}
use cryo_lab_telemetry.Store.Insert.Chunks.{chunk_of}
use cryo_lab_telemetry.Store.Insert.Binding.{bound_rows_lem}
use cryo_lab_telemetry.Store.Insert.Interleaved.{chunk_answer}
use cryo_lab_telemetry.Store.Settings.{insert_alert_log}
use cryo_lab_telemetry.Alert.{Event, alarm, evaluate, transition}
use cryo_lab_telemetry.Alert.Edges.{Step, emitted, verdicts, changes, last_verdict}
use cryo_lab_telemetry.Alert.Edges.Traces.{alarm_of_state, snoc-changes}
use cryo_lab_telemetry.Alert.Firing.{Formats, log_entry}
use cryo_lab_telemetry.Alert.Firing.Dispatch.{notify-Counts}
use cryo_lab_telemetry.Api.Ingest.Concurrent.{
  Pc, inserting, inserted, checking, decided, firing, logging, answered, failed, Core, after_round,
  lost_by, after_transition, verdict_step, Move, round, finish, count as count_rows, skip, read,
  decide, ask, log, reply, Shared, Run, begin, arrive, move, reload, elsewhere,
}

-- an event of the metric that a call has not logged yet
abbrev pub unlogged : Text → Pc → ℕ
unlogged m (inserting source rs start n) = 0
unlogged m (inserted source rs n) = 0
unlogged m (checking rs n todo) = 0
unlogged m (decided rs n todo r t) = 0
unlogged m (firing rs n todo r e) = if text_eq r.metric m then 1 else 0
unlogged m (logging rs n todo r e notified) = if text_eq r.metric m then 1 else 0
unlogged m (answered rs n) = 0
unlogged m (failed rs n) = 0

-- the entries of the metric
abbrev pub logged : Text → List AlertEvent → ℕ
logged m l = count (λ (e : AlertEvent). text_eq e.metric m) l

unlogged-after_round :
    (m source : Text) (rs : List Reading) (start n : ℕ) (o : Option ℕ)
    → unlogged m (after_round source rs start n o) ≡ 0
unlogged-after_round m source rs start n none = refl
unlogged-after_round m source rs start n (some k) = refl

unlogged-after_transition :
    (m : Text) (rs todo : List Reading) (n : ℕ) (r : Reading) (o : Option Event)
    → unlogged m (after_transition rs n todo r o)
      ≡ count (λ (e : Text × Event). text_eq e.0 m) (emitted r.metric o)
unlogged-after_transition m rs todo n r none = refl
unlogged-after_transition m rs todo n r (some e) = ground arith

-- the statements for the metric that have returned an error
abbrev pub errors : Text → List Text → ℕ
errors m l = count (λ (x : Text). text_eq x m) l

module _ (w : World) (f : Formats) (m : Text) (base : ℕ) (before0 : Option Bound) where
  open w use {State, tables}

  -- The alarm of the metric is its last verdict, and each change of its verdict has one entry at
  -- most, or waits for it in a call; it has one, or waits, or its statement has returned an error.
  record Alarmed (c : Core State) (calls : List Pc) : Type 0 where
    current : alarm c.alerter m ≡ last_verdict before0 (verdicts m c.trace)
    at_most :
        logged m (tables c.world).alert_log + weigh (unlogged m) calls
        ≤ base + changes before0 (verdicts m c.trace)
    at_least :
        base + changes before0 (verdicts m c.trace)
        ≤ logged m (tables c.world).alert_log + weigh (unlogged m) calls + errors m c.lost

  Alarmed-keeps :
      (c c' : Core State) (calls before after : List Pc) (p q : Pc)
      → Alarmed c calls
      → calls ≡ before ++ p ∷ after
      → c'.alerter.state ≡ c.alerter.state
      → c'.trace ≡ c.trace
      → logged m (tables c'.world).alert_log + unlogged m q
        ≤ logged m (tables c.world).alert_log + unlogged m p
      → logged m (tables c.world).alert_log + unlogged m p + errors m c.lost
        ≤ logged m (tables c'.world).alert_log + unlogged m q + errors m c'.lost
      → Alarmed c' (before ++ q ∷ after)
  Alarmed-keeps c c' calls before after p q h at state trace no_more no_less =
      let same : verdicts m c'.trace ≡ verdicts m c.trace = ap (verdicts m) trace in
      record {
        current =
            alarm_of_state c.alerter c'.alerter m state
            ∙ h.current
            ∙ ap (last_verdict before0) (sym same);
        at_most = omega (
          arith,
          h.at_most,
          no_more,
          weigh-move (unlogged m) calls before after p q at,
          ap (changes before0) same,
        );
        at_least = omega (
          arith,
          h.at_least,
          no_less,
          weigh-move (unlogged m) calls before after p q at,
          ap (changes before0) same,
        );
      }

  -- A step that leaves the alert log and the errors alone.
  Alarmed-same :
      (c c' : Core State) (calls before after : List Pc) (p q : Pc)
      → Alarmed c calls
      → calls ≡ before ++ p ∷ after
      → c'.alerter.state ≡ c.alerter.state
      → c'.trace ≡ c.trace
      → c'.lost ≡ c.lost
      → (tables c'.world).alert_log ≡ (tables c.world).alert_log
      → unlogged m q ≡ unlogged m p
      → Alarmed c' (before ++ q ∷ after)
  Alarmed-same c c' calls before after p q h at state trace lost kept waits =
      Alarmed-keeps c c' calls before after p q h at state trace
        (omega (arith, ap (logged m) kept, waits))
        (omega (arith, ap (logged m) kept, waits, ap (errors m) lost))

  chunk_answer-log :
      (rs : List Reading) (start : ℕ) (s : State)
      → (tables (chunk_answer w rs start s).1).alert_log ≡ (tables s).alert_log
  unfolding insert_chunk
  chunk_answer-log rs start s =
      elim (w.exec_insert_law _ _ (chunk_of w start rs) s (bound_rows_lem (chunk_of w start rs))) [
        | inl (r, u) ↦ ap (λ (t : Tables). t.alert_log) u
        | inr (inl (r, u)) ↦ ap (λ (t : Tables). t.alert_log) u
        | inr (inr (r, u)) ↦ ap (λ (t : Tables). t.alert_log) u
      ]

  decided-Alarmed :
      (c : Core State) (calls before after : List Pc) (rs todo : List Reading) (n : ℕ) (r : Reading)
      (t : Threshold)
      → Alarmed c calls
      → calls ≡ before ++ decided rs n todo r t ∷ after
      → let (a, event) = transition c.alerter r.metric t (evaluate t r.value) in
        Alarmed
          (record c { alerter = a; trace = c.trace ++ verdict_step r t ∷ [] })
          (before ++ after_transition rs n todo r event ∷ after)
  decided-Alarmed c calls before after rs todo n r t h at =
      let event = (transition c.alerter r.metric t (evaluate t r.value)).1 in
      let (current, more) = snoc-changes c.alerter m before0 c.trace (verdict_step r t) h.current in
      record {
        current = current;
        at_most = omega (
          arith,
          h.at_most,
          more,
          unlogged-after_transition m rs todo n r event,
          weigh-move (unlogged m) calls before after (decided rs n todo r t)
              (after_transition rs n todo r event) at,
        );
        at_least = omega (
          arith,
          h.at_least,
          more,
          unlogged-after_transition m rs todo n r event,
          weigh-move (unlogged m) calls before after (decided rs n todo r t)
              (after_transition rs n todo r event) at,
        );
      }

  logged-snoc :
      (l : List AlertEvent) (e : AlertEvent)
      → logged m (l ++ e ∷ []) ≡ logged m l + (if text_eq e.metric m then 1 else 0)
  logged-snoc l e = count-append (λ (x : AlertEvent). text_eq x.metric m) l (e ∷ []) ∙ (omega arith)

  errors-snoc :
      (l : List Text) (r : Reading)
      → errors m (l ++ r.metric ∷ []) ≡ errors m l + (if text_eq r.metric m then 1 else 0)
  errors-snoc l r = count-append (λ (x : Text). text_eq x m) l (r.metric ∷ []) ∙ (omega arith)

  -- A statement of the log adds its entry, or returns an error, or both.
  log-cases :
      (r : Reading) (e : Event) (notified : Bool) (lost : List Text) (s : State)
      → let (o, s') = insert_alert_log w (log_entry r e notified) s in
        let one : ℕ = if text_eq r.metric m then 1 else 0 in
        let old = logged m (tables s).alert_log in
        let new = logged m (tables s').alert_log in
        let errs = errors m (lost ++ lost_by r o) in
        (new ≤ old + one) × (old + one + errors m lost ≤ new + errs)
  unfolding insert_alert_log log_entry
  log-cases r e notified lost s =
      let entry = log_entry r e notified in
      elim (w.insert_alert_log_law entry s) [
        | inl (ok, u) ↦
            let more =
              ap (λ (t : Tables). logged m t.alert_log) u
              ∙ logged-snoc (tables s).alert_log entry in
            rw ok (omega (arith, more), omega (arith, more, ap (errors m) (append-nil lost)))
        | inr (inl (bad, u)) ↦
            let same = ap (λ (t : Tables). logged m t.alert_log) u in
            rw bad (omega (arith, same), omega (arith, same, errors-snoc lost r))
        | inr (inr (bad, u)) ↦
            let more =
              ap (λ (t : Tables). logged m t.alert_log) u
              ∙ logged-snoc (tables s).alert_log entry in
            rw bad (omega (arith, more), omega (arith, more, errors-snoc lost r))
      ]

  Move-Alarmed :
      (c c' : Core State) (p q : Pc) (calls before after : List Pc)
      → Alarmed c calls
      → calls ≡ before ++ p ∷ after
      → Move w f c p c' q
      → Alarmed c' (before ++ q ∷ after)
  Move-Alarmed c c' p q calls before after h at (round source rs start n lt) =
      Alarmed-same c _ calls before after _ _ h at refl refl refl
        (chunk_answer-log rs start c.world)
        (unlogged-after_round m source rs start n (chunk_answer w rs start c.world).0)
  Move-Alarmed c c' p q calls before after h at (finish source rs start n le) =
      Alarmed-same c _ calls before after _ _ h at refl refl refl refl refl
  Move-Alarmed c c' p q calls before after h at (count_rows source rs n) =
      Alarmed-same c _ calls before after _ _ h at refl refl refl refl refl
  Move-Alarmed c c' p q calls before after h at (skip rs todo n r e) =
      Alarmed-same c _ calls before after _ _ h at refl refl refl refl refl
  Move-Alarmed c c' p q calls before after h at (read rs todo n r t e) =
      Alarmed-same c _ calls before after _ _ h at refl refl refl refl refl
  Move-Alarmed c c' p q calls before after h at (decide rs todo n r t) =
      decided-Alarmed c calls before after rs todo n r t h at
  Move-Alarmed c c' p q calls before after h at (ask rs todo n r e) =
      Alarmed-same c _ calls before after _ _ h at (notify-Counts w f c.alerter c.world).state refl
        refl refl refl
  Move-Alarmed c c' p q calls before after h at (log rs todo n r e notified) =
      let (no_more, no_less) = log-cases r e notified c.lost c.world in
      Alarmed-keeps c _ calls before after _ _ h at refl refl (omega (arith, no_more))
        (omega (arith, no_less))
  Move-Alarmed c c' p q calls before after h at (reply rs n) =
      Alarmed-same c _ calls before after _ _ h at refl refl refl refl refl

  Run-Alarmed :
      (start : Core State) (s : Shared w f)
      → start.trace ≡ []
      → alarm start.alerter m ≡ before0
      → logged m (tables start.world).alert_log ≡ base
      → Run w f start s
      → Alarmed s.core s.calls
  unfolding last_verdict changes verdicts
  Run-Alarmed start s fresh was had begin = record {
    current = was ∙ ap (λ (xs : List Step). last_verdict before0 (verdicts m xs)) (sym fresh);
    at_most = omega (arith, had, ap (λ (xs : List Step). changes before0 (verdicts m xs)) fresh);
    at_least = omega (arith, had, ap (λ (xs : List Step). changes before0 (verdicts m xs)) fresh);
  }
  Run-Alarmed start s fresh was had (arrive run source rs) =
      let h = Run-Alarmed start _ fresh was had run in
      record {
        current = h.current;
        at_most = omega (arith, h.at_most);
        at_least = omega (arith, h.at_least);
      }
  Run-Alarmed start s fresh was had (move {s = r} run before after p q mv at e) =
      rw e (
        Move-Alarmed r.core _ p q r.calls before after (Run-Alarmed start r fresh was had run) at
          mv)
  Run-Alarmed start s fresh was had (reload {s = r} run thresholds limit) =
      let h = Run-Alarmed start r fresh was had run in
      record {
        current = alarm_of_state r.core.alerter _ m refl ∙ h.current;
        at_most = h.at_most;
        at_least = h.at_least;
      }
  Run-Alarmed start s fresh was had (elsewhere {s = r} run world same kept) =
      let h = Run-Alarmed start r fresh was had run in
      record {
        current = h.current;
        at_most = omega (arith, h.at_most, ap (logged m) kept);
        at_least = omega (arith, h.at_least, ap (logged m) kept);
      }

module _ (w : World) (f : Formats) where
  open w use {State, tables}

  -- From a start with an empty trace, however calls of the ingest handler, with their statements
  -- and the reloads of the alerter, interleave, and whatever statements fail: the alarm of a metric
  -- is the last verdict on it; the alert log has grown by at most one entry of the metric for each
  -- change of its verdict, where those that calls have yet to write are counted in; and it has
  -- grown by one for each change but for as many as statements of the log for this metric have
  -- returned an error. The verdicts are in the order in which the calls have come to the mutex.
  pub Run-alarms :
      (start : Core State) (s : Shared w f) (m : Text)
      → start.trace ≡ []
      → Run w f start s
      → let before = alarm start.alerter m in
        let seen = verdicts m s.core.trace in
        let old = logged m (tables start.world).alert_log in
        let new = logged m (tables s.core.world).alert_log + weigh (unlogged m) s.calls in
        (alarm s.core.alerter m ≡ last_verdict before seen)
        × (new ≤ old + changes before seen)
        × (old + changes before seen ≤ new + errors m s.core.lost)
  Run-alarms start s m fresh run =
      let h =
        Run-Alarmed w f m (logged m (tables start.world).alert_log) (alarm start.alerter m) start s
          fresh refl refl run in
      (h.current, h.at_most, h.at_least)
