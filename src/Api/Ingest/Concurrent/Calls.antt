-- ===== src/Api/Ingest/Concurrent/Calls.antt =====
-- What a step of a call of handleIngest does to the stored readings and to the counters.
use mathlib.Core.Path.{subst}
use mathlib.Core.List.{map-append}
use cryo_lab_telemetry.Prelude.{
  ℕ, ◌+◌, ◌%◌, ◌^◌, ◌≤◌, ◌≡◌, refl, sym, ap, ◌∙◌, inl, inr, Text, Option, none, some, List, [], ◌∷◌,
  ◌++◌, map, arith, true, false,
}
use cryo_lab_telemetry.Prelude.Weights.{weigh, weigh-move}
use cryo_lab_telemetry.Store.Data.{Reading, AlertEvent, Row, Tables}
use cryo_lab_telemetry.Store.World.{World}
use cryo_lab_telemetry.Store.Insert.Interleaved.{Call, running, returned, after_chunk, chunk_answer}
use cryo_lab_telemetry.Store.Insert.Interleaved.Rounds.{
  counted, chunk_answer-Moved, Inv, round-Inv, finish-Inv,
}
use cryo_lab_telemetry.Store.Settings.{insert_alert_log}
use cryo_lab_telemetry.Metrics.{record_ingest}
use cryo_lab_telemetry.Alert.{Event}
use cryo_lab_telemetry.Alert.Firing.{Formats, log_entry}
use cryo_lab_telemetry.Api.Ingest.Concurrent.{
  Pc, inserting, inserted, checking, decided, firing, logging, answered, failed, Core, after_round,
  after_transition, Move, round, finish, count, skip, read, decide, ask, log, reply,
}

-- the call of InsertReadings behind a call of the handler
abbrev pub call_of : Pc → Call
call_of (inserting source rs start n) = running rs start n
call_of (inserted source rs n) = returned rs (record { rows = n; failed = false })
call_of (checking rs n todo) = returned rs (record { rows = n; failed = false })
call_of (decided rs n todo r t) = returned rs (record { rows = n; failed = false })
call_of (firing rs n todo r e) = returned rs (record { rows = n; failed = false })
call_of (logging rs n todo r e notified) = returned rs (record { rows = n; failed = false })
call_of (answered rs n) = returned rs (record { rows = n; failed = false })
call_of (failed rs n) = returned rs (record { rows = n; failed = true })

-- the rows that a call has put into the counters
abbrev pub recorded : Pc → ℕ
recorded (inserting source rs start n) = 0
recorded (inserted source rs n) = 0
recorded (checking rs n todo) = n
recorded (decided rs n todo r t) = n
recorded (firing rs n todo r e) = n
recorded (logging rs n todo r e notified) = n
recorded (answered rs n) = n
recorded (failed rs n) = 0

call_of-after_round :
    (source : Text) (rs : List Reading) (start n : ℕ) (o : Option ℕ)
    → call_of (after_round source rs start n o) ≡ after_chunk rs start n o
call_of-after_round source rs start n none = refl
call_of-after_round source rs start n (some k) = refl

recorded-after_round :
    (source : Text) (rs : List Reading) (start n : ℕ) (o : Option ℕ)
    → recorded (after_round source rs start n o) ≡ 0
recorded-after_round source rs start n none = refl
recorded-after_round source rs start n (some k) = refl

call_of-after_transition :
    (rs todo : List Reading) (n : ℕ) (r : Reading) (o : Option Event)
    → (call_of (after_transition rs n todo r o) ≡ returned rs (record { rows = n; failed = false }))
      × (recorded (after_transition rs n todo r o) ≡ n)
call_of-after_transition rs todo n r none = (refl, refl)
call_of-after_transition rs todo n r (some e) = (refl, refl)

recorded-le : (p : Pc) → recorded p ≤ counted (call_of p)
recorded-le (inserting source rs start n) = omega arith
recorded-le (inserted source rs n) = omega arith
recorded-le (checking rs n todo) = omega arith
recorded-le (decided rs n todo r t) = omega arith
recorded-le (firing rs n todo r e) = omega arith
recorded-le (logging rs n todo r e notified) = omega arith
recorded-le (answered rs n) = omega arith
recorded-le (failed rs n) = omega arith

pub weigh-recorded-le : (ps : List Pc) → weigh recorded ps ≤ weigh counted (map call_of ps)
weigh-recorded-le [] = omega arith
weigh-recorded-le (p ∷ ps) = omega (arith, recorded-le p, weigh-recorded-le ps)

split :
    (calls before after : List Pc) (p : Pc)
    → calls ≡ before ++ p ∷ after
    → map call_of calls ≡ map call_of before ++ call_of p ∷ map call_of after
split calls before after p at = ap (map call_of) at ∙ map-append call_of before (p ∷ after)

module _ (w : World) (f : Formats) where
  open w use {State, tables}

  alert_log-readings :
      (e : AlertEvent) (s : State)
      → (tables (insert_alert_log w e s).1).readings ≡ (tables s).readings
  unfolding insert_alert_log
  alert_log-readings e s = elim (w.insert_alert_log_law e s) [
    | inl (r, u) ↦ ap (λ (t : Tables). t.readings) u
    | inr (inl (r, u)) ↦ ap (λ (t : Tables). t.readings) u
    | inr (inr (r, u)) ↦ ap (λ (t : Tables). t.readings) u
  ]

  -- the storage invariant of the calls of InsertReadings, and what the counters have
  abbrev pub Stored : ℕ → List Row → List Pc → Type 0
  Stored base rows calls = Inv w base rows (map call_of calls)

  Stored-keeps :
      (base : ℕ) (calls before after : List Pc) (p q : Pc) (old new : List Row)
      → Stored base old calls
      → calls ≡ before ++ p ∷ after
      → call_of q ≡ call_of p
      → new ≡ old
      → Stored base new (before ++ q ∷ after)
  Stored-keeps base calls before after p q old new inv at e same =
      subst (λ rows. Stored base rows (before ++ q ∷ after)) (sym same)
        (subst (Inv w base old)
          (split calls before after p at
            ∙ ap (λ (c : Call). map call_of before ++ c ∷ map call_of after) (sym e)
            ∙ sym (map-append call_of before (q ∷ after)))
          inv)

  pub Move-Stored :
      (base : ℕ) (m m' : Core State) (p q : Pc) (calls before after : List Pc)
      → Stored base (tables m.world).readings calls
      → calls ≡ before ++ p ∷ after
      → Move w f m p m' q
      → Stored base (tables m'.world).readings (before ++ q ∷ after)
  Move-Stored base m m' p q calls before after inv at (round source rs start n lt) =
      let o = (chunk_answer w rs start m.world).0 in
      subst (Inv w base (tables (chunk_answer w rs start m.world).1).readings)
        (ap (λ (c : Call). map call_of before ++ c ∷ map call_of after)
            (sym (call_of-after_round source rs start n o))
          ∙ sym (map-append call_of before (after_round source rs start n o ∷ after)))
        (round-Inv w base (tables m.world).readings (map call_of calls) (map call_of before)
          (map call_of after) rs start n inv (split calls before after _ at) _ o lt
          (chunk_answer-Moved w rs start m.world))
  Move-Stored base m m' p q calls before after inv at (finish source rs start n le) =
      subst (Inv w base (tables m.world).readings)
        (sym (map-append call_of before (inserted source rs n ∷ after)))
        (finish-Inv w base (tables m.world).readings (map call_of calls) (map call_of before)
          (map call_of after) rs start n inv (split calls before after _ at) le)
  Move-Stored base m m' p q calls before after inv at (count source rs n) =
      Stored-keeps base calls before after _ _ _ _ inv at refl refl
  Move-Stored base m m' p q calls before after inv at (skip rs todo n r e) =
      Stored-keeps base calls before after _ _ _ _ inv at refl refl
  Move-Stored base m m' p q calls before after inv at (read rs todo n r t e) =
      Stored-keeps base calls before after _ _ _ _ inv at refl refl
  Move-Stored base m m' p q calls before after inv at (decide rs todo n r t) =
      Stored-keeps base calls before after _ _ _ _ inv at (call_of-after_transition rs todo n r _).0
        refl
  Move-Stored base m m' p q calls before after inv at (ask rs todo n r e) =
      Stored-keeps base calls before after _ _ _ _ inv at refl refl
  Move-Stored base m m' p q calls before after inv at (log rs todo n r e notified) =
      Stored-keeps base calls before after _ _ _ _ inv at refl
        (alert_log-readings (log_entry r e notified) m.world)
  Move-Stored base m m' p q calls before after inv at (reply rs n) =
      Stored-keeps base calls before after _ _ _ _ inv at refl refl

  -- what the counters have of the calls
  abbrev pub Counts : ℕ → ℕ → List Pc → Type 0
  Counts total0 total calls = total ≡ (total0 + weigh recorded calls) % 2 ^ 64

  Counts-keeps :
      (total0 total : ℕ) (calls before after : List Pc) (p q : Pc)
      → Counts total0 total calls
      → calls ≡ before ++ p ∷ after
      → recorded q ≡ recorded p
      → Counts total0 total (before ++ q ∷ after)
  Counts-keeps total0 total calls before after p q h at e =
      omega (arith, h, e, weigh-move recorded calls before after p q at)

  pub Move-Counts :
      (total0 : ℕ) (m m' : Core State) (p q : Pc) (calls before after : List Pc)
      → Counts total0 m.metrics.total calls
      → calls ≡ before ++ p ∷ after
      → Move w f m p m' q
      → Counts total0 m'.metrics.total (before ++ q ∷ after)
  unfolding record_ingest
  Move-Counts total0 m m' p q calls before after h at (round source rs start n lt) =
      Counts-keeps total0 _ calls before after _ _ h at (recorded-after_round source rs start n _)
  Move-Counts total0 m m' p q calls before after h at (finish source rs start n le) =
      Counts-keeps total0 _ calls before after _ _ h at refl
  Move-Counts total0 m m' p q calls before after h at (count source rs n) = omega (
    arith,
    h,
    weigh-move recorded calls before after (inserted source rs n) (checking rs n rs) at,
  )
  Move-Counts total0 m m' p q calls before after h at (skip rs todo n r e) =
      Counts-keeps total0 _ calls before after _ _ h at refl
  Move-Counts total0 m m' p q calls before after h at (read rs todo n r t e) =
      Counts-keeps total0 _ calls before after _ _ h at refl
  Move-Counts total0 m m' p q calls before after h at (decide rs todo n r t) =
      Counts-keeps total0 _ calls before after _ _ h at (call_of-after_transition rs todo n r _).1
  Move-Counts total0 m m' p q calls before after h at (ask rs todo n r e) =
      Counts-keeps total0 _ calls before after _ _ h at refl
  Move-Counts total0 m m' p q calls before after h at (log rs todo n r e notified) =
      Counts-keeps total0 _ calls before after _ _ h at refl
  Move-Counts total0 m m' p q calls before after h at (reply rs n) =
      Counts-keeps total0 _ calls before after _ _ h at refl
