-- ===== src/Store/Insert/Interleaved/Single.antt =====
-- A call that runs alone is one of the runs.
use cryo_lab_telemetry.Prelude.{
  ℕ, zero, suc, ◌+◌, refl, Option, none, some, List, [], ◌∷◌, length, ltb, arith, Bool-cases,
  Option-cases, inl, inr,
}
use mathlib.Core.Path.{subst}
use cryo_lab_telemetry.Store.Data.{Reading}
use cryo_lab_telemetry.Store.World.{World}
use cryo_lab_telemetry.Store.Insert.{Inserted, max_rows_per_stmt, insert_loop, insert_readings}
use cryo_lab_telemetry.Store.Insert.Interleaved.{
  Call, running, returned, chunk_answer, after_chunk, Run, begin, next, round, finish,
}

module _ (w : World) (s0 : w.State) (rs : List Reading) where
  open w use {State}

  abbrev Alone : Call → State → Type 0
  Alone c s = Run w s0 (rs ∷ []) (record { world = s; calls = c ∷ [] })

  -- what a loop returns, where it does not run out of fuel
  abbrev Returns : Option Inserted × State → Type 0
  Returns (none, s) = Unit
  Returns (some ins, s) = Alone (returned rs ins) s

  insert_loop-Returns :
      (fuel start n : ℕ) (s : State)
      → Alone (running rs start n) s
      → Returns (insert_loop w fuel rs start n s)
  unfolding insert_loop
  insert_loop-Returns zero start n s run = tt
  insert_loop-Returns (suc fuel) start n s run = elim (Bool-cases (ltb start (length rs))) [
    | inr over ↦
        rw (over, insert_loop) (next run (finish [] [] rs start n refl (ground arith) refl))
    | inl more ↦
        let s' = (chunk_answer w rs start s).1 in
        let after : Alone (after_chunk rs start n (chunk_answer w rs start s).0) s' =
          next run (round [] [] rs start n refl (ground arith) refl) in
        elim (Option-cases (chunk_answer w rs start s).0) [
          | inl lost ↦
              rw (more, lost, insert_loop)
                (subst (λ o. Alone (after_chunk rs start n o) s') lost after)
          | inr (k, got) ↦
              rw (more, got, insert_loop)
                (insert_loop-Returns fuel (start + max_rows_per_stmt) (n + k) s'
                  (subst (λ o. Alone (after_chunk rs start n o) s') got after))
        ]
  ]

  -- `InsertReadings` by itself is the run in which its rounds come one after the other.
  pub insert_readings-Returns : Returns (insert_readings w rs s0)
  unfolding insert_readings
  insert_readings-Returns = insert_loop-Returns (suc (length rs)) 0 0 s0 begin
