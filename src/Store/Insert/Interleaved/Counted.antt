-- ===== src/Store/Insert/Interleaved/Counted.antt =====
-- What calls that run at the same time have stored and counted.
use mathlib.Core.Path.{subst}
use cryo_lab_telemetry.Prelude.{ℕ, ◌+◌, ◌*◌, ◌≤◌, ◌≡◌, refl, sym, List, [], ◌∷◌, length, All, arith}
use cryo_lab_telemetry.Prelude.Weights.{weigh}
use cryo_lab_telemetry.Store.Data.{Reading}
use cryo_lab_telemetry.Store.World.{World}
use cryo_lab_telemetry.Store.Insert.Rows.{IsUnique}
use cryo_lab_telemetry.Store.Insert.Interleaved.{
  Call, running, Shared, called_all, Step, round, finish, elsewhere, Run, begin, next,
}
use cryo_lab_telemetry.Store.Insert.Interleaved.Rounds.{
  counted, failures, chunk_answer-Moved, Held, Inv, round-Inv, finish-Inv,
}

module _ (w : World) where
  open w use {State, tables}

  Step-Inv :
      (base : ℕ) (s t : Shared State)
      → Inv w base (tables s.world).readings s.calls
      → Step w s t
      → Inv w base (tables t.world).readings t.calls
  Step-Inv base s t inv (round before after rs start n at lt e) =
      subst (λ (x : Shared State). Inv w base (tables x.world).readings x.calls) (sym e)
        (round-Inv w base (tables s.world).readings s.calls before after rs start n inv at _ _ lt
          (chunk_answer-Moved w rs start s.world))
  Step-Inv base s t inv (finish before after rs start n at le e) =
      subst (λ (x : Shared State). Inv w base (tables x.world).readings x.calls) (sym e)
        (finish-Inv w base (tables s.world).readings s.calls before after rs start n inv at le)
  Step-Inv base s t inv (elsewhere world' same e) =
      subst (λ (x : Shared State). Inv w base (tables x.world).readings x.calls) (sym e)
        (subst (λ rows. Inv w base rows s.calls) (sym same) inv)

  start-Inv :
      (s0 : State) (batches : List (List Reading))
      → IsUnique (tables s0).readings
      → Inv w (length (tables s0).readings) (tables s0).readings (called_all batches)
  start-Inv s0 batches keys = record {
    unique = keys;
    low = omega (arith, nothing counted (λ rs. refl) batches);
    high =
        omega (arith, nothing counted (λ rs. refl) batches, nothing failures (λ rs. refl) batches);
    held = fresh batches;
  }
    where
      nothing :
          (f : Call → ℕ)
          → ((rs : List Reading) → f (running rs 0 0) ≡ 0)
          → (l : List (List Reading)) → weigh f (called_all l) ≡ 0
      nothing f h [] = refl
      nothing f h (rs ∷ l) = omega (arith, h rs, nothing f h l)

      fresh : (l : List (List Reading)) → All (Held w (tables s0).readings) (called_all l)
      fresh [] = tt
      fresh (rs ∷ l) = (tt, fresh l)

  Run-Inv :
      (s0 : State) (batches : List (List Reading)) (s : Shared State)
      → IsUnique (tables s0).readings
      → Run w s0 batches s
      → Inv w (length (tables s0).readings) (tables s.world).readings s.calls
  Run-Inv s0 batches s keys begin = start-Inv s0 batches keys
  Run-Inv s0 batches s keys (next {s = r} run step) =
      Step-Inv (length (tables s0).readings) r s (Run-Inv s0 batches r keys run) step

  -- Where no two stored readings had the same key before, however the rounds of calls that run at
  -- the same time come, and whatever statements fail: no two stored readings have the same key; a
  -- call that has returned without an error has all its batch stored; and the rows that the calls
  -- have counted are no more than the table has grown by, which is at most 1000 more for each call
  -- that has failed, and exactly that where none has.
  pub Run-counted :
      (s0 : State) (batches : List (List Reading)) (s : Shared State)
      → IsUnique (tables s0).readings
      → Run w s0 batches s
      → IsUnique (tables s.world).readings
        × All (Held w (tables s.world).readings) s.calls
        × (length (tables s0).readings + weigh counted s.calls ≤ length (tables s.world).readings)
        × (length (tables s.world).readings
            ≤ length (tables s0).readings + weigh counted s.calls + 1000 * weigh failures s.calls)
  Run-counted s0 batches s keys run =
      let inv = Run-Inv s0 batches s keys run in (inv.unique, inv.held, inv.low, inv.high)
