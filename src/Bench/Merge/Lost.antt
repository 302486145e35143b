-- ===== src/Bench/Merge/Lost.antt =====
-- An interleaving of two producers that loses counts.
use cryo_lab_telemetry.Prelude.{◌+◌, ◌≡◌, refl, [], ◌∷◌, arith, All}
use cryo_lab_telemetry.Bench.Load.{LatencyStats}
use cryo_lab_telemetry.Bench.Merge.{
  Pc, measured, appended, read_ok, added_ok, added, Merge, start_merge, append, load_ok, store_ok,
  load_errs, store_errs, Run, begin, next,
}
use cryo_lab_telemetry.Bench.Merge.Bounds.{IsAdded}

-- Of any two producers, there is an order of their accesses after which both are done, the failures
-- of both are counted, and of the requests that went well only those of the second: as many are
-- missing as the first had.
pub merge-lost :
    (a b : LatencyStats)
    → (s : Merge) × Run (a ∷ b ∷ []) s
      × All IsAdded s.producers
      × (s.merged.ok ≡ b.ok)
      × (s.merged.errs ≡ a.errs + b.errs)
unfolding start_merge
merge-lost a b =
    let first = λ (q : Pc). q ∷ measured b ∷ [] in
    let r1 = next begin [] (measured b ∷ []) _ _ (append a) refl refl in
    let r2 = next r1 (appended a ∷ []) [] _ _ (append b) refl refl in
    let r3 = next r2 [] (appended b ∷ []) _ _ (load_ok a) refl refl in
    let r4 = next r3 (read_ok a 0 ∷ []) [] _ _ (load_ok b) refl refl in
    let r5 = next r4 [] (read_ok b 0 ∷ []) _ _ (store_ok a 0) refl refl in
    let r6 = next r5 (added_ok a ∷ []) [] _ _ (store_ok b 0) refl refl in
    let r7 = next r6 [] (added_ok b ∷ []) _ _ (load_errs a) refl refl in
    let r8 = next r7 [] (added_ok b ∷ []) _ _ (store_errs a 0) refl refl in
    let r9 = next r8 (added a ∷ []) [] _ _ (load_errs b) refl refl in
    let r10 = next r9 (added a ∷ []) [] _ _ (store_errs b (0 + a.errs)) refl refl in
    (_, r10, (tt, (tt, tt)), omega arith, omega arith)
