-- ===== src/Bench/Batch/Fresh.antt =====
-- No reading of the bench is taken for one that is already stored.
use mathlib.Core.Path.{subst}
use cryo_lab_telemetry.Prelude.{
  ℕ, suc, ◌*◌, ◌<◌, ◌≤◌, ◌≡◌, refl, text_eq_iff, List, [], ◌∷◌, length, false, arith, All,
  Bool-cases, inl, inr, map,
}
use cryo_lab_telemetry.Prelude.Int.{pos, ◌+ℤ◌, eq_of_parts}
use cryo_lab_telemetry.Values.{Float64, Time}
use cryo_lab_telemetry.Store.Data.{Row, same_key, has_key, insert_row, new_rows}
use cryo_lab_telemetry.Store.World.{World, to_row}
use cryo_lab_telemetry.Bench.Batch.{Producer, reading_at, generate}

-- Producers of the same source have the same epoch.
abbrev pub Agree : Producer → Producer → Type 0
Agree p q = p.source ≡ q.source → p.epoch ≡ q.epoch

module _ (w : World) (float : ℕ → Float64)
    (micros : (t : Time) (j k : ℕ)
      → w.stamp (t +ℤ pos (j * 1000)) ≡ w.stamp (t +ℤ pos (k * 1000))
      → j ≡ k) where
  abbrev row : Producer → ℕ → Row
  row p s = to_row w.stamp (reading_at float p s)

  row-differs :
      (p q : Producer) (j k : ℕ) → Agree p q → j < k → same_key (row p j) (row q k) ≡ false
  unfolding same_key reading_at
  row-differs p q j k agree lt = elim (Bool-cases (same_key (row p j) (row q k))) [
    | inr other ↦ other
    | inl same ↦
        let source : p.source ≡ q.source = ground (arith, same, text_eq_iff p.source q.source) in
        let at : w.stamp (p.epoch +ℤ pos (j * 1000)) ≡ w.stamp (q.epoch +ℤ pos (k * 1000)) =
          eq_of_parts _ _ (ground (arith, same)) in
        let one : j ≡ k = micros q.epoch j k (
          subst (λ t. w.stamp (t +ℤ pos (j * 1000)) ≡ w.stamp (q.epoch +ℤ pos (k * 1000)))
            (agree source) at) in
        absurd (omega (arith, lt, one))
  ]

  -- None of the readings that are made from `seq` on has the key of a stored one.
  abbrev pub Unstored : List Row → List Producer → ℕ → Type 0
  Unstored rows [] seq = Unit
  Unstored rows (p ∷ ps) seq = (has_key (row p (suc seq)) rows ≡ false) × Unstored rows ps (suc seq)

  abbrev pub AllAgree : List Producer → Type 0
  AllAgree [] = Unit
  AllAgree (p ∷ ps) = All (Agree p) ps × AllAgree ps

  Unstored-next :
      (p : Producer) (j : ℕ) (rows : List Row) (ps : List Producer) (seq : ℕ)
      → j ≤ seq
      → All (Agree p) ps
      → Unstored rows ps seq
      → Unstored (row p j ∷ rows) ps seq
  unfolding has_key
  Unstored-next p j rows [] seq le agree h = tt
  Unstored-next p j rows (q ∷ ps) seq le (a, agree) (new, h) = (
    rw (row-differs p q j (suc seq) a (omega (arith, le)), new) refl,
    Unstored-next p j rows ps (suc seq) (omega (arith, le)) agree h,
  )

  abbrev pub rows_made : List Producer → ℕ → List Row
  rows_made ps seq = map (to_row w.stamp) (generate float ps seq)

  -- Where the database keeps whole microseconds apart, in whatever order the producers take their
  -- numbers, and whatever the numbers were before: the readings are as many new rows as they are,
  -- if none of them is stored yet and producers of the same source have the same epoch.
  pub new_rows-generate :
      (ps : List Producer) (seq : ℕ) (rows : List Row)
      → AllAgree ps
      → Unstored rows ps seq
      → new_rows (rows_made ps seq) rows ≡ length ps
  unfolding new_rows generate insert_row
  new_rows-generate [] seq rows agree h = refl
  new_rows-generate (p ∷ ps) seq rows (a, agree) (new, h) = rw new (
      omega (
        arith,
        new_rows-generate ps (suc seq) (row p (suc seq) ∷ rows) agree
            (Unstored-next p (suc seq) rows ps (suc seq) (omega arith) a h),
      ))
