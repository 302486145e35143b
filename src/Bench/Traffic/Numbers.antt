-- ===== src/Bench/Traffic/Numbers.antt =====
-- The numbers that the workers hold, and the readings that are stored under them.
use cryo_lab_telemetry.Prelude.{
  ℕ, suc, ◌+◌, ◌*◌, ◌≤◌, ◌≡◌, ◌≢◌, refl, Text, List, [], ◌∷◌, ◌++◌, length, map, take, zero, false,
  Bool-cases, inl, inr, arith,
}
use cryo_lab_telemetry.Prelude.Int.{pos, ◌+ℤ◌, eq_of_parts}
use cryo_lab_telemetry.Values.{Float64, Time}
use cryo_lab_telemetry.Store.Data.{Row, same_key, has_key, insert_row, insert_rows, new_rows}
use cryo_lab_telemetry.Store.World.{World, to_row}
use cryo_lab_telemetry.Bench.Load.Counts.{occurs}
use cryo_lab_telemetry.Bench.Batch.{Producer, reading_at}

pub occurs-append : (k : ℕ) (ns ms : List ℕ) → occurs k (ns ++ ms) ≡ occurs k ns + occurs k ms
occurs-append k [] ms = omega arith
occurs-append k (j ∷ ns) ms = omega (arith, occurs-append k ns ms)

pub occurs-take : (k m : ℕ) (ns : List ℕ) → occurs k (take m ns) ≤ occurs k ns
occurs-take k zero ns = omega arith
occurs-take k (suc m) [] = omega arith
occurs-take k (suc m) (j ∷ ns) = omega (arith, occurs-take k m ns)

pub occurs_self : (k : ℕ) (ns : List ℕ) → 1 ≤ occurs k (k ∷ ns)
occurs_self k ns = ground arith

-- The database keeps whole microseconds apart.
abbrev pub KeepsMicros : World → Type 0
KeepsMicros w =
    (t : Time) (j k : ℕ) → w.stamp (t +ℤ pos (j * 1000)) ≡ w.stamp (t +ℤ pos (k * 1000)) → j ≡ k

module _ (w : World) (float : ℕ → Float64) (p : Producer) (source : Text) where
  -- the row of the number `k`, under the token's source
  abbrev pub row : ℕ → Row
  row k = to_row w.stamp (record (reading_at float p k) { source = source })

  abbrev pub rows : List ℕ → List Row
  rows = map row

  module _ (micros : KeepsMicros w) where
    row-differs : (j k : ℕ) → j ≢ k → same_key (row j) (row k) ≡ false
    unfolding same_key reading_at
    row-differs j k ne = elim (Bool-cases (same_key (row j) (row k))) [
      | inr other ↦ other
      | inl same ↦ absurd (ne (micros p.epoch j k (eq_of_parts _ _ (ground (arith, same)))))
    ]

    insert_row-free :
        (j k : ℕ) (stored : List Row)
        → j ≢ k
        → has_key (row k) stored ≡ false
        → has_key (row k) (insert_row (row j) stored) ≡ false
    unfolding insert_row has_key
    insert_row-free j k stored ne free = elim (Bool-cases (has_key (row j) stored)) [
      | inl old ↦ rw old free
      | inr new ↦ rw (new, row-differs j k ne, free) refl
    ]

    -- A number that is not among those inserted stays free.
    pub insert_rows-free :
        (k : ℕ) (ns : List ℕ) (stored : List Row)
        → occurs k ns ≡ 0
        → has_key (row k) stored ≡ false
        → has_key (row k) (insert_rows (rows ns) stored) ≡ false
    unfolding insert_rows
    insert_rows-free k [] stored absent free = free
    insert_rows-free k (j ∷ ns) stored absent free =
        insert_rows-free k ns (insert_row (row j) stored) (ground arith)
          (insert_row-free j k stored (λ e. absurd (ground (arith, e))) free)

    -- Numbers that differ and are free are as many new rows.
    pub new_rows-free :
        (ns : List ℕ) (stored : List Row)
        → ((k : ℕ) → occurs k ns ≤ 1)
        → ((k : ℕ) → 1 ≤ occurs k ns → has_key (row k) stored ≡ false)
        → new_rows (rows ns) stored ≡ length ns
    unfolding new_rows
    new_rows-free [] stored once free = refl
    new_rows-free (j ∷ ns) stored once free =
        let first = free j (occurs_self j ns) in
        let others =
          new_rows-free ns (insert_row (row j) stored) (λ k. omega (arith, once k))
            (λ k h.
              insert_row-free j k stored (λ e. absurd (ground (arith, e, once k, h)))
                (free k (omega (arith, h)))) in
        rw first (omega (arith, others))
