-- ===== src/Store/Insert/Chunks.antt =====
-- The loop over the chunks, against one insertion of the whole batch.
use mathlib.Core.List.{map-append}
use cryo_lab_telemetry.Prelude.{
  ℕ, zero, suc, ◌+◌, ◌-◌, ◌≤◌, ◌<◌, ◌≡◌, refl, sym, ap, ◌∙◌, ◌⊎◌, inl, inr, true, false, Option,
  none, some, List, ◌++◌, map, arith, ltb, Bool-cases, length, take, drop, take-append-take,
  take_of_length-le,
}
use cryo_lab_telemetry.Store.Data.{Reading, Row, Tables, insert_rows, new_rows}
use cryo_lab_telemetry.Store.World.{World, to_row}
use cryo_lab_telemetry.Store.Insert.{
  Inserted, max_rows_per_stmt, chunk_end, insert_chunk, insert_loop, insert_readings,
}
use cryo_lab_telemetry.Store.Insert.Binding.{bound_rows_lem}
use cryo_lab_telemetry.Store.Insert.Rows.{insert_rows-append, new_rows-append}

-- The end of a chunk cuts the batch where the start of the next one does.
take-chunk_end :
    (w : World) (start : ℕ) (rs : List Reading)
    → take (chunk_end w start rs) rs ≡ take (start + max_rows_per_stmt) rs
unfolding chunk_end
take-chunk_end w start rs = elim (Bool-cases (ltb (length rs) (start + 1000))) [
  | inl short ↦ rw short (
      take_of_length-le (length rs) rs (omega arith)
      ∙ sym (take_of_length-le (start + 1000) rs (ground arith)))
  | inr long ↦ rw long refl
]

le-chunk_end :
    (w : World) (start : ℕ) (rs : List Reading) → start < length rs → start ≤ chunk_end w start rs
unfolding chunk_end
le-chunk_end w start rs h = ground arith

module _ (w : World) where
  open w use {State, tables, stamp}

  abbrev pub rows_of : List Reading → List Row
  rows_of = map (to_row stamp)

  -- The tables with a batch put in, and the rows that this adds.
  abbrev pub merged : Tables → List Reading → Tables
  merged t rs = record t { readings = insert_rows (rows_of rs) t.readings }

  abbrev pub added : Tables → List Reading → ℕ
  added t rs = new_rows (rows_of rs) t.readings

  pub merged-append :
      (t : Tables) (xs ys : List Reading) → merged (merged t xs) ys ≡ merged t (xs ++ ys)
  merged-append t xs ys =
      ap (λ (rows : List Row). record t { readings = rows }) (rw (map-append, insert_rows-append))

  added-append :
      (t : Tables) (xs ys : List Reading) → added t (xs ++ ys) ≡ added t xs + added (merged t xs) ys
  added-append t xs ys = rw (map-append, new_rows-append)

  -- What a call for the batch `rs` that found the tables `t` may return: all is in and the count
  -- is that of the new rows, or a first part of the batch is in and the call says that it failed.
  abbrev pub Outcome : Tables → List Reading → Option Inserted × State → Type 0
  Outcome t rs r =
      ((r.0 ≡ some (record { rows = added t rs; failed = false })) × (tables r.1 ≡ merged t rs))
      ⊎ ((k n : ℕ) × (r.0 ≡ some (record { rows = n; failed = true }))
          × (tables r.1 ≡ merged t (take k rs))
          × (n ≤ added t (take k rs)))

  abbrev pub chunk_of : ℕ → List Reading → List Reading
  chunk_of start rs = take (chunk_end w start rs - start) (drop start rs)

  pub take-chunk_of :
      (start : ℕ) (rs : List Reading)
      → start < length rs
      → take start rs ++ chunk_of start rs ≡ take (start + max_rows_per_stmt) rs
  take-chunk_of start rs h =
      let e : start + (chunk_end w start rs - start) ≡ chunk_end w start rs =
        omega (arith, le-chunk_end w start rs h) in
      take-append-take start (chunk_end w start rs - start) rs
      ∙ ap (λ n. take n rs) e
      ∙ take-chunk_end w start rs

  -- One round: the statement of a chunk ran on tables that hold what stands before it.
  insert_chunk_lem :
      (t : Tables) (rs : List Reading) (start : ℕ) (s : State)
      → start < length rs
      → tables s ≡ merged t (take start rs)
      → let r = insert_chunk w (chunk_of start rs) s in
        let t' = merged t (take (start + max_rows_per_stmt) rs) in
        ((k : ℕ) × (r.0 ≡ some k)
          × (tables r.1 ≡ t')
          × (added t (take start rs) + k ≡ added t (take (start + max_rows_per_stmt) rs)))
        ⊎ ((r.0 ≡ none) × (tables r.1 ≡ merged t (take start rs)))
        ⊎ ((r.0 ≡ none)
            × (tables r.1 ≡ t')
            × (added t (take start rs) ≤ added t (take (start + max_rows_per_stmt) rs)))
  unfolding insert_chunk
  insert_chunk_lem t rs start s h e =
      let chunk : List Reading = chunk_of start rs in
      let cut : take start rs ++ chunk ≡ take (start + max_rows_per_stmt) rs =
        take-chunk_of start rs h in
      let moved : merged (tables s) chunk ≡ merged t (take (start + max_rows_per_stmt) rs) =
        ap (λ (x : Tables). merged x chunk) e
        ∙ merged-append t (take start rs) chunk
        ∙ ap (merged t) cut in
      let counted : added t (take start rs) + added (tables s) chunk
          ≡ added t (take (start + max_rows_per_stmt) rs) =
        rw e (sym (added-append t (take start rs) chunk) ∙ ap (added t) cut) in
      elim (w.exec_insert_law _ _ chunk s (bound_rows_lem chunk)) [
        | inl (r, u) ↦ inl (added (tables s) chunk, r, u ∙ moved, counted)
        | inr (inl (r, u)) ↦ inr (inl (r, u ∙ e))
        | inr (inr (r, u)) ↦ inr (inr (r, u ∙ moved, omega (arith, counted)))
      ]

  abbrev ok_count : ℕ → Option Inserted
  ok_count n = some (record { rows = n; failed = false })

  insert_loop-Outcome :
      (t : Tables) (rs : List Reading) (fuel start n : ℕ) (s : State)
      → length rs - start < fuel
      → tables s ≡ merged t (take start rs)
      → n ≡ added t (take start rs)
      → Outcome t rs (insert_loop w fuel rs start n s)
  unfolding insert_loop
  insert_loop-Outcome t rs zero start n s f e c = absurd (omega arith)
  insert_loop-Outcome t rs (suc fuel) start n s f e c = elim (Bool-cases (ltb start (length rs))) [
    | inl more ↦ elim (insert_chunk_lem t rs start s (ground arith) e) [
      | inl (k, r, u, d) ↦
          rw (more, r, insert_loop)
            (insert_loop-Outcome t rs fuel (start + max_rows_per_stmt) (n + k) _ (ground arith) u
              (ap (λ (m : ℕ). m + k) c ∙ d))
      | inr (inl (r, u)) ↦ rw (more, r, insert_loop) (inr (start, n, refl, u, omega arith))
      | inr (inr (r, u, le)) ↦
          rw (more, r, insert_loop) (inr (start + max_rows_per_stmt, n, refl, u, omega arith))
    ]
    | inr done ↦
        let whole : take start rs ≡ rs = take_of_length-le start rs (ground arith) in
        rw (done, insert_loop) (inl (ap ok_count (c ∙ ap (added t) whole), e ∙ ap (merged t) whole))
  ]

  -- Whatever the database does, a call that finds the tables `t` returns, and either all of its
  -- batch is merged into `t` and the count is that of the new rows, or it reports an error, and a
  -- first part of the batch is merged, with at least as many new rows as it counted.
  pub insert_readings-Outcome :
      (rs : List Reading) (s : State) → Outcome (tables s) rs (insert_readings w rs s)
  unfolding insert_readings
  insert_readings-Outcome rs s =
      insert_loop-Outcome (tables s) rs (suc (length rs)) 0 0 s (omega arith)
        (unfold insert_rows in refl) (unfold new_rows in refl)
