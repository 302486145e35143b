-- ===== src/Store/Insert/Interleaved/Rounds.antt =====
-- What one round does to what is stored and counted.
use mathlib.Core.Path.{subst}
use mathlib.Core.List.{map-append}
use cryo_lab_telemetry.Prelude.{
  ℕ, ◌+◌, ◌-◌, ◌*◌, ◌≤◌, ◌<◌, ◌≡◌, refl, sym, ap, ◌⊎◌, inl, inr, Option, none, some, List, [], ◌∷◌,
  ◌++◌, true, false, take, drop, length, length-take, take_of_length-le, if◌then◌else◌, All,
  All-append, arith, Bool-cases,
}
use cryo_lab_telemetry.Prelude.Weights.{weigh, weigh-move, All-move, All-at}
use cryo_lab_telemetry.Store.Data.{Reading, Row, Tables, has_key, insert_rows, new_rows}
use cryo_lab_telemetry.Store.World.{World}
use cryo_lab_telemetry.Store.Insert.{max_rows_per_stmt, insert_chunk, chunk_end}
use cryo_lab_telemetry.Store.Insert.Rows.{
  new_rows-le, IsUnique, HasKeys, length-insert_rows, insert_rows-IsUnique, insert_rows-HasKeys,
  insert_rows-HasKeys_prefix,
}
use cryo_lab_telemetry.Store.Insert.Binding.{bound_rows_lem}
use cryo_lab_telemetry.Store.Insert.Chunks.{rows_of, chunk_of, take-chunk_of}
use cryo_lab_telemetry.Store.Insert.Interleaved.{Call, running, returned, after_chunk, chunk_answer}

-- what a call has counted
abbrev pub counted : Call → ℕ
counted (running rs start n) = n
counted (returned rs ins) = ins.rows

abbrev pub failures : Call → ℕ
failures (running rs start n) = 0
failures (returned rs ins) = if ins.failed then 1 else 0

module _ (w : World) where
  open w use {State, tables}

  length-rows_of : (rs : List Reading) → length (rows_of w rs) ≡ length rs
  length-rows_of [] = refl
  length-rows_of (r ∷ rs) = omega (arith, length-rows_of rs)

  chunk-le :
      (start : ℕ) (rs : List Reading) → start < length rs → length (chunk_of w start rs) ≤ 1000
  unfolding chunk_end
  chunk-le start rs h = ground (arith, length-take (chunk_end w start rs - start) (drop start rs))

  -- The rows of a chunk are in, or nothing has changed; where the answer is a count, they are in
  -- and it is the number of those that were new.
  abbrev pub Moved : List Row → List Row → List Row → Option ℕ → Type 0
  Moved chunk old new none = (new ≡ old) ⊎ (new ≡ insert_rows chunk old)
  Moved chunk old new (some k) = (new ≡ insert_rows chunk old) × (k ≡ new_rows chunk old)

  pub chunk_answer-Moved :
      (rs : List Reading) (start : ℕ) (s : State)
      → Moved
          (rows_of w (chunk_of w start rs))
          (tables s).readings
          (tables (chunk_answer w rs start s).1).readings
          (chunk_answer w rs start s).0
  unfolding insert_chunk
  chunk_answer-Moved rs start s =
      let chunk = chunk_of w start rs in
      let readings = λ (t : Tables). t.readings in
      elim (w.exec_insert_law _ _ chunk s (bound_rows_lem chunk)) [
        | inl (r, u) ↦ rw r (ap readings u, refl)
        | inr (inl (r, u)) ↦ rw r (inl (ap readings u))
        | inr (inr (r, u)) ↦ rw r (inr (ap readings u))
      ]

  -- What is stored of a call's batch: what its loop has passed, and all of it where it has returned
  -- without an error.
  abbrev pub Held : List Row → Call → Type 0
  Held rows (running rs start n) = HasKeys (rows_of w (take start rs)) rows
  Held rows (returned rs ins) = if ins.failed then Unit else HasKeys (rows_of w rs) rows

  Held-insert_rows : (xs rows : List Row) (c : Call) → Held rows c → Held (insert_rows xs rows) c
  Held-insert_rows xs rows (running rs start n) h =
      insert_rows-HasKeys_prefix (rows_of w (take start rs)) xs rows h
  Held-insert_rows xs rows (returned rs ins) h = elim (Bool-cases ins.failed) [
    | inl lost ↦ rw lost tt
    | inr all ↦ rw all (insert_rows-HasKeys_prefix (rows_of w rs) xs rows (rw all at h))
  ]

  Held-chunk :
      (rs : List Reading) (start : ℕ) (rows : List Row)
      → start < length rs
      → HasKeys (rows_of w (take start rs)) rows
      → HasKeys
          (rows_of w (take (start + max_rows_per_stmt) rs))
          (insert_rows (rows_of w (chunk_of w start rs)) rows)
  Held-chunk rs start rows lt h =
      let chunk = rows_of w (chunk_of w start rs) in
      subst (λ l. HasKeys (rows_of w l) (insert_rows chunk rows)) (take-chunk_of w start rs lt)
        (rw map-append (
          All-append (λ x. has_key x (insert_rows chunk rows) ≡ true) (rows_of w (take start rs))
            chunk (insert_rows-HasKeys_prefix (rows_of w (take start rs)) chunk rows h)
            (insert_rows-HasKeys chunk rows)))

  -- `rows` is what is stored, `base` is how much was stored before the calls.
  pub record Inv (base : ℕ) (rows : List Row) (calls : List Call) : Type 0 where
    pub unique : IsUnique rows
    pub low : base + weigh counted calls ≤ length rows
    pub high : length rows ≤ base + weigh counted calls + 1000 * weigh failures calls
    pub held : All (Held rows) calls

  module _ (base : ℕ) (rows : List Row) (calls before after : List Call) (rs : List Reading)
      (start n : ℕ) (inv : Inv base rows calls)
      (at : calls ≡ before ++ running rs start n ∷ after) where
    -- the call gives way to `q`, and nothing is stored
    same-Inv : (q : Call) → counted q ≡ n → Held rows q → Inv base rows (before ++ q ∷ after)
    same-Inv q e held =
        let moved = λ (f : Call → ℕ). weigh-move f calls before after (running rs start n) q at in
        record {
          unique = inv.unique;
          low = omega (arith, inv.low, moved counted, e);
          high = omega (arith, inv.high, moved counted, moved failures, e);
          held =
              All-move (Held rows) (Held rows) (λ x h. h) before after (running rs start n) q
                (subst (All (Held rows)) at inv.held) held;
        }

    -- the call gives way to `q`, and the rows of its chunk are stored
    stored-Inv :
        (q : Call)
        → start < length rs
        → (n ≤ counted q)
        → (counted q ≤ n + new_rows (rows_of w (chunk_of w start rs)) rows)
        → (n + new_rows (rows_of w (chunk_of w start rs)) rows ≤ counted q + 1000 * failures q)
        → Held (insert_rows (rows_of w (chunk_of w start rs)) rows) q
        → Inv base (insert_rows (rows_of w (chunk_of w start rs)) rows) (before ++ q ∷ after)
    stored-Inv q lt more least most held =
        let chunk = rows_of w (chunk_of w start rs) in
        let moved = λ (f : Call → ℕ). weigh-move f calls before after (running rs start n) q at in
        let grown = length-insert_rows chunk rows in
        record {
          unique = insert_rows-IsUnique chunk rows inv.unique;
          low = omega (arith, inv.low, moved counted, grown, more, least);
          high = omega (arith, inv.high, moved counted, moved failures, grown, most);
          held =
              All-move (Held rows) (Held (insert_rows chunk rows)) (Held-insert_rows chunk rows)
                before after (running rs start n) q (subst (All (Held rows)) at inv.held) held;
        }

    pub round-Inv :
        (new : List Row) (o : Option ℕ)
        → start < length rs
        → Moved (rows_of w (chunk_of w start rs)) rows new o
        → Inv base new (before ++ after_chunk rs start n o ∷ after)
    round-Inv new none lt (inl same) =
        subst (λ l. Inv base l (before ++ after_chunk rs start n none ∷ after)) (sym same)
          (same-Inv (returned rs (record { rows = n; failed = true })) refl tt)
    round-Inv new none lt (inr stored) =
        let chunk = rows_of w (chunk_of w start rs) in
        let few : new_rows chunk rows ≤ 1000 = omega (
          arith,
          new_rows-le chunk rows,
          length-rows_of (chunk_of w start rs),
          chunk-le start rs lt,
        ) in
        subst (λ l. Inv base l (before ++ after_chunk rs start n none ∷ after)) (sym stored)
          (stored-Inv (returned rs (record { rows = n; failed = true })) lt (omega arith)
            (omega arith) (omega (arith, few)) tt)
    round-Inv new (some k) lt (stored, e) =
        let held =
          All-at (Held rows) before after (running rs start n)
            (subst (All (Held rows)) at inv.held) in
        subst (λ l. Inv base l (before ++ after_chunk rs start n (some k) ∷ after)) (sym stored)
          (stored-Inv (running rs (start + max_rows_per_stmt) (n + k)) lt (omega (arith, e))
            (omega (arith, e)) (omega (arith, e)) (Held-chunk rs start rows lt held))

    pub finish-Inv :
        length rs ≤ start
        → Inv base rows (before ++ returned rs (record { rows = n; failed = false }) ∷ after)
    finish-Inv le =
        let held =
          All-at (Held rows) before after (running rs start n)
            (subst (All (Held rows)) at inv.held) in
        same-Inv (returned rs (record { rows = n; failed = false })) refl
          (subst (λ l. HasKeys (rows_of w l) rows) (take_of_length-le start rs le) held)
