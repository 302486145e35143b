-- ===== src/Bench/Traffic/Owned.antt =====
-- The numbers that the workers hold while they send, and the rows that are stored meanwhile.
use cryo_lab_telemetry.Prelude.{
  ℕ, zero, suc, ◌+◌, ◌≤◌, ◌<◌, ◌≡◌, refl, inl, inr, Text, List, [], ◌∷◌, ◌++◌, length, take, false,
  arith, Bool-cases, ◌==◌,
}
use cryo_lab_telemetry.Prelude.Weights.{weigh, weigh-move}
use cryo_lab_telemetry.Values.{Float64}
use cryo_lab_telemetry.Store.Data.{Row, has_key, insert_rows}
use cryo_lab_telemetry.Store.World.{World}
use cryo_lab_telemetry.Store.Insert.Rows.{length-insert_rows}
use cryo_lab_telemetry.Bench.Load.Counts.{occurs}
use cryo_lab_telemetry.Bench.Batch.{Producer}
use cryo_lab_telemetry.Bench.Traffic.{no_batches}
use cryo_lab_telemetry.Bench.Traffic.Numbers.{
  occurs-append, occurs-take, KeepsMicros, row, rows, insert_rows-free, new_rows-free,
}

weigh-no_batches : (k c : ℕ) → weigh (occurs k) (no_batches c) ≡ 0
weigh-no_batches k zero = refl
weigh-no_batches k (suc c) = omega (arith, weigh-no_batches k c)

module _ (w : World) (float : ℕ → Float64) (p : Producer) (source : Text)
    (micros : KeepsMicros w) where
  open w use {State, tables}

  -- The reading with the number is not stored.
  abbrev pub IsFree : List Row → ℕ → Type 0
  IsFree old k = has_key (row w float p source k) old ≡ false

  -- Of the workers' numbers: each is held once at most, and none that is above the counter; those
  -- above the counter and those that are held are not stored.
  pub record Owned (seq : ℕ) (batches : List (List ℕ)) (old : List Row) : Type 0 where
    pub once : (k : ℕ) → weigh (occurs k) batches ≤ 1
    pub ahead : (k : ℕ) → seq < k → weigh (occurs k) batches ≡ 0
    pub free_ahead : (k : ℕ) → seq < k → IsFree old k
    pub free_held : (k : ℕ) → 1 ≤ weigh (occurs k) batches → IsFree old k

  pub start-Owned :
      (seq c : ℕ) (old : List Row)
      → ((k : ℕ) → seq < k → IsFree old k)
      → Owned seq (no_batches c) old
  start-Owned seq c old free = record {
    once = λ k. omega (arith, weigh-no_batches k c);
    ahead = λ k h. weigh-no_batches k c;
    free_ahead = free;
    free_held = λ k h. absurd (omega (arith, h, weigh-no_batches k c));
  }

  -- It matters how often a number is held, not where.
  pub Owned-same :
      (seq : ℕ) (batches others : List (List ℕ)) (old : List Row)
      → ((k : ℕ) → weigh (occurs k) others ≡ weigh (occurs k) batches)
      → Owned seq batches old
      → Owned seq others old
  Owned-same seq batches others old same own = record {
    once = λ k. omega (arith, same k, own.once k);
    ahead = λ k h. omega (arith, same k, own.ahead k h);
    free_ahead = own.free_ahead;
    free_held = λ k h. own.free_held k (omega (arith, same k, h));
  }

  module _ (seq : ℕ) (batches before after : List (List ℕ)) (ns : List ℕ) (old : List Row)
      (at : batches ≡ before ++ ns ∷ after) (own : Owned seq batches old) where
    -- a worker takes the next number
    pub number-Owned : Owned (suc seq) (before ++ (ns ++ suc seq ∷ []) ∷ after) old
    number-Owned =
        let moved =
          λ (k : ℕ). weigh-move (occurs k) batches before after ns (ns ++ suc seq ∷ []) at in
        let more = λ (k : ℕ). occurs-append k ns (suc seq ∷ []) in
        record {
          once = λ k. ground (arith, moved k, more k, own.once k, own.ahead k);
          ahead = λ k h. ground (arith, moved k, more k, own.ahead k);
          free_ahead = λ k h. own.free_ahead k (omega (arith, h));
          free_held = λ k h. elim (Bool-cases (k == suc seq)) [
            | inl same ↦ own.free_ahead k (ground (arith, same))
            | inr other ↦ own.free_held k (ground (arith, other, moved k, more k, h))
          ];
        }

    held : (k : ℕ) → occurs k ns ≤ weigh (occurs k) batches
    held k = omega (arith, weigh-move (occurs k) batches before after ns [] at)

    -- A worker is done with its batch, of which a first part is stored.
    pub sent-Owned :
        (m : ℕ)
        → Owned seq (before ++ [] ∷ after) (insert_rows (rows w float p source (take m ns)) old)
    sent-Owned m =
        let moved = λ (k : ℕ). weigh-move (occurs k) batches before after ns [] at in
        let kept = λ (k : ℕ) (none : occurs k ns ≡ 0).
          insert_rows-free w float p source micros k (take m ns) old
            (omega (arith, none, occurs-take k m ns)) in
        record {
          once = λ k. omega (arith, moved k, own.once k);
          ahead = λ k h. omega (arith, moved k, own.ahead k h);
          free_ahead = λ k h. kept k (omega (arith, moved k, own.ahead k h)) (own.free_ahead k h);
          free_held = λ k h.
              kept k (omega (arith, moved k, own.once k, h))
                (own.free_held k (omega (arith, moved k, h)));
        }

    -- A batch that is stored adds as many rows as it has readings.
    pub stored-length : length (insert_rows (rows w float p source ns) old) ≡ length ns + length old
    stored-length = omega (
      arith,
      length-insert_rows (rows w float p source ns) old,
      new_rows-free w float p source micros ns old (λ k. omega (arith, held k, own.once k))
          (λ k h. own.free_held k (omega (arith, held k, h))),
    )
