-- ===== src/Store/Insert/Interleaved.antt =====
-- Calls of `InsertReadings` that run at the same time: each step is one round of the loop of one of
-- them, or something else that the world does to other tables.
pub mod Rounds
pub mod Counted
pub mod Single
use cryo_lab_telemetry.Prelude.{
  ℕ, ◌+◌, ◌-◌, ◌≤◌, ◌<◌, ◌≡◌, Option, none, some, List, [], ◌∷◌, ◌++◌, Bool, true, false, take,
  drop, length,
}
use cryo_lab_telemetry.Store.Data.{Reading}
use cryo_lab_telemetry.Store.World.{World}
use cryo_lab_telemetry.Store.Insert.{Inserted, max_rows_per_stmt, insert_chunk, chunk_end}

-- A call: its batch, and where its loop stands or what it has returned.
pub data Call : Type 0 where
  running : List Reading → ℕ → ℕ → Call
  returned : List Reading → Inserted → Call

pub record Shared (S : Type 0) : Type 0 where
  pub world : S
  pub calls : List Call

abbrev pub called_all : List (List Reading) → List Call
called_all [] = []
called_all (rs ∷ batches) = running rs 0 0 ∷ called_all batches

-- what a round makes of a call, for the answer to the statement of its chunk
abbrev pub after_chunk : List Reading → ℕ → ℕ → Option ℕ → Call
after_chunk rs start n none = returned rs (record { rows = n; failed = true })
after_chunk rs start n (some k) = running rs (start + max_rows_per_stmt) (n + k)

module _ (w : World) where
  open w use {State, tables}

  abbrev pub chunk_answer : List Reading → ℕ → State → Option ℕ × State
  chunk_answer rs start s = insert_chunk w (take (chunk_end w start rs - start) (drop start rs)) s

  pub data Step (s t : Shared State) : Type 0 where
    round :
        (before after : List Call) (rs : List Reading) (start n : ℕ)
        → s.calls ≡ before ++ running rs start n ∷ after
        → start < length rs
        → t ≡ record {
          world = (chunk_answer rs start s.world).1;
          calls = before ++ after_chunk rs start n (chunk_answer rs start s.world).0 ∷ after;
        }
        → Step s t
    finish :
        (before after : List Call) (rs : List Reading) (start n : ℕ)
        → s.calls ≡ before ++ running rs start n ∷ after
        → length rs ≤ start
        → t
          ≡ record s { calls = before ++ returned rs (record { rows = n; failed = false }) ∷ after }
        → Step s t
    elsewhere :
        (world' : State)
        → (tables world').readings ≡ (tables s.world).readings
        → t ≡ record s { world = world' }
        → Step s t

  -- From the world `s0`, with a call for each batch.
  pub data Run (s0 : State) (batches : List (List Reading)) : Shared State → Type 0 where
    begin : Run s0 batches (record { world = s0; calls = called_all batches })
    next : {s t : Shared State} → Run s0 batches s → Step s t → Run s0 batches t
