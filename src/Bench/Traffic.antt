-- ===== src/Bench/Traffic.antt =====
-- The ingest mode of the bench against the server: the closures of makeBatch (bench/main.go)
-- that the workers of runLoad call, and POST /ingest that handles what they send. The workers
-- share the counter `seq`; their steps come in any order, and so do the requests at the server.
-- JSON is left out: the server gets the readings that were sent.
pub mod Numbers
pub mod Stored
pub mod Owned
pub mod Landed
pub mod Delta
use cryo_lab_telemetry.Prelude.{
  ℕ, zero, suc, ◌+◌, ◌<◌, ◌≡◌, Text, true, Option, some, List, [], ◌∷◌, ◌++◌, map, length,
  if◌then◌else◌, Bool,
}
use cryo_lab_telemetry.Values.{Float64}
use cryo_lab_telemetry.Store.Data.{Reading, Tables}
use cryo_lab_telemetry.Store.World.{World}
use cryo_lab_telemetry.Alert.Firing.{Formats}
use cryo_lab_telemetry.Api.Http.{decoded, Server, Handled}
use cryo_lab_telemetry.Api.Ingest.{ingest}
use cryo_lab_telemetry.Api.Ingest.Kept.{SameServer}
use cryo_lab_telemetry.Bench.Batch.{Producer, reading_at, has_failed}

-- What the workers share, and the server. Of each worker there are the numbers of the batch that it
-- makes, in their order; `ok` and `errs` count what `send` has returned. `late` has the batches of the
-- requests that the client has given up, and that the server may still get; [] is one that it got.
pub record Traffic (S : Type 0) : Type 0 where
  pub seq : ℕ
  pub batches : List (List ℕ)
  pub late : List (List ℕ)
  pub ok : ℕ
  pub errs : ℕ
  pub server : Server
  pub world : S

-- before any worker starts
abbrev pub no_batches : ℕ → List (List ℕ)
no_batches zero = []
no_batches (suc c) = [] ∷ no_batches c

abbrev pub start_traffic : {S : Type 0} → ℕ → ℕ → Server → S → Traffic S
start_traffic concurrency seq server world = record {
  seq = seq;
  batches = no_batches concurrency;
  late = [];
  ok = 0;
  errs = 0;
  server = server;
  world = world;
}

-- the batch of a call of `send`
abbrev pub batch_of : (ℕ → Float64) → Producer → List ℕ → List Reading
batch_of float p ns = map (reading_at float p) ns

-- One step, where `n` readings make a batch, and `token` is in the header.
module _ (w : World) (f : Formats) (float : ℕ → Float64) (p : Producer) (token : Text) (n : ℕ) where
  open w use {State, tables}

  -- what the server makes of a batch
  abbrev pub posted : List ℕ → Traffic State → Handled State
  posted ns t = ingest w f t.server token (decoded (batch_of float p ns)) t.world

  -- the status of the response
  abbrev pub status_of : Handled State → Option ℕ
  status_of h = some h.response.status

  -- the counters behind a call of `send`
  abbrev pub noted : Bool → List (List ℕ) → Traffic State → Traffic State
  noted failed batches t = record t {
    batches = batches;
    ok = if failed then t.ok else t.ok + 1;
    errs = if failed then t.errs + 1 else t.errs;
  }

  abbrev pub handled_by : Handled State → Traffic State → Traffic State
  handled_by h t = record t { server = h.server; world = h.world }

  pub data Step (t u : Traffic State) : Type 0 where
    -- s := atomic.AddInt64(&seq, 1), for the next reading of a batch
    number :
        (before after : List (List ℕ)) (ns : List ℕ)
        → t.batches ≡ before ++ ns ∷ after
        → length ns < n
        → u ≡ record t { seq = suc t.seq; batches = before ++ (ns ++ suc t.seq ∷ []) ∷ after }
        → Step t u
    -- a request that is handled and whose response arrives
    answered :
        (before after : List (List ℕ)) (ns : List ℕ)
        → t.batches ≡ before ++ ns ∷ after
        → length ns ≡ n
        → u
          ≡ handled_by
              (posted ns t)
              (noted (has_failed (status_of (posted ns t))) (before ++ [] ∷ after) t)
        → Step t u
    -- client.Do returns an error, such as that of its timeout, before any response
    given_up :
        (before after : List (List ℕ)) (ns : List ℕ)
        → t.batches ≡ before ++ ns ∷ after
        → length ns ≡ n
        → u ≡ record (noted true (before ++ [] ∷ after) t) { late = ns ∷ t.late }
        → Step t u
    -- the server handles a request that was given up; of those that it never gets there is no such
    -- step
    handled_late :
        (before after : List (List ℕ)) (ns : List ℕ)
        → t.late ≡ before ++ ns ∷ after
        → u ≡ record (handled_by (posted ns t) t) { late = before ++ [] ∷ after }
        → Step t u
    -- whatever else goes on at the server, without a new reading
    elsewhere :
        (srv : Server) (s : State)
        → SameServer t.server srv
        → (tables s).readings ≡ (tables t.world).readings
        → u ≡ record t { server = srv; world = s }
        → Step t u

  -- A run, from the start on.
  pub data Run (start : Traffic State) : Traffic State → Type 0 where
    begin : Run start start
    next : {t u : Traffic State} → Run start t → Step t u → Run start u
