-- ===== src/Bench/Report.antt =====
-- What the modes of the bench compute and report: bench/commands.go, with dbTotalRows and ms of
-- bench/main.go. The flags are values; a count that a flag gives is not negative.
use cryo_lab_telemetry.Prelude.{
  ℕ, zero, suc, ◌*◌, ◌+◌, ◌/◌, Text, text, text_eq, Option, none, some, List, [], ◌∷◌, take, ltb,
  length, if◌then◌else◌,
}
use cryo_lab_telemetry.Prelude.Int.{ℤ, pos, negsuc, sub_ℕ, eq_ℤ, wrap64, ◌+ℤ◌, ◌-ℤ◌}
use cryo_lab_telemetry.Values.{Time}
use cryo_lab_telemetry.Api.Http.{Body, metrics_response}
use cryo_lab_telemetry.Bench.Percentile.{Floats, pct}
use cryo_lab_telemetry.Bench.Load.{LatencyStats}

-- The float64 operations of the modes, beside those of a percentile.
pub record Arithmetic : Type 1 where
  pub floats : Floats
  -- float64(n)
  pub of_int64 : ℤ → floats.Float
  pub half : floats.Float
  pub add : floats.Float → floats.Float → floats.Float
  -- int64(x), which is int(x)
  pub truncate : floats.Float → ℤ
  -- d.Seconds()
  pub seconds : ℤ → floats.Float

-- d.Microseconds(), for nanoseconds
pub microseconds : ℤ → ℤ
microseconds (pos d) = pos (d / 1000)
microseconds (negsuc d) = sub_ℕ 0 (suc d / 1000)

-- what the scrape of /metrics comes to
pub data Scraped : Type 0 where
  -- client.Get returns an error
  unreachable : Scraped
  -- the response has no JSON that decodes
  unreadable : Scraped
  -- the response has this body
  answered : Body → Scraped

-- dbTotalRows; a body without the field leaves 0
unfoldable pub db_total_rows : Scraped → ℤ
db_total_rows unreachable = negsuc 0
db_total_rows unreadable = negsuc 0
db_total_rows (answered (metrics_response m)) = pos m.total_rows_in_db
db_total_rows (answered _) = pos 0

-- an entry of the tokens file
pub record TokenEntry : Type 0 where
  pub source : Text
  pub token : Text

-- The producers that a file of tokens gives; `none` where there are too few, and the bench exits.
pub chosen_producers : ℕ → List TokenEntry → Option (List TokenEntry)
chosen_producers n toks = if ltb (length toks) n then none else some (take n toks)

-- What `main` runs, for os.Args[1:]; the other cases exit with the code 2.
pub data Command : Type 0 where
  ingest_mode producers_mode read_mode : List Text → Command
  usage : Command
  unknown : Text → Command

pub command : List Text → Command
command [] = usage
command (mode ∷ args) =
    if text_eq mode (text "ingest")
    then ingest_mode args
    else if text_eq mode (text "producers")
    then producers_mode args
    else if text_eq mode (text "read")
    then read_mode args
    else unknown mode

module _ (a : Arithmetic) where
  open a use {floats, of_int64, half, add, truncate, seconds}
  open floats use {Float, mul, div}

  -- ms
  pub ms : ℤ → Float
  ms d = div (of_int64 (microseconds d)) (of_int64 (pos 1000))

  -- the loop of `round`
  power : ℕ → Float → Float
  power zero p = p
  power (suc places) p = power places (mul p (of_int64 (pos 10)))

  pub round : Float → ℕ → Float
  round x places =
      let p = power places (of_int64 (pos 1)) in div (of_int64 (truncate (add (mul x p) half))) p

  pub ratio : ℤ → ℤ → Float
  ratio n m = if eq_ℤ m (pos 0) then of_int64 (pos 0) else round (div (of_int64 n) (of_int64 m)) 4

  -- an int that is raised to 1
  abbrev pub at_least_one : ℤ → ℕ
  at_least_one (pos zero) = 1
  at_least_one (pos (suc n)) = suc n
  at_least_one (negsuc n) = 1

  -- the requests per second, for `rate` readings per second
  pub request_rate : Float → ℕ → Float
  request_rate rate batch = div rate (of_int64 (pos batch))

  -- how many requests a producer sends
  pub total_requests : Float → ℕ → Float → ℕ
  total_requests rate batch duration =
      at_least_one (truncate (mul (request_rate rate batch) duration))

  -- when `runLoad` schedules its request `i`
  pub scheduled_at : Time → Float → ℕ → Time
  scheduled_at start rate i =
      start +ℤ truncate (mul (div (of_int64 (pos i)) rate) (of_int64 (pos 1_000_000_000)))

  -- The results of cmdIngest; the mode is left out.
  pub record IngestReport : Type 0 where
    pub target_readings_per_s : Float
    pub batch : ℕ
    pub requests_sent : ℕ
    pub readings_sent : ℤ
    pub ok : ℕ
    pub errors : ℕ
    pub error_rate : Float
    pub wall_s : Float
    pub achieved_req_per_s : Float
    pub achieved_readings_per_s : Float
    pub p50_ms : Float
    pub p99_ms : Float
    pub max_ms : Float
    pub db_rows_delta : ℤ

  -- a percentile as it is reported
  abbrev pub shown_ms : LatencyStats → ℕ → Float
  shown_ms stats p = round (ms (pct floats stats.samples (of_int64 (pos p)))) 1

  -- The end of cmdIngest, for what was sent, what `runLoad` returned, and the two scrapes.
  unfoldable pub ingest_report : Float → ℕ → ℕ → ℤ → LatencyStats → Scraped → Scraped → IngestReport
  ingest_report rate batch total_req wall stats before after =
      let sent = wrap64 (pos (total_req * batch)) in
      record {
        target_readings_per_s = rate;
        batch = batch;
        requests_sent = total_req;
        readings_sent = sent;
        ok = stats.ok;
        errors = stats.errs;
        error_rate = ratio (pos stats.errs) (pos total_req);
        wall_s = round (seconds wall) 2;
        achieved_req_per_s = round (div (of_int64 (pos total_req)) (seconds wall)) 1;
        achieved_readings_per_s = round (div (of_int64 sent) (seconds wall)) 1;
        p50_ms = shown_ms stats 50;
        p99_ms = shown_ms stats 99;
        max_ms = shown_ms stats 100;
        db_rows_delta = db_total_rows after -ℤ db_total_rows before;
      }

  -- The results of cmdProducers.
  pub record ProducersReport : Type 0 where
    pub producers : ℕ
    pub rate_per_producer : Float
    pub batch : ℕ
    pub readings_sent : ℤ
    pub ok : ℕ
    pub errors : ℕ
    pub error_rate : Float
    pub wall_s : Float
    pub aggregate_readings_per_s : Float
    pub p50_ms : Float
    pub p99_ms : Float
    pub max_ms : Float
    pub db_rows_delta : ℤ

  -- The end of cmdProducers, for the merged statistics.
  pub producers_report : Float → ℕ → ℕ → ℕ → ℤ → LatencyStats → Scraped → Scraped → ProducersReport
  producers_report rate n batch total_req_per wall merged before after =
      let sent = wrap64 (pos (n * total_req_per * batch)) in
      record {
        producers = n;
        rate_per_producer = rate;
        batch = batch;
        readings_sent = sent;
        ok = merged.ok;
        errors = merged.errs;
        error_rate = ratio (pos merged.errs) (pos (merged.ok + merged.errs));
        wall_s = round (seconds wall) 2;
        aggregate_readings_per_s = round (div (of_int64 sent) (seconds wall)) 1;
        p50_ms = shown_ms merged 50;
        p99_ms = shown_ms merged 99;
        max_ms = shown_ms merged 100;
        db_rows_delta = db_total_rows after -ℤ db_total_rows before;
      }

  -- The results of cmdRead.
  pub record ReadReport : Type 0 where
    pub clients : ℕ
    pub requests : ℕ
    pub ok : ℕ
    pub errors : ℕ
    pub error_rate : Float
    pub achieved_req_per_s : Float
    pub p50_ms : Float
    pub p99_ms : Float
    pub max_ms : Float

  -- The end of cmdRead.
  pub read_report : ℕ → ℕ → ℤ → LatencyStats → ReadReport
  read_report clients reqs wall stats = record {
    clients = clients;
    requests = reqs;
    ok = stats.ok;
    errors = stats.errs;
    error_rate = ratio (pos stats.errs) (pos reqs);
    achieved_req_per_s = round (div (of_int64 (pos reqs)) (seconds wall)) 1;
    p50_ms = shown_ms stats 50;
    p99_ms = shown_ms stats 99;
    max_ms = shown_ms stats 100;
  }
