-- ===== src/Tests/Router.antt =====
-- The routed server at concrete inputs.
use mathlib.Core.List.{Memᴰ}
use cryo_lab_telemetry.Prelude.{
  ℕ, ◌≡◌, ◌⊎◌, inl, inr, refl, sym, ap, ◌∙◌, Text, text, text_eq, text_eq_iff, lookup, Option, none,
  some, List, [], ◌∷◌, All, length, ◌&&◌, Bool-cases, if◌then◌else◌, ◌==◌, arith,
}
use cryo_lab_telemetry.Prelude.Int.{ℤ, pos, ◌<ℤ◌, ◌+ℤ◌, +ℤ_parts}
use cryo_lab_telemetry.Values.{Time, second, is_finite, float_lt}
use cryo_lab_telemetry.Store.Data.{Row, Channel, Reading, insert_rows, insert_row, has_key}
use cryo_lab_telemetry.Store.World.{to_row, argument, bound_row, bound_rows}
use cryo_lab_telemetry.Store.Reads.{Reads, channels, collect_channels, IsLatest, IsLastSeen}
use cryo_lab_telemetry.Api.Http.{
  Decoded, decoded, malformed, metrics_response, channels_response, write_json, MetricsResponse,
}
use cryo_lab_telemetry.Store.Insert.{
  insert_readings, insert_loop, insert_chunk, chunk_end, placeholders, arguments,
}
use cryo_lab_telemetry.Api.Ingest.{
  ingest, handle_ingest, ingest_batch, respond, accepted, validate_from, validate_reading,
}
use cryo_lab_telemetry.Auth.{source_for_token, match_token, constant_time_compare}
use cryo_lab_telemetry.Alert.{evaluate, transition, alarm}
use cryo_lab_telemetry.Alert.Firing.{check, check_reading, handle_transition}
use cryo_lab_telemetry.Alert.Firing.Frame.{check-SameData}
use cryo_lab_telemetry.Api.Ops.{handle_metrics, handle_channels}
use cryo_lab_telemetry.Api.Ops.Telemetry.{Totals, Entry, metrics_lem}
use cryo_lab_telemetry.Api.Router.{
  Found, matched, not_found, Route, Mux, Request, Setup, serve, routed, dispatch, routes,
}
use cryo_lab_telemetry.Api.Router.Effect.{Effect, serve-Effect}
use cryo_lab_telemetry.Api.Router.Histories.{
  History, begin, request, HasAdmin, Grown, History-Grown, History-config,
}
use cryo_lab_telemetry.Api.Router.ReadBack.{IsSeen, ingest_batch-handle_channels}
use cryo_lab_telemetry.Metrics.{new}
use cryo_lab_telemetry.Tests.Memory.{
  Mem, memory, tables_of, formats, lab, temp, start, sample, server, stamp_of,
}
use cryo_lab_telemetry.Tests.Jwt.{one_token, manager}

-- Queries that answer where there is one reading at most.
abbrev pub latest_of : List Row → Option (List Row)
latest_of [] = some []
latest_of (r ∷ []) = some (r ∷ [])
latest_of _ = none

abbrev pub last_seen_of : List Row → Option (List (Text × ℤ))
last_seen_of [] = some []
last_seen_of (r ∷ []) = some ((r.source, r.stamp) ∷ [])
last_seen_of _ = none

same_rows : {A : Type 0} (x y : List A) → some x ≡ some y → x ≡ y
same_rows x y e = cc

only_one : {A : Type 0} (x y : A) → Memᴰ x (y ∷ []) → x ≡ y
only_one x y (Memᴰ.head e) = e
only_one x y (Memᴰ.tail i) = elim i [ ]

pub latest_of-IsLatest : (rows l : List Row) → latest_of rows ≡ some l → IsLatest rows l
latest_of-IsLatest [] l h =
    rw (← same_rows [] l h)
      (record { stored = λ x i. i; newest = λ r i. elim i [ ]; one_each = λ x y i j e. elim i [ ] })
latest_of-IsLatest (r ∷ []) l h = rw (← same_rows (r ∷ []) l h) (record {
  stored = λ x i. i;
  newest = λ x i. (x, i, (refl, refl), omega arith);
  one_each = λ x y i j e. only_one x r i ∙ sym (only_one y r j);
})
latest_of-IsLatest (r ∷ x ∷ rows) l h = cc

pub last_seen_of-IsLastSeen :
    (rows : List Row) (l : List (Text × ℤ)) → last_seen_of rows ≡ some l → IsLastSeen rows l
last_seen_of-IsLastSeen [] l h = rw (← same_rows [] l h) (record {
  reached = λ source m i. elim i [ ];
  every = λ r i. elim i [ ];
  one_each = λ source m n i j. elim i [ ];
})
last_seen_of-IsLastSeen (r ∷ []) l h = rw (← same_rows ((r.source, r.stamp) ∷ []) l h) (record {
  reached = λ source m i.
      let e = only_one (source, m) (r.source, r.stamp) i in
      (r, Memᴰ.head refl, sym (ap (λ (p : Text × ℤ). p.0) e), sym (ap (λ (p : Text × ℤ). p.1) e));
  every = λ x i.
      let e = only_one x r i in
      (x.stamp, Memᴰ.head (ap (λ (y : Row). (y.source, y.stamp)) e), omega arith);
  one_each = λ source m n i j.
      ap (λ (p : Text × ℤ). p.1) (only_one (source, m) (r.source, r.stamp) i)
      ∙ sym (ap (λ (p : Text × ℤ). p.1) (only_one (source, n) (r.source, r.stamp) j));
})
last_seen_of-IsLastSeen (r ∷ x ∷ rows) l h = cc

pub counted_law : (m n : ℕ) → some m ≡ some n → n ≡ m
counted_law m n h = cc

pub below : (t : Time) → t <ℤ t +ℤ pos 1000
below t = omega (arith, +ℤ_parts t (pos 1000))

abbrev pub memory_reads : Reads memory
memory_reads = record {
  instant = λ t. t;
  instant_mono = λ a b h. h;
  instant_law = λ t h. (below t, below t);
  ping = λ m. (some tt, m);
  select_channels = λ m. (latest_of m.readings, m);
  select_last_seen = λ m. (last_seen_of m.readings, m);
  select_count = λ m. (some (length m.readings), m);
  series = record {
    raw = λ step source metric from to m. (none, m);
    rollup = λ view step source metric from to m. (none, m);
  };
  ping_keeps = λ m. refl;
  channels_keeps = λ m. refl;
  last_seen_keeps = λ m. refl;
  count_keeps = λ m. refl;
  raw_keeps = λ step source metric from to m. refl;
  rollup_keeps = λ view step source metric from to m. refl;
  channels_law = λ m l h. latest_of-IsLatest m.readings l h;
  last_seen_law = λ m l h. last_seen_of-IsLastSeen m.readings l h;
  count_law = λ m n h. counted_law (length m.readings) n h;
}

-- A router that looks for the first route with the method and the path.
abbrev pub find_route : {E : Type 0} → List (Route E) → Text → Text → Found E
find_route [] method path = not_found
find_route (r ∷ rs) method path =
    if text_eq r.method method && text_eq r.path path
    then matched r.handler
    else find_route rs method path

pub find_route-Memᴰ :
    {E : Type 0} (rs : List (Route E)) (method path : Text) (x : E)
    → find_route rs method path ≡ matched x
    → Memᴰ (record { method = method; path = path; handler = x }) rs
find_route-Memᴰ [] method path x h = absurd (unmatched h)
  where
    unmatched : not_found ≡ matched x → ⊥
    unmatched e = cc
find_route-Memᴰ (r ∷ rs) method path x h =
    elim (Bool-cases (text_eq r.method method && text_eq r.path path)) [
      | inl same ↦
          let m : r.method ≡ method = ground (arith, text_eq_iff r.method method) in
          let p : r.path ≡ path = ground (arith, text_eq_iff r.path path) in
          let found : r.handler ≡ x = handlers r.handler x (rw same at h) in
          Memᴰ.head (λ i. record { method = sym m i; path = sym p i; handler = sym found i })
      | inr other ↦ Memᴰ.tail (find_route-Memᴰ rs method path x (rw other at h))
    ]
  where
    handlers : {E : Type 0} (a b : E) → matched a ≡ matched b → a ≡ b
    handlers a b e = cc

abbrev pub first_match : Mux
first_match = record {
  find = λ {E} rs method path. find_route rs method path;
  matched_law = λ {E} rs method path x h. find_route-Memᴰ rs method path x h;
}

-- A body that starts with "[" is one sample; any other is malformed.
abbrev pub read_batch : Text → Decoded (List Reading)
read_batch [] = malformed []
read_batch (c ∷ t) = if c == b'[' then decoded (sample 1 20 ∷ []) else malformed []

abbrev pub setup : Setup
setup = record {
  world = memory;
  reads = memory_reads;
  formats = formats;
  jwt_library = one_token;
  jwt = manager;
  clock = record { whole_seconds = λ d. d; rfc3339_utc = λ t. [] };
  csv = record { rfc3339_utc = λ t. []; float_g = λ v. [] };
  parse_rfc3339 = λ t. none;
  decode_readings = read_batch;
  decode_login = λ t. malformed [];
  decode_config = λ t. malformed [];
  mux = first_match;
}

abbrev pub post : Request
post = record {
  method = text "POST";
  path = text "/ingest";
  api_key = text "secret";
  authorization = [];
  query = record { source = []; metric = []; from = []; to = []; step = [] };
  body = text "[]";
}

serve-Effect_example : Effect setup post server start (serve setup post server start)
unfolding new
serve-Effect_example = serve-Effect setup post server start tt

abbrev pub after_post :
    History setup server start
      (serve setup post server start).server
      (serve setup post server start).world
after_post = request begin post

History-Grown_example :
    Grown server
      (tables_of start)
      (serve setup post server start).server
      (tables_of (serve setup post server start).world)
unfolding new
History-Grown_example =
    History-Grown setup server start tt tt (serve setup post server start).server
      (serve setup post server start).world after_post

History-config_example :
    let u = tables_of (serve setup post server start).world in
    ((u.config ≡ (tables_of start).config) × (u.thresholds ≡ (tables_of start).thresholds))
    ⊎ HasAdmin setup server start
        (serve setup post server start).server
        (serve setup post server start).world
        after_post
unfolding new
History-config_example =
    History-config setup server start tt tt (serve setup post server start).server
      (serve setup post server start).world after_post

-- with one sample stored
abbrev pub stocked : Mem
stocked = record start { readings = to_row stamp_of (sample 1 20) ∷ [] }

metrics_lem_example :
    (resp : MetricsResponse) × ((handle_metrics memory memory_reads setup.clock server stocked).0
      ≡ write_json 200 (metrics_response resp))
    × (tables_of (handle_metrics memory memory_reads setup.clock server stocked).1
        ≡ tables_of stocked)
    × (resp.rows_ingested_since_start ≡ server.metrics.total)
    × Totals memory memory_reads stocked resp
    × ((src : Text) → Entry memory memory_reads stocked server resp src)
unfolding new
metrics_lem_example = metrics_lem memory memory_reads setup.clock server stocked tt

abbrev one_sample : List Reading
one_sample = sample 1 20 ∷ []

sample-stored : (ingest_batch memory formats server lab one_sample start).response.status ≡ 200
unfolding ingest_batch respond accepted validate_from validate_reading text_eq is_finite
    insert_readings insert_loop insert_chunk chunk_end placeholders arguments argument bound_row
    bound_rows
sample-stored = refl

abbrev pub sample_channel : Channel
sample_channel = record {
  source = lab;
  metric = temp;
  last_ts = pos second;
  last_value = (sample 1 20).value;
}

pub sample-read :
    (handle_channels memory memory_reads stocked).0
    ≡ write_json 200 (channels_response (sample_channel ∷ []))
unfolding handle_channels channels collect_channels
sample-read = refl

sample-kept :
    stocked.readings
    ≡ (tables_of (ingest_batch memory formats server lab one_sample start).world).readings
unfolding ingest_batch respond accepted validate_from validate_reading text_eq is_finite
    insert_readings insert_loop insert_chunk chunk_end placeholders arguments argument bound_row
    bound_rows insert_rows insert_row has_key
sample-kept = sym (check-SameData memory formats server.alerter one_sample stocked).readings

ingest_batch-handle_channels_example :
    All (IsSeen memory memory_reads lab (sample_channel ∷ [])) one_sample
ingest_batch-handle_channels_example =
    ingest_batch-handle_channels memory memory_reads formats server lab one_sample start stocked
      (sample_channel ∷ []) ((omega arith, omega arith), tt) sample-stored sample-kept sample-read

-- The reading of the request is stored.
pub post-stocked : tables_of stocked ≡ tables_of (serve setup post server start).world
unfolding serve routed dispatch routes ingest handle_ingest ingest_batch respond accepted
    source_for_token match_token constant_time_compare validate_from validate_reading text_eq
    is_finite insert_readings insert_loop insert_chunk chunk_end placeholders arguments argument
    bound_row bound_rows insert_rows insert_row has_key check check_reading handle_transition lookup
    evaluate transition alarm float_lt
post-stocked = refl
