-- ===== src/Gateway/Handlers.antt =====
-- mlx-gateway/server.mjs: what happens to the queue. JSON is that of the runtime: `parse` gives what
-- the code reads of a chunk, `read_metrics` what it reads of a whole answer, and `record_text` is the
-- JSON of a record.
use swiftlm_platform.Base.{
  Bytes, ℕ, ◌+◌, ◌*◌, Bool, true, false, not, ◌&&◌, ◌||◌, Option, none, some, List, [], ◌∷◌, ◌++◌,
  Text, codes, ◌==◌, is_empty, leb, ltb, eqb, filter, if◌then◌else◌,
}
use swiftlm_platform.Store.{coalesce}
use swiftlm_platform.Collector.{Usage}
use swiftlm_platform.Providers.{Headers}
use swiftlm_platform.Sse.{sse_data, feed}
use swiftlm_platform.Stream.{Chunk}
use swiftlm_platform.Gateway.{
  Response, Job, Event, completed, failed, cancelled, first_token, JobRecord, Gateway, find_job,
  with_job, log_event, enqueue, finish_job,
}

pub record JsonMetrics : Type 0 where
  pub prompt_tokens : Option ℕ
  pub completion_tokens : Option ℕ
  pub throughput : Option ℕ

pub record Json : Type 0 where
  pub parse : Text → Option Chunk
  pub read_metrics : Text → Option JsonMetrics
  pub record_text : JobRecord → Text

-- Chunks of the answer, each a text and its number of bytes.
pub data Input : Type 0 where
  arrives : ℕ → Job → Input
  responds : Text → ℕ → Bool → Input
  receives : ℕ → Text → Text → ℕ → Input
  ends : ℕ → Text → Input
  breaks : ℕ → Text → Text → Input
  fails : ℕ → Text → Text → Input
  closes : ℕ → Text → Input

-- The body of an answer whose connection is still there.
abbrev pub write : Text → Response → Response
write t r = if r.destroyed then r else record r { written = r.written ++ (t ∷ []) }

abbrev write_head : ℕ → Response → Response
write_head status r = elim r.head [
  | some sent ↦ r
  | none ↦ if r.destroyed then r else record r { head = some status }
]

abbrev pub end_response : Response → Response
end_response r = if r.destroyed then r else record r { ended = true }

-- `upstreamResponse.statusCode || 502`
abbrev status_or : ℕ → ℕ
status_or status = if eqb status 0 then 502 else status

abbrev on_response : ℕ → Bool → Job → Job
on_response status is_sse j = record j {
  status_code = some (status_or status);
  is_sse = is_sse;
  response = write_head (status_or status) j.response;
}

abbrev counted : ℕ → Chunk → Job → Job
counted now c j = if is_empty c.delta then j else record j {
  first_token_at = coalesce j.first_token_at (some now);
  output_chunks = j.output_chunks + 1;
}

abbrev with_usage : Option Usage → Job → Job
with_usage none j = j
with_usage (some u) j = record j {
  prompt_tokens = coalesce u.prompt_tokens j.prompt_tokens;
  completion_tokens = coalesce u.completion_tokens j.completion_tokens;
}

abbrev read_chunk : ℕ → Option Chunk → Job → Job
read_chunk now none j = j
read_chunk now (some c) j = with_usage c.usage (counted now c j)

abbrev pub read_event : Json → ℕ → Text → Job → Job
read_event k now event j =
    if is_empty (sse_data event) || (sse_data event == codes "[DONE]")
    then j
    else read_chunk now (k.parse (sse_data event)) j

unfoldable pub read_events : Json → ℕ → List Text → Job → Job
read_events k now [] j = j
read_events k now (e ∷ es) j = read_events k now es (read_event k now e j)

unfoldable pub parse_sse : Json → ℕ → Text → Job → Job
parse_sse k now text j =
    let (events, rest) = feed j.sse_buffer text in
    read_events k now events (record j { sse_buffer = rest })

abbrev pub max_metric_bytes : ℕ
max_metric_bytes = 2 * 1024 * 1024

abbrev keep_bytes : Text → ℕ → Job → Job
keep_bytes text bytes j =
    if ltb j.response_metric_bytes max_metric_bytes
    then record j {
      response_metrics = j.response_metrics ++ text;
      response_metric_bytes = j.response_metric_bytes + bytes;
    }
    else j

-- The chunk is read, and passed on as it came.
unfoldable pub on_data : Json → ℕ → Text → ℕ → Job → Job
on_data k now text bytes j =
    let read = if j.is_sse then parse_sse k now text j else keep_bytes text bytes j in
    record read { response = write text j.response }

abbrev with_metrics : Option JsonMetrics → Job → Job
with_metrics none j = j
with_metrics (some m) j = record j {
  prompt_tokens = m.prompt_tokens;
  completion_tokens = m.completion_tokens;
  upstream_throughput = m.throughput;
}

abbrev pub parse_json_metrics : Json → Job → Job
parse_json_metrics k j =
    if j.is_sse || is_empty j.response_metrics
    then j
    else with_metrics (k.read_metrics j.response_metrics) j

abbrev outcome : Option ℕ → Event
outcome none = failed
outcome (some status) = if leb 200 status && ltb status 400 then completed else failed

abbrev header : Headers → Text → Text
header [] name = []
header ((k, v) ∷ hs) name = if k == name then v else header hs name

abbrev pub wants_metrics : Job → Bool
wants_metrics j = j.is_sse && (header j.headers (codes "x-mlx-include-metrics") == codes "1")

-- The event that only the dashboard asks for.
abbrev pub metrics_event : Json → JobRecord → Text
metrics_event k r = codes "event: mlx-metrics\ndata: " ++ (k.record_text r ++ codes "\n\n")

abbrev pub after_end : Json → Option JobRecord → Job → Job
after_end k none j = record j { response = end_response j.response }
after_end k (some r) j =
    if wants_metrics j && not j.response.ended
    then record j { response = end_response (write (metrics_event k r) j.response) }
    else record j { response = end_response j.response }

abbrev pub event_of : Option Job → Event
event_of none = failed
event_of (some j) = outcome j.status_code

abbrev ended : Json → Text → Gateway × Option JobRecord → Gateway
ended k id (s, r) = with_job id (after_end k r) s

-- The message stands for the JSON that `writeJson` writes.
abbrev pub unavailable : Job → Job
unavailable j = elim j.response.head [
  | some sent ↦ record j { response = end_response j.response }
  | none ↦ record j {
    response =
        end_response (write (codes "SwiftLM upstream unavailable") (write_head 502 j.response));
  }
]

-- `response.writableEnded || job.finished`
abbrev pub settled : Option Job → Bool
settled none = true
settled (some j) = j.response.ended || j.finished

abbrev pub gone : Job → Job
gone j = record j { response = record j.response { destroyed = true } }

abbrev cancel : ℕ → ℕ → Text → Gateway → Gateway
cancel limit now id s =
    (finish_job limit now id cancelled 499 none (
      with_job id (λ j. record j { cancelled = true })
        (record s { queue = filter (λ i. not (i == id)) s.queue }))).0

abbrev pub has_token : Option Job → Bool
has_token none = false
has_token (some j) = elim j.first_token_at [ none ↦ false | some t ↦ true ]

-- The line about a job's first token.
abbrev pub noted : Text → Bool → Gateway → Gateway
noted id before s =
    if not before && has_token (find_job id s.jobs) then log_event id first_token 0 0 s else s

-- One callback. `breaks` is an error of the answer and `fails` one of the request; what `breaks`
-- reports changes nothing for the client.
unfoldable pub step : ℕ → Json → Input → Gateway → Gateway
unfolding parse_sse
step limit k (arrives now j) s = enqueue limit now j s
step limit k (responds id status is_sse) s = with_job id (on_response status is_sse) s
step limit k (receives now id text bytes) s =
    noted id (has_token (find_job id s.jobs)) (with_job id (on_data k now text bytes) s)
step limit k (ends now id) s =
    let s₁ = with_job id (parse_json_metrics k) s in
    ended k id (finish_job limit now id (event_of (find_job id s₁.jobs)) 502 none s₁)
step limit k (breaks now id message) s = (finish_job limit now id failed 502 (some message) s).0
step limit k (fails now id message) s =
    (finish_job limit now id failed 502 (some message) (with_job id unavailable s)).0
step limit k (closes now id) s =
    if settled (find_job id s.jobs)
    then with_job id gone s
    else cancel limit now id (with_job id gone s)

abbrev pub run : ℕ → Json → List Input → Gateway → Gateway
run limit k [] s = s
run limit k (i ∷ is) s = run limit k is (step limit k i s)

abbrev pub empty : Gateway
empty = record { jobs = []; queue = []; running = []; recent = []; log = [] }

-- A job as the server makes it of a request.
unfoldable pub new_job : Text → Text → Text → Text → Headers → Bytes → ℕ → Job
new_job id method path upstream_path headers body now = record {
  id = id;
  method = method;
  path = path;
  upstream_path = upstream_path;
  headers = headers;
  body = body;
  received_at = now;
  upstream_started_at = none;
  first_token_at = none;
  output_chunks = 0;
  prompt_tokens = none;
  completion_tokens = none;
  upstream_throughput = none;
  response_metrics = [];
  response_metric_bytes = 0;
  sse_buffer = [];
  status_code = none;
  is_sse = false;
  finished = false;
  cancelled = false;
  response = record { head = none; written = []; ended = false; destroyed = false };
}
