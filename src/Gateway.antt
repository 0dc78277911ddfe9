-- ===== src/Gateway.antt =====
-- mlx-gateway/server.mjs: the queue of inference jobs in front of the local backend. The job objects,
-- which the queue, the map of running jobs and the callbacks share, stand in a store by their ids;
-- `queue` and `running` hold ids. Moments are arguments.
pub mod Handlers
pub mod Capacity
pub mod Progress
pub mod Placed
pub mod Records
pub mod Relayed
mod Tests
use swiftlm_platform.Base.{
  Bytes, ℕ, ◌+◌, ◌-◌, Bool, true, false, not, ◌&&◌, ◌||◌, Option, none, some, List, [], ◌∷◌, ◌++◌,
  Text, codes, ◌==◌, is_empty, leb, ltb, eqb, length, take, filter, find, update_where, slice_to,
  if◌then◌else◌,
}
use swiftlm_platform.Store.{coalesce}
use swiftlm_platform.Collector.{rounded_rate}
use swiftlm_platform.Providers.{Headers}

-- What the client's response has got: the status of its head, the pieces of its body, whether the
-- code has ended it, and whether its connection is gone.
pub record Response : Type 0 where
  pub head : Option ℕ
  pub written : List Text
  pub ended : Bool
  pub destroyed : Bool

-- Throughputs are counted in thousandths.
pub record Job : Type 0 where
  pub id : Text
  pub method : Text
  pub path : Text
  pub upstream_path : Text
  pub headers : Headers
  pub body : Bytes
  pub received_at : ℕ
  pub upstream_started_at : Option ℕ
  pub first_token_at : Option ℕ
  pub output_chunks : ℕ
  pub prompt_tokens : Option ℕ
  pub completion_tokens : Option ℕ
  pub upstream_throughput : Option ℕ
  pub response_metrics : Text
  pub response_metric_bytes : ℕ
  pub sse_buffer : Text
  pub status_code : Option ℕ
  pub is_sse : Bool
  pub finished : Bool
  pub cancelled : Bool
  pub response : Response

pub data Event : Type 0 where
  queued started first_token completed failed cancelled : Event

-- The record of a job that is over, in the log and among the recent ones.
pub record JobRecord : Type 0 where
  pub request_id : Text
  pub event : Event
  pub method : Text
  pub path : Text
  pub status : ℕ
  pub queue_ms : Option ℕ
  pub ttft_ms : Option ℕ
  pub latency_ms : ℕ
  pub prompt_tokens : Option ℕ
  pub completion_tokens : Option ℕ
  pub throughput_tps : Option ℕ
  pub stream_chunks_per_second : Option ℕ
  pub output_chunks : ℕ
  pub error : Option Text

-- A line of the log: a job, what happened to it, and how many ran and waited then (0 where the line
-- does not say it).
pub record LogLine : Type 0 where
  pub request_id : Text
  pub event : Event
  pub running : ℕ
  pub waiting : ℕ

pub record Gateway : Type 0 where
  pub jobs : List Job
  pub queue : List Text
  pub running : List Text
  pub recent : List JobRecord
  pub log : List LogLine

abbrev pub find_job : Text → List Job → Option Job
find_job id = find (λ j. j.id == id)

abbrev pub with_job : Text → (Job → Job) → Gateway → Gateway
with_job id f s = record s { jobs = update_where (λ j. j.id == id) f s.jobs }

abbrev pub log_event : Text → Event → ℕ → ℕ → Gateway → Gateway
log_event id e running waiting s = record s {
  log = s.log ++ (record { request_id = id; event = e; running = running; waiting = waiting } ∷ []);
}

-- `job.cancelled || job.finished`
abbrev pub is_over : Option Job → Bool
is_over none = true
is_over (some j) = j.cancelled || j.finished

-- `startUpstream` of a job that has left the queue. For a job that is over it drains the queue, which
-- the loop that called it does anyway.
unfoldable pub start_upstream : ℕ → Text → List Text → Gateway → Gateway
start_upstream now id queue s =
    if is_over (find_job id s.jobs)
    then s
    else log_event id started (length s.running + 1) (length queue) (record s {
      jobs =
          update_where (λ j. j.id == id) (λ j. record j { upstream_started_at = some now }) s.jobs;
      running = s.running ++ (id ∷ []);
    })

-- `while (running.size < parallelLimit && queue.length) startUpstream(queue.shift())`
unfoldable pub drain : ℕ → ℕ → List Text → Gateway → Gateway
drain limit now [] s = record s { queue = [] }
drain limit now (id ∷ queue) s =
    let rest = drain limit now queue (start_upstream now id queue s) in
    if ltb (length s.running) limit then rest else record s { queue = id ∷ queue }

unfoldable pub drain_queue : ℕ → ℕ → Gateway → Gateway
drain_queue limit now s = drain limit now s.queue s

-- The job at the end of the queue, before the loop.
abbrev pub enqueued : Job → Gateway → Gateway
enqueued j s =
    log_event j.id queued (length s.running) (length s.queue + 1)
      (record s { jobs = s.jobs ++ (j ∷ []); queue = s.queue ++ (j.id ∷ []) })

unfoldable pub enqueue : ℕ → ℕ → Job → Gateway → Gateway
unfolding drain_queue
enqueue limit now j s = drain_queue limit now (enqueued j s)

abbrev pub since : ℕ → Option ℕ → Option ℕ
since start none = none
since start (some t) = some (t - start)

abbrev pub decode_ms : ℕ → Option ℕ → Option ℕ
decode_ms now none = none
decode_ms now (some first) = some (if leb 1 (now - first) then now - first else 1)

abbrev per_second : Option ℕ → Option ℕ → Option ℕ
per_second none ms = none
per_second (some n) none = none
per_second (some n) (some ms) = some (rounded_rate n ms)

abbrev some_if_any : ℕ → Option ℕ
some_if_any n = if eqb n 0 then none else some n

abbrev first_of : Option ℕ → ℕ → ℕ
first_of none n = n
first_of (some m) n = m

abbrev cut_error : Option Text → Option Text
cut_error none = none
cut_error (some t) = if is_empty t then none else some (slice_to 240 t)

abbrev pub job_record : ℕ → Event → ℕ → Option Text → Job → JobRecord
job_record now e status error j = record {
  request_id = j.id;
  event = e;
  method = j.method;
  path = j.path;
  status = first_of j.status_code status;
  queue_ms = since j.received_at j.upstream_started_at;
  ttft_ms = since j.received_at j.first_token_at;
  latency_ms = now - j.received_at;
  prompt_tokens = j.prompt_tokens;
  completion_tokens = j.completion_tokens;
  throughput_tps =
      coalesce j.upstream_throughput
        (per_second j.completion_tokens (decode_ms now j.first_token_at));
  stream_chunks_per_second =
      per_second (some_if_any j.output_chunks) (decode_ms now j.first_token_at);
  output_chunks = j.output_chunks;
  error = cut_error error;
}

abbrev pub max_recent : ℕ
max_recent = 50

abbrev pub add_recent : JobRecord → Gateway → Gateway
add_recent r s = record s { recent = take max_recent (r ∷ s.recent) }

-- The state that `finishJob` leaves before it drains the queue.
abbrev pub closed_off : Event → JobRecord → Text → Gateway → Gateway
closed_off e r id s = add_recent r (
    log_event id e 0 0 (record s {
      jobs = update_where (λ j. j.id == id) (λ j. record j { finished = true }) s.jobs;
      running = filter (λ i. not (i == id)) s.running;
    }))

abbrev pub finish_found :
    ℕ → ℕ → Text → Event → ℕ → Option Text → Gateway → Option Job → Gateway × Option JobRecord
finish_found limit now id e status error s none = (s, none)
finish_found limit now id e status error s (some j) = if j.finished then (s, none) else (
  drain_queue limit now (closed_off e (job_record now e status error j) id s),
  some (job_record now e status error j),
)

-- `finishJob`: only the first call for a job does anything; it returns the job's record.
unfoldable pub finish_job :
    ℕ → ℕ → Text → Event → ℕ → Option Text → Gateway → Gateway × Option JobRecord
unfolding drain_queue
finish_job limit now id e status error s =
    finish_found limit now id e status error s (find_job id s.jobs)
