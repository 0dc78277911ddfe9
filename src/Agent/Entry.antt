-- ===== src/Agent/Entry.antt =====
-- mlx-gateway/server.mjs: a request that comes to the gateway, up to its place in the queue. A body is
-- its bytes, and so are its chunks.
use swiftlm_platform.Base.{
  Bytes, ℕ, ◌+◌, ◌-◌, ◌*◌, Bool, not, ◌&&◌, ◌||◌, Option, none, some, List, [], ◌∷◌, ◌++◌, Text,
  codes, ◌==◌, leb, ltb, length, take, slice_to, if◌then◌else◌,
}
use swiftlm_platform.NodeAuth.{Host, Cache}
use swiftlm_platform.Gateway.{
  Job, Event, started, completed, failed, cancelled, JobRecord, Gateway, find_job, log_event,
  add_recent, enqueue, decode_ms, since,
}
use swiftlm_platform.Gateway.Handlers.{new_job}
use swiftlm_platform.Agent.{AgentState, Rejection, verify_gateway_request}

abbrev pub is_loopback : Text → Bool
is_loopback a = (a == codes "127.0.0.1") || (a == codes "::1") || (a == codes "::ffff:127.0.0.1")

abbrev pub is_inference : Text → Text → Bool
is_inference path method =
    (method == codes "POST")
    && ((path == codes "/v1/chat/completions") || (path == codes "/v1/completions"))

pub data EntryState : Type 0 where
  running waiting : EntryState

pub record PublicEntry : Type 0 where
  pub request_id : Text
  pub state : EntryState
  pub method : Text
  pub path : Text
  pub queue_ms : ℕ
  pub elapsed_ms : ℕ
  pub ttft_ms : Option ℕ
  pub output_chunks : ℕ
  pub output_chunks_per_second : Option (ℕ × ℕ)
  pub received_at : ℕ

abbrev queued_ms : ℕ → ℕ → Option ℕ → ℕ
queued_ms now received none = now - received
queued_ms now received (some t) = t - received

-- A rate as a fraction.
abbrev rate : ℕ → Option ℕ → Option (ℕ × ℕ)
rate n none = none
rate n (some ms) = some (n * 1000, ms)

abbrev pub public_entry : EntryState → ℕ → Job → PublicEntry
public_entry state now j = record {
  request_id = j.id;
  state = state;
  method = j.method;
  path = j.path;
  queue_ms = queued_ms now j.received_at j.upstream_started_at;
  elapsed_ms = now - j.received_at;
  ttft_ms = since j.received_at j.first_token_at;
  output_chunks = j.output_chunks;
  output_chunks_per_second = rate j.output_chunks (decode_ms now j.first_token_at);
  received_at = j.received_at;
}

pub record Snapshot : Type 0 where
  pub running : ℕ
  pub waiting : ℕ
  pub parallel_limit : ℕ
  pub active : List PublicEntry
  pub recent : List JobRecord

abbrev shown : EntryState → ℕ → Option Job → List PublicEntry
shown state now none = []
shown state now (some j) = public_entry state now j ∷ []

abbrev entries : EntryState → ℕ → List Job → List Text → List PublicEntry
entries state now jobs [] = []
entries state now jobs (id ∷ ids) = shown state now (find_job id jobs) ++ entries state now jobs ids

unfoldable pub snapshot : ℕ → ℕ → Gateway → Snapshot
snapshot limit now s = record {
  running = length s.running;
  waiting = length s.queue;
  parallel_limit = limit;
  active = entries running now s.jobs s.running ++ entries waiting now s.jobs s.queue;
  recent = take 20 s.recent;
}

-- Why the body of a request could not be read.
pub data BodyError : Type 0 where
  too_large client_aborted : BodyError
  broken : Text → BodyError

pub data Collected : Type 0 where
  collected : Bytes → Collected
  uncollected : BodyError → Collected

-- `collectBody`: the chunks, and how they end.
unfoldable pub collect_body : ℕ → ℕ → Bytes → List Bytes → Option BodyError → Collected
collect_body limit size read [] none = collected read
collect_body limit size read [] (some e) = uncollected e
collect_body limit size read (chunk ∷ chunks) end =
    let rest = collect_body limit (size + length chunk) (read ++ chunk) chunks end in
    if ltb limit (size + length chunk) then uncollected too_large else rest

pub record Incoming : Type 0 where
  pub id : Text
  pub remote : Text
  pub pathname : Text
  pub url : Text
  pub method : Text
  pub headers : List (Text × Text)
  pub chunks : List Bytes
  pub ending : Option BodyError

-- The statuses 404, 200, 200, 401, and 413 or 400, where `health` shows the counts of the snapshot; and
-- the requests that go on to the backend, through the queue or straight.
pub data Reply : Type 0 where
  hidden : Reply
  health shows : Snapshot → Reply
  unsigned : Rejection → Reply
  unreadable : ℕ → Reply
  queues forwards : Bytes → Reply

abbrev status_of : BodyError → ℕ
status_of too_large = 413
status_of client_aborted = 400
status_of (broken message) = 400

abbrev event_of : BodyError → Event
event_of too_large = failed
event_of client_aborted = cancelled
event_of (broken message) = failed

abbrev message_of : BodyError → Text
message_of too_large = codes "Request body too large"
message_of client_aborted = codes "Client aborted request"
message_of (broken message) = message

-- A record of a request that was no job: what it does not say is none, or 0.
abbrev pub plain_record : Incoming → Event → ℕ → ℕ → Text → Option Text → JobRecord
plain_record r e status latency path error = record {
  request_id = r.id;
  event = e;
  method = r.method;
  path = path;
  status = status;
  queue_ms = none;
  ttft_ms = none;
  latency_ms = latency;
  prompt_tokens = none;
  completion_tokens = none;
  throughput_tps = none;
  stream_chunks_per_second = none;
  output_chunks = 0;
  error = error;
}

abbrev recorded : JobRecord → Gateway → Gateway
recorded r s = add_recent r (log_event r.request_id r.event 0 0 s)

-- What the end of the backend's answer does to a request that was forwarded, and what an error does.
unfoldable pub forwarded_end : Incoming → ℕ → ℕ → ℕ → Gateway → Gateway
forwarded_end r started_at now status s =
    recorded
      (plain_record r (if leb 200 status && ltb status 400 then completed else failed) status
        (now - started_at) r.pathname none)
      s

unfoldable pub forwarded_error : Incoming → ℕ → ℕ → Text → Gateway → Gateway
forwarded_error r started_at now message s =
    recorded (plain_record r failed 502 (now - started_at) r.pathname (some (slice_to 240 message)))
      s

-- The gateway and its nonces.
pub record Door : Type 0 where
  pub gateway : Gateway
  pub seen : Cache

abbrev pub job_of : Incoming → Bytes → ℕ → Job
job_of r body now = new_job r.id r.method r.pathname r.url r.headers body now

abbrev pub admit : ℕ → ℕ → Incoming → Bytes → Door → Door × Reply
admit limit now r body d =
    if is_inference r.pathname r.method
    then (record d { gateway = enqueue limit now (job_of r body now) d.gateway }, queues body)
    else (record d { gateway = log_event r.id started 0 0 d.gateway }, forwards body)

abbrev turned_away : Door → Cache → Rejection → Door × Reply
turned_away d seen e = (record d { seen = seen }, unsigned e)

abbrev pub check_identity :
    ℕ → ℕ → Incoming → Bytes → Door → Cache × Option Rejection → Door × Reply
check_identity limit now r body d (seen, some e) = turned_away d seen e
check_identity limit now r body d (seen, none) = admit limit now r body (record d { seen = seen })

abbrev pub enter : ℕ → Host → Option AgentState → ℕ → Incoming → Door → Collected → Door × Reply
enter limit h a now r d (uncollected e) = (
  record d {
    gateway =
        recorded
          (plain_record r (event_of e) (status_of e) 0 r.url (some (slice_to 240 (message_of e))))
          d.gateway;
  },
  unreadable (status_of e),
)
enter limit h none now r d (collected body) = admit limit now r body d
enter limit h (some a) now r d (collected body) =
    check_identity limit now r body d
      (verify_gateway_request h a r.headers r.method r.url body now d.seen)

-- The handler of a request.
unfoldable pub handle : ℕ → ℕ → Host → Option AgentState → ℕ → Incoming → Door → Door × Reply
unfolding snapshot collect_body new_job enqueue verify_gateway_request
handle limit max_bytes h a now r d =
    if (r.pathname == codes "/__mlx/requests") || (r.pathname == codes "/__mlx/health")
    then if not (is_loopback r.remote)
      then (d, hidden)
      else if r.pathname == codes "/__mlx/health"
      then (d, health (snapshot limit now d.gateway))
      else (d, shows (snapshot limit now d.gateway))
    else enter limit h a now r d (collect_body max_bytes 0 [] r.chunks r.ending)
