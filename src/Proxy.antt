-- ===== src/Proxy.antt =====
-- dashboard/src/proxy.js: `proxyOpenAI`, which takes a client's request to the node of its API key.
-- The network is a function of the request that is sent to the answer; `parse` stands for what the
-- code reads of JSON.parse.
mod Recording
mod Tests
use swiftlm_platform.Base.{
  ℕ, ◌-◌, Bool, true, false, not, ◌&&◌, ◌||◌, Option, none, some, List, [], ◌∷◌, ◌++◌, map, filter,
  Text, codes, ◌==◌, is_empty, or_else, if◌then◌else◌, length, take, ltb, leb,
}
use swiftlm_platform.Store.{Store, Node, NodeModel, Metrics, Outcome}
use swiftlm_platform.Store.Keys.{KeyWithNode}
use swiftlm_platform.Store.Models.{list_node_models, is_model_allowed_on_node}
use swiftlm_platform.Store.Requests
use swiftlm_platform.Store.Requests.{record_request}
use swiftlm_platform.Collector.{
  Collector, Usage, create_metrics_collector, set_reported, set_usage, result,
}
use swiftlm_platform.Stream.{Codec}
use swiftlm_platform.Upstream.{Signing, Call, Sending, sending}
use swiftlm_platform.Relay.{Forward, forward_chunks, flush, preview}
use swiftlm_platform.Server.{Config}

-- What comes back: an exception, or a status and the chunks of the body with the moment of each, and
-- the exception that breaks the body off, if one does; or a status without a body, whose text is empty.
pub data Answer : Type 0 where
  threw : Text → Answer
  answered : ℕ → List (ℕ × Text) → Option Text → Answer
  bodiless : ℕ → Answer

-- What the client gets: the list of models, a JSON answer with the text that it carries (its body, or
-- the message or code of the error), or the pieces of a stream.
pub data Reply : Type 0 where
  models : List NodeModel → Reply
  plain : ℕ → Text → Reply
  stream : ℕ → List Text → Reply

pub record Handled : Type 0 where
  pub status : ℕ
  pub response_preview : Text
  pub collector : Collector
  pub reply : Reply

abbrev is_ok : ℕ → Bool
is_ok status = leb 200 status && leb status 299

abbrev plainly : ℕ → Text → Text → Collector → Handled
plainly status preview text c = record {
  status = status;
  response_preview = preview;
  collector = c;
  reply = plain status text;
}

abbrev unavailable : Text
unavailable = codes "Inference node unavailable"

-- What the code reads of a whole answer: its usage, and the metrics of the provider.
pub data Parsed : Type 0 where
  not_json : Parsed
  json : Option Usage → Option Metrics → Parsed

abbrev measure : Parsed → Collector → Collector
measure not_json c = c
measure (json usage metrics) c = set_reported metrics (set_usage usage c)

abbrev pub enabled_models : Text → Store → List NodeModel
enabled_models id s = filter (λ m. m.enabled) (list_node_models id s)

abbrev whole_text : List (ℕ × Text) → Text
whole_text [] = []
whole_text ((now, c) ∷ cs) = c ++ whole_text cs

abbrev own_catalogue : Text → Collector → Store → ℕ → Text → Handled
own_catalogue id c s status text =
    if is_ok status
    then record {
      status = status;
      response_preview = text;
      collector = c;
      reply = models (enabled_models id s);
    }
    else plainly status text text c

abbrev pub list_models : Text → Collector → Store → Answer → Handled
list_models id c s (threw e) = plainly 502 e unavailable c
list_models id c s (answered status chunks (some e)) = plainly 502 e unavailable c
list_models id c s (answered status chunks none) = own_catalogue id c s status (whole_text chunks)
list_models id c s (bodiless status) = own_catalogue id c s status []

-- A stream that breaks off ends the response, or makes it a 502 if nothing has been written yet.
abbrev broken_off : ℕ → Text → Forward → List Text → Handled
broken_off status e f [] = plainly 502 e unavailable f.collector
broken_off status e f (w ∷ ws) = record {
  status = 502;
  response_preview = e;
  collector = f.collector;
  reply = stream status (w ∷ ws);
}

abbrev ended : ℕ → Option Text → Forward × Text → Handled
ended status none f = record {
  status = status;
  response_preview = (flush f).response_preview;
  collector = (flush f).collector;
  reply = stream status (flush f).written;
}
ended status (some e) (f, rest) = broken_off status e f f.written

abbrev at_once : (Text → Parsed) → Collector → ℕ → Option Text → Text → Handled
at_once parse c status (some e) text = plainly 502 e unavailable c
at_once parse c status none text = plainly status (preview text) text (measure (parse text) c)

abbrev pub relay : Codec → (Text → Parsed) → Bool → Collector → Answer → Handled
relay k parse streaming c (threw e) = plainly 502 e unavailable c
relay k parse streaming c (answered status chunks broken) =
    if streaming
    then ended status broken
        (forward_chunks k [] chunks (record { collector = c; response_preview = []; written = [] }))
    else at_once parse c status broken (whole_text chunks)
relay k parse streaming c (bodiless status) = at_once parse c status none []

abbrev pub restricted : Call → Text → Store → Bool
restricted call id s =
    (call.route == codes "/chat/completions")
    && (not (is_empty call.model) && not (is_model_allowed_on_node id call.model s))

unfoldable pub handle :
    Config
    → Signing
    → Codec
    → (Text → Parsed)
    → (Sending → Answer)
    → ℕ
    → Call
    → Node
    → Store
    → Handled
handle cfg g k parse fetch started call n s =
    let c = create_metrics_collector started in
    if call.route == codes "/models"
    then list_models n.id c s (fetch (sending cfg g call n))
    else if restricted call n.id s
    then plainly 400 (codes "Model is not available on " ++ n.name) (codes "model_not_available") c
    else relay k parse call.stream c (fetch (sending cfg g call n))

abbrev pub entry_of : Call → KeyWithNode → ℕ → ℕ → Handled → Requests.Entry
entry_of call key started now h = record {
  api_key_id = some key.key.id;
  node_id = some key.node.id;
  route = call.path;
  model = some key.node.model_id;
  status = h.status;
  latency_ms = now - started;
  metrics = result now h.collector;
  request_preview = some call.preview;
  response_preview = some h.response_preview;
}

-- The request is recorded at the end of every branch.
unfoldable pub proxy_open_ai :
    Config
    → Signing
    → Codec
    → (Text → Parsed)
    → (Sending → Answer)
    → ℕ
    → ℕ
    → Text
    → Call
    → KeyWithNode
    → Store
    → Outcome (Unit {0}) × Handled
unfolding handle
proxy_open_ai cfg g k parse fetch started now id call key s =
    let h = handle cfg g k parse fetch started call key.node s in
    (record_request id (entry_of call key started now h) now s, h)
