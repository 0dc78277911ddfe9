-- ===== src/Store/Requests.antt =====
-- dashboard/src/db.js: the history of requests.
use swiftlm_platform.Base.{
  ℕ, Bool, false, not, ◌||◌, Option, none, some, List, [], ◌∷◌, ◌++◌, Text, ◌==◌, any, leb, take,
  order_by, reverse, if◌then◌else◌,
}
use swiftlm_platform.Store.{
  Store, ApiRequest, Metrics, ok, err, unique, foreign_key, Outcome, has_node, or_null?,
}

pub record Entry : Type 0 where
  pub api_key_id : Option Text
  pub node_id : Option Text
  pub route : Text
  pub model : Option Text
  pub status : ℕ
  pub latency_ms : ℕ
  pub metrics : Metrics
  pub request_preview : Option Text
  pub response_preview : Option Text

abbrev pub request_row : Text → Entry → ℕ → ApiRequest
request_row id e now = record {
  id = id;
  api_key_id = or_null? e.api_key_id;
  node_id = or_null? e.node_id;
  route = e.route;
  model = or_null? e.model;
  status = e.status;
  latency_ms = e.latency_ms;
  metrics = e.metrics;
  request_preview = or_null? e.request_preview;
  response_preview = or_null? e.response_preview;
  created_at = now;
}

abbrev dangling_key : Option Text → Store → Bool
dangling_key none s = false
dangling_key (some id) s = not (any (λ k. k.id == id) s.api_keys)

abbrev dangling_node : Option Text → Store → Bool
dangling_node none s = false
dangling_node (some id) s = not (has_node id s.nodes)

unfoldable pub record_request : Text → Entry → ℕ → Store → Outcome (Unit {0})
record_request id e now s =
    if any (λ r. r.id == id) s.api_requests
    then (s, err unique)
    else if dangling_key (or_null? e.api_key_id) s || dangling_node (or_null? e.node_id) s
    then (s, err foreign_key)
    else (record s { api_requests = s.api_requests ++ (request_row id e now ∷ []) }, ok tt)

-- `Math.min(Math.max(limit, 1), 250)`
abbrev pub clamp : ℕ → ℕ → ℕ → ℕ
clamp low high n = if leb n low then low else if leb high n then high else n

-- The newest rows first.
unfoldable pub list_requests : ℕ → Store → List ApiRequest
list_requests limit s =
    take (clamp 1 250 limit) (reverse (order_by (λ r. r.created_at) s.api_requests))
