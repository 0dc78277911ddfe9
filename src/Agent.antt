-- ===== src/Agent.antt =====
-- mlx-gateway/nodeAgent.mjs, join.mjs and server.mjs: a gateway as a node of the dashboard. It joins
-- with a one-time token, keeps what it got in a file, and from then on sends signed heartbeats and takes
-- only requests that the dashboard signed. JSON and the URLs of the network are the runtime's. A field
-- that is missing is the empty text.
pub mod Delivery
pub mod Beats
pub mod Inbound
pub mod Enrolled
pub mod Entry
pub mod Signed
pub mod Callbacks
pub mod Jobs
pub mod Join
mod Tests
use swiftlm_platform.Base.{
  Bytes, ℕ, ◌+◌, Bool, true, false, not, ◌&&◌, ◌||◌, Option, none, some, List, [], ◌∷◌, ◌++◌, Text,
  codes, ◌==◌, is_empty, to_lower, length, map, or_else, ◌≡◌, refl, text_discrete, leb, ltb,
  if◌then◌else◌,
}
use swiftlm_platform.NodeAuth.{
  Host, Cache, Verdict, Body, Request, Signature, sign, verify, window_ms, parse_signature_headers,
  accepted, missing_fields, timestamp_out_of_window, invalid_signature, replayed_nonce,
}
use swiftlm_platform.Gateway.{Gateway}
use swiftlm_platform.Server.Enrollment.{Beat}

pub record AgentState : Type 0 where
  pub dashboard_url : Text
  pub node_id : Text
  pub node_secret : Text

pub record Capabilities : Type 0 where
  pub running : ℕ
  pub waiting : ℕ
  pub parallel_limit : ℕ

-- What the code takes from JSON: the text of a heartbeat's body, the version and the text of the
-- capabilities that the dashboard reads in it, the text of the state in its file, and how that file is
-- read.
pub record AgentJson : Type 0 where
  pub beat_text : Text → Capabilities → Text
  pub read_beat : Text → Option Text × Option Text
  pub state_text : AgentState → Text
  pub parse_state : Text → Option AgentState

abbrev pub is_complete : AgentState → Bool
is_complete a =
    not (is_empty a.dashboard_url) && not (is_empty a.node_id) && not (is_empty a.node_secret)

abbrev complete_state : Option AgentState → Option AgentState
complete_state none = none
complete_state (some a) = if is_complete a then some a else none

-- The file's text, or none where it cannot be read.
unfoldable pub load_agent_state : AgentJson → Option Text → Option AgentState
load_agent_state k none = none
load_agent_state k (some file) = complete_state (k.parse_state file)

pub record Sent : Type 0 where
  pub url : Text
  pub method : Text
  pub headers : List (Text × Text)
  pub body : Text

abbrev pub signed_headers : Signature → List (Text × Text)
signed_headers s =
    (codes "X-Node-Id", s.node_id)
    ∷ (codes "X-Node-Timestamp", s.timestamp)
    ∷ (codes "X-Node-Nonce", s.nonce)
    ∷ (codes "X-Node-Signature", s.signature)
    ∷ []

-- Node gives the names of a request's headers in lower case.
abbrev pub lower_names : List (Text × Text) → List (Text × Text)
lower_names hs = map (λ p. (to_lower p.0, p.1)) hs

abbrev pub heartbeat_path : Text → Text
heartbeat_path id = codes "/api/node-agent/" ++ (id ++ codes "/heartbeat")

abbrev pub beat_request : AgentJson → AgentState → Text → Capabilities → Request
beat_request k a version caps = record {
  method = codes "POST";
  path = heartbeat_path a.node_id;
  node_id = a.node_id;
  body = Body.json (k.beat_text version caps);
}

-- `sendHeartbeat`, up to the reply.
unfoldable pub send_heartbeat :
    Host → AgentJson → AgentState → Text → Capabilities → Text → Text → Sent
send_heartbeat h k a version caps timestamp nonce = record {
  url = a.dashboard_url ++ heartbeat_path a.node_id;
  method = codes "POST";
  headers =
      (codes "Content-Type", codes "application/json")
      ∷ signed_headers (sign h a.node_secret (beat_request k a version caps) timestamp nonce);
  body = k.beat_text version caps;
}

-- What `startHeartbeatLoop` reports of the gateway.
abbrev pub capabilities_of : ℕ → Gateway → Capabilities
capabilities_of limit s = record {
  running = length s.running;
  waiting = length s.queue;
  parallel_limit = limit;
}

-- The reason for which a request to the gateway is turned away.
pub data Rejection : Type 0 where
  id_mismatch : Rejection
  bad_signature : Verdict → Rejection

abbrev reason : Cache × Verdict → Cache × Option Rejection
reason (seen, accepted) = (seen, none)
reason (seen, missing_fields) = (seen, some (bad_signature missing_fields))
reason (seen, timestamp_out_of_window) = (seen, some (bad_signature timestamp_out_of_window))
reason (seen, invalid_signature) = (seen, some (bad_signature invalid_signature))
reason (seen, replayed_nonce) = (seen, some (bad_signature replayed_nonce))

unfoldable pub verify_gateway_request :
    Host
    → AgentState
    → List (Text × Text)
    → Text
    → Text
    → Bytes
    → ℕ
    → Cache
    → Cache × Option Rejection
unfolding parse_signature_headers verify
verify_gateway_request h a headers method url body now seen =
    let signature = parse_signature_headers headers in
    if not (signature.node_id == a.node_id)
    then (seen, some id_mismatch)
    else reason (
        verify h window_ms a.node_secret
          (record {
            method = method;
            path = url;
            node_id = a.node_id;
            body = Body.text (h.to_text body);
          })
          signature now seen)

or_else-empty : (t : Text) → or_else t [] ≡ t
or_else-empty [] = refl
or_else-empty (c ∷ t) = refl

-- The four headers of a signature are read back as that signature.
pub parse-signed : (s : Signature) → parse_signature_headers (lower_names (signed_headers s)) ≡ s
unfolding parse_signature_headers text_discrete
parse-signed s = rw (or_else-empty s.node_id) (
    rw (or_else-empty s.timestamp)
      (rw (or_else-empty s.nonce) (rw (or_else-empty s.signature) refl)))
