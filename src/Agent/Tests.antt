-- ===== src/Agent/Tests.antt =====
-- Runs and instances of the theorems on a gateway that is a node of the dashboard.
use swiftlm_platform.Base.{
  ◌≡◌, refl, none, some, [], ◌∷◌, codes, text_discrete, ℕ_discrete, arith, trim,
}
use swiftlm_platform.NodeAuth.{
  exactly, Host, Body, claim, nonce_key, window_ms, sign, verify, hex_bytes,
  parse_signature_headers,
}
use swiftlm_platform.Store.Sample.{store}
use swiftlm_platform.Store.{Node}
use swiftlm_platform.Store.Nodes.{
  create_node, insert_with_model, insert_node, insert_node_model, set_node_secret,
}
use swiftlm_platform.Store.Secrets.{encrypt_node_key}
use swiftlm_platform.Store.Tokens.{
  peek_enrollment_token, prune_expired_enrollment_tokens, consume_enrollment_token,
}
use swiftlm_platform.Server.Sample.{config, parse, body}
use swiftlm_platform.Server.Input.{
  safe_node_id, read_node, normalized_origin, parse_auth_input, is_supported_provider,
  is_supported_protocol, is_supported_auth_type, auth_requires_credential,
}
use swiftlm_platform.Server.Enrollment.{Draws, enroll}
use swiftlm_platform.Upstream.{Signing, gateway_identity_headers}
use swiftlm_platform.Gateway.{start_upstream, drain, drain_queue, enqueue}
use swiftlm_platform.Gateway.Handlers.{Json, closes, new_job, empty}
use swiftlm_platform.Agent.{
  AgentState, AgentJson, Capabilities, send_heartbeat, verify_gateway_request, lower_names,
}
use swiftlm_platform.Agent.Join.{Environment, plan, parse_args, options_of, read_answer, join}
use swiftlm_platform.Agent.Delivery.{answer, delivered}
use swiftlm_platform.Agent.Inbound.{dashboard_request_accepted}
use swiftlm_platform.Agent.Enrolled.{enrolled_node_beats}
use swiftlm_platform.Agent.Entry.{Incoming, Door, handle, collect_body, snapshot}
use swiftlm_platform.Agent.Signed.{IsSigned, passed-IsSigned}
use swiftlm_platform.Agent.Callbacks.{JobsAreSigned}
use swiftlm_platform.Agent.Jobs.{requested, called_back, history, history-JobsAreSigned}
use swiftlm_platform.Store.Sample.{home}

-- A digest of one byte and a clock that reads every text as 1000 stand in for the real ones.
abbrev host : Host
host = record {
  hmac_hex = λ s v. codes "ab";
  sha256_hex = λ v. codes "cd";
  number = λ t. some (exactly 1000);
  to_text = λ b. b;
}

abbrev agent : AgentState
agent = record {
  dashboard_url = codes "http://d";
  node_id = codes "new1";
  node_secret = codes "pw";
}

abbrev agent_json : AgentJson
agent_json = record {
  beat_text = λ version caps. codes "{}";
  read_beat = λ t. (some (codes "1"), some (codes "{}"));
  state_text = λ a. codes "{}";
  parse_state = λ t. some agent;
}

abbrev idle : Capabilities
idle = record { running = 0; waiting = 0; parallel_limit = 1 }

abbrev draws : Draws
draws = record {
  node_id = codes "new1";
  row_id = codes "w3";
  key_iv = codes "iv";
  secret_iv = codes "iv";
  secret = codes "pw";
  pruned_at = 10;
  checked_at = 10;
  created_at = 11;
  enrolled_at = 12;
  used_at = 13;
  consumed_at = 13;
}

enrolled_node_beats_example :
    (answer config host
      (delivered agent_json
        (codes "http://d")
        (send_heartbeat host agent_json agent (codes "1") idle (codes "1000") (codes "n")))
      1001
      1002
      (enroll config (λ t. t) parse (codes "enroll_a") body draws store).0
      []).1
    ≡ 200
unfolding enroll peek_enrollment_token prune_expired_enrollment_tokens consume_enrollment_token
    read_node normalized_origin parse_auth_input is_supported_provider is_supported_protocol
    is_supported_auth_type auth_requires_credential create_node insert_with_model insert_node
    insert_node_model set_node_secret encrypt_node_key trim text_discrete ℕ_discrete safe_node_id
    sign
enrolled_node_beats_example =
    enrolled_node_beats config (codes "k") draws (λ t. t) parse (codes "enroll_a") body store host
      agent_json agent (codes "1") idle (codes "1000") (codes "n") 1000 1001 1002 [] refl (λ e. cc)
      (λ e. cc, omega arith) (λ e. cc, omega arith) (λ e. cc, omega arith) refl refl refl (λ e. cc)
      (λ e. cc) (λ e. cc) (λ e. cc) (λ e. cc) refl (omega arith) (omega arith) refl

abbrev signing : Signing
signing = record {
  host = host;
  timestamp = codes "1000";
  nonce = codes "n";
  pathname = λ t. codes "/v1/models";
}

abbrev joined : Node
joined = record home { id = codes "new1"; node_secret = some (codes "pw") }

dashboard_request_accepted_example :
    verify_gateway_request host agent
      (lower_names (
        gateway_identity_headers signing joined
          (codes "POST")
          (codes "/models")
          (Body.json (codes "{}"))))
      (codes "POST")
      (codes "/v1/models")
      (codes "{}")
      1001
      []
    ≡ ((claim window_ms (nonce_key (codes "new1") (codes "n")) 1001 []).0, none)
unfolding sign
dashboard_request_accepted_example =
    dashboard_request_accepted signing agent joined (codes "POST") (codes "/models")
      (codes "/v1/models") (codes "{}") (codes "{}") 1000 1001 [] refl refl refl refl (λ e. cc)
      (λ e. cc) (λ e. cc) (λ e. cc) refl (omega arith) (omega arith) refl

abbrev inference : Incoming
inference = record {
  id = codes "r1";
  remote = codes "10.0.0.2";
  pathname = codes "/v1/completions";
  url = codes "/v1/completions";
  method = codes "POST";
  headers =
      (codes "x-node-id", codes "new1")
      ∷ (codes "x-node-timestamp", codes "1000")
      ∷ (codes "x-node-nonce", codes "n")
      ∷ (codes "x-node-signature", codes "ab")
      ∷ [];
  chunks = codes "{" ∷ codes "}" ∷ [];
  ending = none;
}

abbrev door : Door
door = record { gateway = empty; seen = [] }

entering : Unit {0}
unfolding handle collect_body snapshot verify_gateway_request verify hex_bytes
    parse_signature_headers claim enqueue drain_queue drain start_upstream new_job text_discrete
    ℕ_discrete
entering = tt

passed-IsSigned_example :
    IsSigned host agent inference.headers (codes "POST") (codes "/v1/completions") (codes "{}")
unfolding entering
passed-IsSigned_example = passed-IsSigned 1 100 host agent 1001 inference door (codes "{}") refl

abbrev json : Json
json = record { parse = λ t. none; read_metrics = λ t. none; record_text = λ r. r.request_id }

history-JobsAreSigned_example :
    JobsAreSigned host agent
      (history 1 100 host json agent
        (requested 1001 inference ∷ called_back (closes 1002 (codes "r1")) ∷ [])
        door).gateway.jobs
history-JobsAreSigned_example =
    history-JobsAreSigned 1 100 host json agent
      (requested 1001 inference ∷ called_back (closes 1002 (codes "r1")) ∷ []) door (tt, (tt, tt))
      tt

abbrev environment : Environment
environment = record {
  dashboard_base_url = [];
  model_id = codes "m";
  state_file = [];
  default_state_file = codes "s.json";
}

-- A run of the program: the file that it writes.
joined_file :
    join agent_json environment
      (codes "enroll_a"
        ∷ codes "--server"
        ∷ codes "http://d/"
        ∷ codes "stray"
        ∷ codes "--base-url"
        ∷ codes "http://n/v1"
        ∷ codes "--name"
        ∷ codes "gpu"
        ∷ [])
      (λ e. record { status = 201; node_id = codes "new1"; node_secret = codes "pw" })
    ≡ some (codes "s.json", codes "{}\n")
unfolding join plan parse_args options_of read_answer text_discrete ℕ_discrete
joined_file = refl
