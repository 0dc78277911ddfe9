-- ===== src/Store/Sample.antt =====
-- A small database for the runs and instances of the theorems.
use swiftlm_platform.Base.{true, none, some, [], ◌∷◌, Text, codes}
use swiftlm_platform.Store.{
  Store, Node, NodeModel, ApiKey, Conversation, Message, ApiRequest, EnrollmentToken, Result, ok,
  err, user,
}
use swiftlm_platform.Store.Secrets.{Cipher}
use swiftlm_platform.Store.Nodes.{Vault}
use swiftlm_platform.Store.Startup.{DefaultNode}

-- A cipher that seals nothing stands in for the real one.
abbrev pub cipher : Cipher
cipher = record {
  key_of = λ t. t;
  seal = λ key iv value. (value, codes "tag");
  unseal = λ key iv value mac. some value;
}

abbrev pub vault : Vault
vault = record { cipher = cipher; key = some (codes "k") }

abbrev node : Text → Text → Text → Node
node id url model = record {
  id = id;
  name = id;
  origin_base_url = url;
  model_id = model;
  model_name = model;
  provider = codes "vllm";
  protocol = codes "openai";
  auth_type = codes "bearer";
  auth_header = none;
  capabilities = none;
  upstream_api_key = some (codes "iv:key:tag");
  node_secret = none;
  enabled = true;
  enrolled_at = none;
  last_heartbeat_at = none;
  agent_version = none;
  created_at = 1;
  updated_at = 1;
}

abbrev pub home : Node
home = node (codes "home") (codes "http://h/v1") (codes "m1")

abbrev pub gpu : Node
gpu = node (codes "gpu") (codes "http://g/v1") (codes "m2")

abbrev served : Text → Node → NodeModel
served id n = record {
  id = id;
  node_id = n.id;
  model_id = n.model_id;
  model_name = n.model_name;
  enabled = true;
  created_at = 1;
  updated_at = 1;
}

abbrev pub gpu_key : ApiKey
gpu_key = record {
  id = codes "key1";
  name = codes "n";
  prefix = codes "p";
  digest = codes "d1";
  node_id = some (codes "gpu");
  created_at = 2;
  last_used_at = none;
  revoked_at = none;
}

abbrev pub old_key : ApiKey
old_key = record gpu_key { id = codes "key0"; digest = codes "d0"; node_id = none }

abbrev talk : Conversation
talk = record {
  id = codes "c1";
  title = codes "t";
  system_prompt = [];
  node_id = some (codes "gpu");
  model_id = some (codes "m2");
  created_at = 3;
  updated_at = 3;
}

abbrev question : Message
question = record {
  id = codes "msg1";
  conversation_id = codes "c1";
  role = user;
  content = codes "hi";
  created_at = 4;
}

abbrev pub request : ApiRequest
request = record {
  id = codes "r1";
  api_key_id = some (codes "key1");
  node_id = some (codes "gpu");
  route = codes "/v1/chat/completions";
  model = none;
  status = 200;
  latency_ms = 5;
  metrics = record {
    prompt_tokens = none;
    completion_tokens = none;
    queue_ms = none;
    ttft_ms = none;
    throughput_tps = none;
  };
  request_preview = none;
  response_preview = none;
  created_at = 5;
}

abbrev pub ticket : EnrollmentToken
ticket = record {
  id = codes "t1";
  token_digest = codes "enroll_a";
  label = none;
  created_at = 0;
  expires_at = 100;
  used_at = none;
  node_id = none;
}

abbrev pub store : Store
store = record {
  nodes = home ∷ gpu ∷ [];
  node_models = served (codes "w1") home ∷ served (codes "w2") gpu ∷ [];
  api_keys = gpu_key ∷ [];
  conversations = talk ∷ [];
  messages = question ∷ [];
  api_requests = request ∷ [];
  enrollment_tokens = ticket ∷ [];
}

-- A database as it was before keys had nodes and nodes had lists of models.
abbrev pub old_store : Store
old_store = record store { node_models = []; api_keys = old_key ∷ gpu_key ∷ [] }

abbrev pub defaults : DefaultNode
defaults = record {
  id = codes "home";
  name = codes "Home";
  origin_base_url = codes "http://new/v1";
  upstream_api_key = codes "fresh";
  model_id = codes "m9";
  model_name = codes "m9";
}

abbrev pub store_of : Result Store → Store
store_of (ok s) = s
store_of (err e) = store
