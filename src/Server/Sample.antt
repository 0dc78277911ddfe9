-- ===== src/Server/Sample.antt =====
-- A small configuration for the instances of the theorems on dashboard/src/server.js and proxy.js.
use swiftlm_platform.Base.{Option, some, [], Text, codes}
use swiftlm_platform.Store.Sample.{vault}
use swiftlm_platform.Server.{Config}
use swiftlm_platform.Server.Input.{Url, NodeBody, AuthBody}

abbrev pub config : Config
config = record { default_node_id = codes "home"; upstream_api_key = codes "master"; vault = vault }

-- Every text is a URL of this origin's path `/v1`.
abbrev pub parse : Text → Option Url
parse t = some (record {
  protocol = codes "http:";
  hostname = t;
  origin = t;
  pathname = codes "/v1";
  rest = [];
})

abbrev no_auth : AuthBody
no_auth = record { auth_type = []; auth_header = []; upstream_api_key = [] }

abbrev pub body : NodeBody
body = record {
  name = codes "new";
  model_id = codes "m";
  model_name = [];
  base_url = codes "http://n";
  provider = codes "vllm";
  protocol = [];
  auth = no_auth;
}
