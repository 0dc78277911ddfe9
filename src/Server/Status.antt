-- ===== src/Server/Status.antt =====
-- dashboard/src/server.js: whether a node answers. The network gives the status of a node's answer, or
-- the message of what it throws.
use swiftlm_platform.Base.{
  ℕ, ◌-◌, ◌≡◌, Bool, true, false, not, ◌&&◌, Option, none, some, Option-cases, inl, inr, Text,
  codes, leb, ltb, is_empty, arith, if◌then◌else◌,
}
use swiftlm_platform.Store.{Store, Node, find_node}
use swiftlm_platform.Store.Nodes.{get_node, get_node_for_proxy}
use swiftlm_platform.NodeAuth.{Body}
use swiftlm_platform.Upstream.{Signing, Sending, resolve_credential, upstream_headers, url_of}
use swiftlm_platform.Server.{Config}
use swiftlm_platform.Server.Input.{auth_requires_credential}
use swiftlm_platform.Server.Chats.{resolve_enabled_proxy_node}

pub data NodeState : Type 0 where
  disabled online offline : NodeState

pub record NodeStatus : Type 0 where
  pub state : NodeState
  pub ok : Bool
  pub upstream_status : Option ℕ
  pub error : Option Text
  pub latency_ms : Option ℕ
  pub checked_at : ℕ

pub data Net : Type 0 where
  answers : ℕ → Net
  throws : Text → Net

abbrev offline_for : Text → ℕ → ℕ → NodeStatus
offline_for message started now = record {
  state = offline;
  ok = false;
  upstream_status = none;
  error = some message;
  latency_ms = some (now - started);
  checked_at = now;
}

abbrev is_ok : ℕ → Bool
is_ok status = leb 200 status && ltb status 300

abbrev answered : ℕ → ℕ → Net → NodeStatus
answered started now (throws message) = offline_for message started now
answered started now (answers status) = record {
  state = if is_ok status then online else offline;
  ok = is_ok status;
  upstream_status = some status;
  error = none;
  latency_ms = some (now - started);
  checked_at = now;
}

-- `upstreamJson` of the route `/models`.
unfoldable pub models_request : Config → Signing → Node → Sending
unfolding upstream_headers
models_request cfg g n = record {
  url = url_of n (codes "/models");
  method = codes "GET";
  headers = upstream_headers cfg g n (codes "GET") (codes "/models") Body.absent false false false;
  body = Body.absent;
}

abbrev asked : Config → Signing → (Sending → Net) → ℕ → ℕ → Option Node → NodeStatus
asked cfg g net started now none = offline_for (codes "Node is unavailable") started now
asked cfg g net started now (some n) =
    if auth_requires_credential n.auth_type && is_empty (resolve_credential cfg n).credential
    then offline_for (codes "Node credential is unavailable") started now
    else answered started now (net (models_request cfg g n))

unfoldable pub check_node : Config → Signing → (Sending → Net) → ℕ → ℕ → Store → Node → NodeStatus
unfolding get_node_for_proxy auth_requires_credential resolve_credential models_request
check_node cfg g net started now s n =
    if not n.enabled
    then record {
      state = disabled;
      ok = false;
      upstream_status = none;
      error = none;
      latency_ms = none;
      checked_at = now;
    }
    else asked cfg g net started now (get_node_for_proxy cfg.vault n.id s)

-- A node that the administrator sees online is one that chats can use: it is enabled, and its credential,
-- where it needs one, is there.
pub check_node-usable :
    (cfg : Config) (g : Signing) (net : Sending → Net) (started now : ℕ) (s : Store) (n : Node)
    → get_node n.id s ≡ some n
    → (check_node cfg g net started now s n).ok ≡ true
    → resolve_enabled_proxy_node cfg n.id s ≡ true
unfolding check_node resolve_enabled_proxy_node get_node get_node_for_proxy
check_node-usable cfg g net started now s n found fine =
    elim (Option-cases (find_node n.id s.nodes)) [
      | inl e ↦ absurd (grind arith)
      | inr (row, e) ↦ grind arith
    ]
