-- ===== src/Server/KeyRoutes.antt =====
-- dashboard/src/server.js: the routes of the API keys, and `requireApiKey`, which the proxy's routes
-- stand behind. `digest_of` stands for `hmacHex` under the server's secret.
pub mod FreshKeys
use swiftlm_platform.Base.{
  ℕ, Bool, true, false, not, ◌&&◌, ◌||◌, Option, none, some, List, [], ◌∷◌, Text, codes, ◌==◌,
  is_empty, or_else, trim, slice_to, to_lower, starts_with, if◌then◌else◌, eqb,
}
use swiftlm_platform.Store.{Store, Node, Outcome, ok, err}
use swiftlm_platform.Store.Nodes.{get_node}
use swiftlm_platform.Store.Keys.{create_api_key, authenticate_api_key, revoke_api_key, KeyWithNode}
use swiftlm_platform.Server.{Config}
use swiftlm_platform.Server.Input.{safe_node_id}

abbrev only_enabled : Option Node → Option Node
only_enabled none = none
only_enabled (some n) = if n.enabled then some n else none

unfoldable pub resolve_enabled_node : Text → Store → Option Node
resolve_enabled_node id s = only_enabled (get_node id s)

-- `safeNodeId(…) || config.defaultNode.id`
abbrev pub chosen_node : Config → Text → Text
chosen_node cfg param = or_else (safe_node_id param) cfg.default_node_id

-- What `issueApiKey` draws at random.
pub record Issued : Type 0 where
  pub id : Text
  pub value : Text
  pub prefix : Text

abbrev key_reply : Outcome (Unit {0}) → Store × ℕ
key_reply (s, ok u) = (s, 201)
key_reply (s, err e) = (s, 500)

abbrev issue_for : (Text → Text) → Issued → Text → ℕ → Store → Option Node → Store × ℕ
issue_for digest_of issued name now s none = (s, 400)
issue_for digest_of issued name now s (some n) =
    key_reply (create_api_key issued.id name issued.prefix (digest_of issued.value) n.id now s)

-- POST /api/keys
unfoldable pub issue_key : Config → (Text → Text) → Issued → Text → Text → ℕ → Store → Store × ℕ
unfolding resolve_enabled_node trim
issue_key cfg digest_of issued name param now s =
    issue_for digest_of issued (slice_to 80 (trim (or_else name (codes "API Key")))) now s
      (resolve_enabled_node (chosen_node cfg param) s)

-- POST /api/keys/:id/revoke
unfoldable pub revoke_key : Text → ℕ → Store → Store × ℕ
revoke_key id now s =
    ((revoke_api_key id now s).0, if (revoke_api_key id now s).1 then 200 else 404)

pub data Access : Type 0 where
  missing_key invalid_key : Access
  granted : KeyWithNode → Access

abbrev access : Store × Option KeyWithNode → Store × Access
access (s, none) = (s, invalid_key)
access (s, some j) = (s, granted j)

-- `value` is what `bearerToken` reads in the header.
unfoldable pub require_api_key : Config → (Text → Text) → Text → ℕ → Store → Store × Access
unfolding authenticate_api_key
require_api_key cfg digest_of value now s =
    if is_empty value
    then (s, missing_key)
    else access (authenticate_api_key cfg.vault (digest_of value) now s)
