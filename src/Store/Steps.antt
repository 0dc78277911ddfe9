-- ===== src/Store/Steps.antt =====
-- The operations of dashboard/src/db.js that change the store, as one step function, so that
-- properties can range over all histories.
use swiftlm_platform.Base.{ℕ, Bool, Option, List, [], ◌∷◌, Text}
use swiftlm_platform.Store.{Store, Role}
use swiftlm_platform.Store.Nodes.{
  Vault, NodeInput, create_node, set_node_secret, record_heartbeat, set_node_enabled,
  update_node_upstream_key, update_node_auth,
}
use swiftlm_platform.Store.Deletion.{delete_node}
use swiftlm_platform.Store.Models.{add_node_model, set_node_model_enabled, delete_node_model}
use swiftlm_platform.Store.Keys.{create_api_key, authenticate_api_key, revoke_api_key}
use swiftlm_platform.Store.Conversations.{
  create_conversation, update_conversation_target, add_message, update_message_content,
  set_conversation_title, delete_conversation,
}
use swiftlm_platform.Store.Requests
use swiftlm_platform.Store.Requests.{record_request}
use swiftlm_platform.Store.Tokens.{
  create_enrollment_token, delete_enrollment_token, consume_enrollment_token,
  prune_expired_enrollment_tokens,
}

-- A call with its arguments, the random values and the moments included.
pub data Op : Type 0 where
  creates_node : Text → Text → NodeInput → ℕ → Op
  sets_secret : Text → Text → Text → ℕ → Op
  beats : Text → Option Text → Option Text → ℕ → Op
  enables_node : Text → Bool → ℕ → Op
  rekeys_node : Text → Text → Option Text → ℕ → Op
  changes_auth : Text → Text → Text → Option Text → Option Text → ℕ → Op
  deletes_node : Text → Bool → Op
  adds_model : Text → Text → Text → Text → ℕ → Op
  enables_model : Text → Text → Bool → ℕ → Op
  deletes_model : Text → Text → Op
  creates_key : Text → Text → Text → Text → Text → ℕ → Op
  authenticates : Text → ℕ → Op
  revokes_key : Text → ℕ → Op
  creates_conversation : Text → Text → Text → Text → Text → ℕ → Op
  targets_conversation : Text → Text → Text → ℕ → Op
  adds_message : Text → Text → Role → Text → ℕ → Op
  updates_message : Text → Text → Text → ℕ → Op
  titles_conversation : Text → Text → ℕ → Op
  deletes_conversation : Text → Op
  records_request : Text → Requests.Entry → ℕ → Op
  creates_token : Text → Text → Option Text → ℕ → ℕ → Op
  deletes_token : Text → Op
  consumes_token : Text → Text → ℕ → ℕ → Op
  prunes_tokens : ℕ → Op

unfoldable pub step : Vault → Op → Store → Store
step v (creates_node iv row_id i now) s = (create_node v iv row_id i now s).0
step v (sets_secret iv id secret now) s = (set_node_secret v iv id secret now s).0
step v (beats id version capabilities now) s = (record_heartbeat id version capabilities now s).0
step v (enables_node id enabled now) s = (set_node_enabled id enabled now s).0
step v (rekeys_node iv id key now) s = (update_node_upstream_key v iv id key now s).0
step v (changes_auth iv id auth_type auth_header key now) s =
    (update_node_auth v iv id auth_type auth_header key now s).0
step v (deletes_node id purge) s = (delete_node id purge s).0
step v (adds_model row_id node_id model_id model_name now) s =
    (add_node_model row_id node_id model_id model_name now s).0
step v (enables_model node_id row_id enabled now) s =
    (set_node_model_enabled node_id row_id enabled now s).0
step v (deletes_model node_id row_id) s = (delete_node_model node_id row_id s).0
step v (creates_key id name prefix digest node_id now) s =
    (create_api_key id name prefix digest node_id now s).0
step v (authenticates digest now) s = (authenticate_api_key v digest now s).0
step v (revokes_key id now) s = (revoke_api_key id now s).0
step v (creates_conversation id title system_prompt node_id model_id now) s =
    (create_conversation id title system_prompt node_id model_id now s).0
step v (targets_conversation id node_id model_id now) s =
    (update_conversation_target id node_id model_id now s).0
step v (adds_message id conversation_id role content now) s =
    (add_message id conversation_id role content now s).0
step v (updates_message id conversation_id content now) s =
    (update_message_content id conversation_id content now s).0
step v (titles_conversation id title now) s = set_conversation_title id title now s
step v (deletes_conversation id) s = (delete_conversation id s).0
step v (records_request id e now) s = (record_request id e now s).0
step v (creates_token id digest label ttl now) s =
    (create_enrollment_token id digest label ttl now s).0
step v (deletes_token id) s = (delete_enrollment_token id s).0
step v (consumes_token digest node_id used now) s =
    (consume_enrollment_token digest node_id used now s).0
step v (prunes_tokens now) s = prune_expired_enrollment_tokens now s

abbrev pub run : Vault → List Op → Store → Store
run v [] s = s
run v (o ∷ os) s = run v os (step v o s)
