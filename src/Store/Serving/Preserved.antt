-- ===== src/Store/Serving/Preserved.antt =====
-- Every operation of dashboard/src/db.js keeps every node with a model.
use swiftlm_platform.Base.{ℕ, refl, Option, some, Text, arith, inl, inr}
use swiftlm_platform.Store.{Store, Result-cases}
use swiftlm_platform.Store.Secrets.{encrypt_node_key}
use swiftlm_platform.Store.Nodes.{
  Vault, set_node_secret, record_heartbeat, set_node_enabled, update_node_upstream_key,
  update_node_auth, stored_credential,
}
use swiftlm_platform.Store.Keys.{create_api_key, authenticate_api_key, revoke_api_key}
use swiftlm_platform.Store.Conversations.{
  create_conversation, update_conversation_target, add_message, update_message_content,
  set_conversation_title, delete_conversation,
}
use swiftlm_platform.Store.Requests.{record_request}
use swiftlm_platform.Store.Tokens.{
  create_enrollment_token, delete_enrollment_token, consume_enrollment_token,
  prune_expired_enrollment_tokens,
}
use swiftlm_platform.Store.Steps
use swiftlm_platform.Store.Serving.{IsServing, IsFresh, update_node-IsServing, IsServing-same}
use swiftlm_platform.Store.Serving.Creation.{
  create_node-IsServing, add_node_model-IsServing, set_node_model_enabled-IsServing,
}
use swiftlm_platform.Store.Serving.Removal.{delete_node_model-IsServing, delete_node-IsServing}

set_node_secret-IsServing :
    (v : Vault) (iv id secret : Text) (now : ℕ) (s : Store)
    → IsServing s
    → IsServing (set_node_secret v iv id secret now s).0
unfolding set_node_secret
set_node_secret-IsServing v iv id secret now s h =
    elim (Result-cases (encrypt_node_key v.cipher iv (some secret) v.key)) [
      | inl (x, e) ↦ rw (e, set_node_secret) h
      | inr (sealed, e) ↦ rw (e, set_node_secret) (update_node-IsServing id _ s (λ n. refl) h)
    ]

update_node_upstream_key-IsServing :
    (v : Vault) (iv id : Text) (key : Option Text) (now : ℕ) (s : Store)
    → IsServing s
    → IsServing (update_node_upstream_key v iv id key now s).0
unfolding update_node_upstream_key
update_node_upstream_key-IsServing v iv id key now s h =
    elim (Result-cases (encrypt_node_key v.cipher iv key v.key)) [
      | inl (x, e) ↦ rw (e, update_node_upstream_key) h
      | inr (sealed, e) ↦
          rw (e, update_node_upstream_key) (update_node-IsServing id _ s (λ n. refl) h)
    ]

update_node_auth-IsServing :
    (v : Vault) (iv id auth_type : Text) (auth_header key : Option Text) (now : ℕ) (s : Store)
    → IsServing s
    → IsServing (update_node_auth v iv id auth_type auth_header key now s).0
unfolding update_node_auth
update_node_auth-IsServing v iv id auth_type auth_header key now s h =
    elim (Result-cases (stored_credential v iv auth_type key)) [
      | inl (x, e) ↦ rw (e, update_node_auth) h
      | inr (sealed, e) ↦ rw (e, update_node_auth) (update_node-IsServing id _ s (λ n. refl) h)
    ]

-- Whatever the store does, if every node has a model row and every model row its node, and the
-- first row of a new node has a new identifier, then it is so afterwards; in particular the last model of a node is never removed without the node.
pub step-IsServing :
    (v : Vault) (o : Steps.Op) (s : Store)
    → IsFresh o s
    → IsServing s
    → IsServing (Steps.step v o s)
unfolding Steps.step
step-IsServing v (Steps.creates_node iv row_id i now) s f h =
    create_node-IsServing v iv row_id i now s f h
step-IsServing v (Steps.sets_secret iv id secret now) s f h =
    set_node_secret-IsServing v iv id secret now s h
step-IsServing v (Steps.beats id version capabilities now) s f h =
    unfold record_heartbeat in update_node-IsServing id _ s (λ n. refl) h
step-IsServing v (Steps.enables_node id enabled now) s f h =
    unfold set_node_enabled in update_node-IsServing id _ s (λ n. refl) h
step-IsServing v (Steps.rekeys_node iv id key now) s f h =
    update_node_upstream_key-IsServing v iv id key now s h
step-IsServing v (Steps.changes_auth iv id auth_type auth_header key now) s f h =
    update_node_auth-IsServing v iv id auth_type auth_header key now s h
step-IsServing v (Steps.deletes_node id purge) s f h = delete_node-IsServing id purge s h
step-IsServing v (Steps.adds_model row_id node_id model_id model_name now) s f h =
    add_node_model-IsServing row_id node_id model_id model_name now s h
step-IsServing v (Steps.enables_model node_id row_id enabled now) s f h =
    set_node_model_enabled-IsServing node_id row_id enabled now s h
step-IsServing v (Steps.deletes_model node_id row_id) s f h =
    delete_node_model-IsServing node_id row_id s h
step-IsServing v (Steps.creates_key id name prefix digest node_id now) s f h =
    unfold create_api_key in IsServing-same s _ (ground arith) (ground arith) h
step-IsServing v (Steps.authenticates digest now) s f h =
    unfold authenticate_api_key in IsServing-same s _ (ground arith) (ground arith) h
step-IsServing v (Steps.revokes_key id now) s f h =
    unfold revoke_api_key in IsServing-same s _ refl refl h
step-IsServing v (Steps.creates_conversation id title system_prompt node_id model_id now) s f h =
    unfold create_conversation in IsServing-same s _ (ground arith) (ground arith) h
step-IsServing v (Steps.targets_conversation id node_id model_id now) s f h =
    unfold update_conversation_target in IsServing-same s _ (ground arith) (ground arith) h
step-IsServing v (Steps.adds_message id conversation_id role content now) s f h =
    unfold add_message in IsServing-same s _ (ground arith) (ground arith) h
step-IsServing v (Steps.updates_message id conversation_id content now) s f h =
    unfold update_message_content in IsServing-same s _ (ground arith) (ground arith) h
step-IsServing v (Steps.titles_conversation id title now) s f h =
    unfold set_conversation_title in IsServing-same s _ refl refl h
step-IsServing v (Steps.deletes_conversation id) s f h =
    unfold delete_conversation in IsServing-same s _ refl refl h
step-IsServing v (Steps.records_request id e now) s f h =
    unfold record_request in IsServing-same s _ (ground arith) (ground arith) h
step-IsServing v (Steps.creates_token id digest label ttl now) s f h =
    unfold create_enrollment_token in IsServing-same s _ (ground arith) (ground arith) h
step-IsServing v (Steps.deletes_token id) s f h =
    unfold delete_enrollment_token in IsServing-same s _ refl refl h
step-IsServing v (Steps.consumes_token digest node_id used now) s f h =
    unfold consume_enrollment_token in IsServing-same s _ (ground arith) (ground arith) h
step-IsServing v (Steps.prunes_tokens now) s f h =
    unfold prune_expired_enrollment_tokens in IsServing-same s _ refl refl h
