-- ===== src/Store/Serving.antt =====
-- Every node of dashboard/src/db.js has a model to serve, and every model row its node.
mod Creation
mod Removal
pub mod Preserved
use swiftlm_platform.Base.{
  ℕ, ◌≡◌, ◌≢◌, refl, sym, ap, ◌∙◌, Bool, true, false, not, ◌&&◌, ◌||◌, Option, none, some, List, [],
  ◌∷◌, ◌++◌, Text, ◌==◌, any, find, filter, update_where, order_by, if◌then◌else◌, text_discrete,
  arith, Bool-cases, ◌⊎◌, inl, inr, All, All-imp, All-append, All-filter_imp, All-update_where,
  any-update_where, any-update_where-true, any-filter-true, any-append, any-filter, any-order_by,
  any-imp, any-All,
}
use swiftlm_platform.Store.{
  Store, Node, NodeModel, Result, ok, err, Result-cases, has_node, coalesce, or_null?,
}
use swiftlm_platform.Store.Secrets.{encrypt_node_key}
use swiftlm_platform.Store.Nodes.{
  Vault, NodeInput, node_row, primary_row, insert_node, insert_node_model, insert_with_model,
  create_node, update_node, set_node_secret, record_heartbeat, set_node_enabled,
  update_node_upstream_key, update_node_auth,
}
use swiftlm_platform.Store.Deletion.{delete_node, without_node}
use swiftlm_platform.Store.Models.{
  add_node_model, set_node_model_enabled, delete_node_model, list_node_models, is_row, is_nil,
  model_row,
}
use swiftlm_platform.Store.Keys.{create_api_key, authenticate_api_key, revoke_api_key}
use swiftlm_platform.Store.Conversations.{
  create_conversation, update_conversation_target, add_message, update_message_content,
  set_conversation_title, delete_conversation,
}
use swiftlm_platform.Store.Requests.{record_request}
use swiftlm_platform.Store.Tokens.{
  create_enrollment_token, delete_enrollment_token, consume_enrollment_token,
  prune_expired_enrollment_tokens,
}
use swiftlm_platform.Store.Steps

abbrev pub has_model : List NodeModel → Text → Bool
has_model ms id = any (λ m. m.node_id == id) ms

abbrev pub Served : List NodeModel → List Node → Type 0
Served ms ns = All (λ n. has_model ms n.id ≡ true) ns

abbrev pub Owned : List Node → List NodeModel → Type 0
Owned ns ms = All (λ m. has_node m.node_id ns ≡ true) ms

pub record IsServing (s : Store) : Type 0 where
  pub served : Served s.node_models s.nodes
  pub owned : Owned s.nodes s.node_models

-- The random id of a node's first model row is new.
abbrev pub IsFresh : Steps.Op → Store → Type 0
IsFresh (Steps.creates_node iv row_id i now) s = any (λ m. m.id == row_id) s.node_models ≡ false
IsFresh _ s = Unit

pub Served-more : (ms new : List NodeModel) (ns : List Node) → Served ms ns → Served (ms ++ new) ns
Served-more ms new ns h =
    All-imp _ _ ns (λ n e. ground (arith, any-append (λ m. m.node_id == n.id) ms new)) h

pub Owned-more : (ns new : List Node) (ms : List NodeModel) → Owned ns ms → Owned (ns ++ new) ms
Owned-more ns new ms h =
    All-imp _ _ ms (λ m e. ground (arith, any-append (λ n. n.id == m.node_id) ns new)) h

-- An update of a node that keeps its id.
pub update_node-IsServing :
    (id : Text) (f : Node → Node) (s : Store)
    → ((n : Node) → (f n).id ≡ n.id)
    → IsServing s
    → IsServing (update_node id f s).0
update_node-IsServing id f s same v = record {
  served = All-update_where _ (λ n. n.id == id) f s.nodes (λ n h. rw (same n) h) v.served;
  owned =
      All-imp _ _ s.node_models
        (λ m h.
          any-update_where (λ n. n.id == m.node_id) (λ n. n.id == id) f s.nodes
            (λ n. ap (λ k. k == m.node_id) (same n))
          ∙ h)
        v.owned;
}

pub without_node-IsServing : (id : Text) (s : Store) → IsServing s → IsServing (without_node id s)
without_node-IsServing id s v = record {
  served =
      All-filter_imp _ _ (λ n. not (n.id == id)) s.nodes
        (λ n other h.
          any-filter-true (λ m. m.node_id == n.id) (λ m. not (m.node_id == id)) s.node_models
            (λ m e. ground arith) h)
        v.served;
  owned =
      All-filter_imp _ _ (λ m. not (m.node_id == id)) s.node_models
        (λ m other h.
          any-filter-true (λ n. n.id == m.node_id) (λ n. not (n.id == id)) s.nodes
            (λ n e. ground arith) h)
        v.owned;
}

pub IsServing-same :
    (s s' : Store)
    → s'.nodes ≡ s.nodes
    → s'.node_models ≡ s.node_models
    → IsServing s
    → IsServing s'
IsServing-same s s' e f v = record { served = rw (e, f) v.served; owned = rw (e, f) v.owned }
