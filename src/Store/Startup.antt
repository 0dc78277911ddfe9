-- ===== src/Store/Startup.antt =====
-- dashboard/src/db.js: what `createStore` does to the rows that it finds: the default node is
-- inserted or refreshed, older rows get its identity, and every node gets its primary model.
use swiftlm_platform.Base.{
  ℕ, Bool, true, false, not, ◌&&◌, Option, none, some, List, [], ◌∷◌, ◌++◌, Text, codes, ◌==◌, any,
  update_where, if◌then◌else◌,
}
use swiftlm_platform.Store.{
  Store, Node, NodeModel, Result, ok, err, unique, ◌>>=◌, coalesce, has_node,
}
use swiftlm_platform.Store.Secrets.{encrypt_node_key}
use swiftlm_platform.Store.Nodes.{Vault}

pub record DefaultNode : Type 0 where
  pub id : Text
  pub name : Text
  pub origin_base_url : Text
  pub upstream_api_key : Text
  pub model_id : Text
  pub model_name : Text

abbrev default_row : DefaultNode → Option Text → ℕ → Node
default_row d sealed now = record {
  id = d.id;
  name = d.name;
  origin_base_url = d.origin_base_url;
  model_id = d.model_id;
  model_name = d.model_name;
  provider = codes "swiftlm";
  protocol = codes "openai";
  auth_type = codes "bearer";
  auth_header = none;
  capabilities = none;
  upstream_api_key = sealed;
  node_secret = none;
  enabled = true;
  enrolled_at = none;
  last_heartbeat_at = none;
  agent_version = none;
  created_at = now;
  updated_at = now;
}

-- `ON CONFLICT(id) DO UPDATE`: a stored credential wins over the one of the environment.
abbrev pub refreshed : DefaultNode → Option Text → ℕ → Node → Node
refreshed d sealed now n = record n {
  name = d.name;
  origin_base_url = d.origin_base_url;
  model_id = d.model_id;
  model_name = d.model_name;
  upstream_api_key = coalesce n.upstream_api_key sealed;
  updated_at = now;
}

unfoldable pub upsert_default : DefaultNode → Option Text → ℕ → List Node → Result (List Node)
upsert_default d sealed now nodes =
    if any (λ n. not (n.id == d.id) && (n.origin_base_url == d.origin_base_url)) nodes
    then err unique
    else if has_node d.id nodes
    then ok (update_where (λ n. n.id == d.id) (refreshed d sealed now) nodes)
    else ok (nodes ++ (default_row d sealed now ∷ []))

abbrev pub is_null : {A : Type 0} → Option A → Bool
is_null none = true
is_null (some a) = false

-- Rows older than the columns get the default node and its model.
unfoldable pub backfill : DefaultNode → Store → Store
backfill d s = record s {
  api_keys =
      update_where (λ k. is_null k.node_id) (λ k. record k { node_id = some d.id }) s.api_keys;
  conversations =
      update_where (λ c. is_null c.model_id) (λ c. record c { model_id = some d.model_id })
        (update_where (λ c. is_null c.node_id)
          (λ c. record c { node_id = some d.id; model_id = some d.model_id }) s.conversations);
  api_requests =
      update_where (λ r. is_null r.node_id) (λ r. record r { node_id = some d.id }) s.api_requests;
}

abbrev pub serves : Text → Text → NodeModel → Bool
serves node_id model_id m = (m.node_id == node_id) && (m.model_id == model_id)

abbrev pub primary : (Text → Text) → Node → NodeModel
primary row_id n = record {
  id = row_id n.id;
  node_id = n.id;
  model_id = n.model_id;
  model_name = n.model_name;
  enabled = true;
  created_at = n.updated_at;
  updated_at = n.updated_at;
}

-- The nodes whose primary model has no row yet; `row_id` draws the new rows' random ids.
unfoldable pub missing_models : (Text → Text) → List NodeModel → List Node → List NodeModel
missing_models row_id have [] = []
missing_models row_id have (n ∷ ns) =
    if any (serves n.id n.model_id) have
    then missing_models row_id have ns
    else primary row_id n ∷ missing_models row_id have ns

abbrev pub register_models : (Text → Text) → Store → Store
register_models row_id s = record s {
  node_models = s.node_models ++ missing_models row_id s.node_models s.nodes;
}

unfoldable pub create_store : Vault → Text → (Text → Text) → DefaultNode → ℕ → Store → Result Store
unfolding upsert_default backfill missing_models
create_store v iv row_id d now s = do
  sealed ← encrypt_node_key v.cipher iv (some d.upstream_api_key) v.key
  nodes ← upsert_default d sealed now s.nodes
  ok (register_models row_id (backfill d (record s { nodes = nodes })))
