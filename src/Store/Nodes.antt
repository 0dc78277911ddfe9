-- ===== src/Store/Nodes.antt =====
-- dashboard/src/db.js: the operations on the table `nodes`, but for the deletion.
use swiftlm_platform.Base.{
  ℕ, Bool, true, not, ◌&&◌, ◌||◌, Option, none, some, List, [], ◌∷◌, ◌++◌, map, Text, codes, ◌==◌,
  any, order_by, update_where, if◌then◌else◌,
}
use swiftlm_platform.Store.{
  Store, Node, NodeModel, Result, ok, err, unique, foreign_key, Outcome, then_do, has_node,
  find_node, coalesce, or_null?,
}
use swiftlm_platform.Store.Secrets.{Cipher, encrypt_node_key, decrypt_node_key}

-- The cipher and the key made from the server's secret.
pub record Vault : Type 0 where
  pub cipher : Cipher
  pub key : Option Text

pub record NodeInput : Type 0 where
  pub id : Text
  pub name : Text
  pub origin_base_url : Text
  pub model_id : Text
  pub model_name : Text
  pub upstream_api_key : Option Text
  pub provider : Text
  pub protocol : Text
  pub auth_type : Text
  pub auth_header : Option Text
  pub capabilities : Option Text

unfoldable pub insert_node : Node → Store → Result Store
insert_node n s =
    if any (λ m. (m.id == n.id) || (m.origin_base_url == n.origin_base_url)) s.nodes
    then err unique
    else ok (record s { nodes = s.nodes ++ (n ∷ []) })

unfoldable pub insert_node_model : NodeModel → Store → Result Store
insert_node_model r s =
    if any (λ m. (m.id == r.id) || ((m.node_id == r.node_id) && (m.model_id == r.model_id)))
      s.node_models
    then err unique
    else if not (has_node r.node_id s.nodes)
    then err foreign_key
    else ok (record s { node_models = s.node_models ++ (r ∷ []) })

abbrev pub node_row : NodeInput → Option Text → ℕ → Node
node_row i sealed now = record {
  id = i.id;
  name = i.name;
  origin_base_url = i.origin_base_url;
  model_id = i.model_id;
  model_name = i.model_name;
  provider = i.provider;
  protocol = i.protocol;
  auth_type = i.auth_type;
  auth_header = or_null? i.auth_header;
  capabilities = i.capabilities;
  upstream_api_key = sealed;
  node_secret = none;
  enabled = true;
  enrolled_at = none;
  last_heartbeat_at = none;
  agent_version = none;
  created_at = now;
  updated_at = now;
}

abbrev pub primary_row : Text → NodeInput → ℕ → NodeModel
primary_row row_id i now = record {
  id = row_id;
  node_id = i.id;
  model_id = i.model_id;
  model_name = i.model_name;
  enabled = true;
  created_at = now;
  updated_at = now;
}

-- The columns that a client may see: the credentials read as NULL.
abbrev pub public_columns : Node → Node
public_columns n = record n { upstream_api_key = none; node_secret = none }

-- The two inserts are no transaction: the first stays if the second throws.
unfoldable pub insert_with_model : Text → NodeInput → Option Text → ℕ → Store → Outcome Node
insert_with_model row_id i sealed now s = then_do s (insert_node (node_row i sealed now) s) λ s₁.
    then_do s₁ (insert_node_model (primary_row row_id i now) s₁)
      λ s₂. (s₂, ok (public_columns (node_row i sealed now)))

unfoldable pub create_node : Vault → Text → Text → NodeInput → ℕ → Store → Outcome Node
create_node v iv row_id i now s = elim (encrypt_node_key v.cipher iv i.upstream_api_key v.key) [
  | err e ↦ (s, err e)
  | ok sealed ↦ insert_with_model row_id i sealed now s
]

unfoldable pub list_nodes : Store → List Node
list_nodes s = map public_columns (order_by (λ n. n.created_at) s.nodes)

abbrev node_map : (Node → Node) → Option Node → Option Node
node_map f none = none
node_map f (some n) = some (f n)

unfoldable pub get_node : Text → Store → Option Node
get_node id s = node_map public_columns (find_node id s.nodes)

abbrev pub decrypted : Vault → Node → Node
decrypted v n = record n {
  upstream_api_key = decrypt_node_key v.cipher n.upstream_api_key v.key;
  node_secret = decrypt_node_key v.cipher n.node_secret v.key;
}

unfoldable pub get_node_for_proxy : Vault → Text → Store → Option Node
get_node_for_proxy v id s = node_map (decrypted v) (find_node id s.nodes)

-- `UPDATE nodes SET … WHERE id = ?`, and whether a row changed.
abbrev pub update_node : Text → (Node → Node) → Store → Store × Bool
update_node id f s =
    (record s { nodes = update_where (λ n. n.id == id) f s.nodes }, has_node id s.nodes)

unfoldable pub set_node_secret : Vault → Text → Text → Text → ℕ → Store → Outcome Bool
set_node_secret v iv id secret now s = elim (encrypt_node_key v.cipher iv (some secret) v.key) [
  | err e ↦ (s, err e)
  | ok sealed ↦
      let (s', changed) =
        update_node id
          (λ n. record n { node_secret = sealed; enrolled_at = some now; updated_at = now }) s in
      (s', ok changed)
]

-- A heartbeat that reports no capabilities or version keeps what is there.
unfoldable pub record_heartbeat : Text → Option Text → Option Text → ℕ → Store → Store × Bool
record_heartbeat id agent_version capabilities now s =
    update_node id
      (λ n. record n {
        last_heartbeat_at = some now;
        agent_version = coalesce (or_null? agent_version) n.agent_version;
        capabilities = coalesce capabilities n.capabilities;
        updated_at = now;
      })
      s

unfoldable pub set_node_enabled : Text → Bool → ℕ → Store → Store × Bool
set_node_enabled id enabled now s =
    update_node id (λ n. record n { enabled = enabled; updated_at = now }) s

unfoldable pub update_node_upstream_key :
    Vault → Text → Text → Option Text → ℕ → Store → Outcome Bool
update_node_upstream_key v iv id key now s = elim (encrypt_node_key v.cipher iv key v.key) [
  | err e ↦ (s, err e)
  | ok sealed ↦
      let (s', changed) =
        update_node id (λ n. record n { upstream_api_key = sealed; updated_at = now }) s in
      (s', ok changed)
]

-- The strategy "none" clears the credential.
unfoldable pub stored_credential : Vault → Text → Text → Option Text → Result (Option Text)
stored_credential v iv auth_type key =
    if auth_type == codes "none" then ok none else encrypt_node_key v.cipher iv key v.key

unfoldable pub update_node_auth :
    Vault → Text → Text → Text → Option Text → Option Text → ℕ → Store → Outcome Bool
update_node_auth v iv id auth_type auth_header key now s =
    elim (stored_credential v iv auth_type key) [
      | err e ↦ (s, err e)
      | ok sealed ↦
          let (s', changed) =
            update_node id
              (λ n. record n {
                auth_type = auth_type;
                auth_header = or_null? auth_header;
                upstream_api_key = sealed;
                updated_at = now;
              })
              s in
          (s', ok changed)
    ]
