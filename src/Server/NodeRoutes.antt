-- ===== src/Server/NodeRoutes.antt =====
-- dashboard/src/server.js: the routes of the administrator that change a node. Each takes the store
-- to the store and the status of the reply; 500 is what Express makes of an exception.
pub mod Default
use swiftlm_platform.Base.{
  ℕ, Bool, true, false, not, ◌&&◌, ◌||◌, Option, none, some, List, [], ◌∷◌, Text, codes, ◌==◌,
  is_empty, or_else, trim, slice_to, if◌then◌else◌,
}
use swiftlm_platform.Store.{
  Store, Node, NodeModel, Result, ok, err, unique, Fault, find_node, Outcome,
}
use swiftlm_platform.Store.Nodes.{
  Vault, NodeInput, create_node, get_node, set_node_enabled, update_node_auth, public_columns,
}
use swiftlm_platform.Store.Models.{
  add_node_model, set_node_model_enabled, delete_node_model, Removal, removed, not_found,
  last_model,
}
use swiftlm_platform.Store.Deletion.{get_node_usage, is_used, delete_node}
use swiftlm_platform.Server.{Config}
use swiftlm_platform.Server.Input.{
  safe_node_id, AuthBody, Auth, AuthResult, accepted, refused, parse_auth_input, Url, NodeBody,
  NodeFields, read_node,
}

abbrev pub Handled : Type 0
Handled = Store × ℕ

abbrev pub has : {A : Type 0} → Option A → Bool
has none = false
has (some a) = true

abbrev pub node_input : Text → NodeFields → NodeInput
node_input id f = record {
  id = id;
  name = f.name;
  origin_base_url = f.origin_base_url;
  model_id = f.model_id;
  model_name = f.model_name;
  upstream_api_key = f.auth.credential;
  provider = f.provider;
  protocol = f.protocol;
  auth_type = f.auth.auth_type;
  auth_header = f.auth.auth_header;
  capabilities = none;
}

abbrev pub answer : {A : Type 0} → ℕ → ℕ → Outcome A → Handled
answer fine failed (s, ok a) = (s, fine)
answer fine failed (s, err e) = (s, failed)

abbrev pub add_fields : Config → Text → Text → Text → ℕ → Store → Option NodeFields → Handled
add_fields cfg id row_id iv now s none = (s, 400)
add_fields cfg id row_id iv now s (some f) =
    answer 201 409 (create_node cfg.vault iv row_id (node_input id f) now s)

-- POST /api/nodes: the identifiers and the `iv` are random.
unfoldable pub add_node :
    Config → (Text → Option Url) → Text → Text → Text → NodeBody → ℕ → Store → Handled
add_node cfg parse id row_id iv body now s =
    add_fields cfg id row_id iv now s (read_node parse (codes "bearer") body)

-- POST /api/nodes/:id/enabled
unfoldable pub enable_node : Config → Text → Bool → ℕ → Store → Handled
unfolding safe_node_id get_node set_node_enabled
enable_node cfg param enabled now s =
    let id = safe_node_id param in
    if not (has (get_node id s))
    then (s, 404)
    else if (id == cfg.default_node_id) && not enabled
    then (s, 400)
    else ((set_node_enabled id enabled now s).0, 200)

abbrev pub auth_default : Option Node → Text
auth_default none = codes "bearer"
auth_default (some n) = or_else n.auth_type (codes "bearer")

abbrev pub store_auth : Config → Text → Text → AuthResult → ℕ → Store → Handled
store_auth cfg iv id (refused e) now s = (s, 400)
store_auth cfg iv id (accepted a) now s =
    answer 200 500 (update_node_auth cfg.vault iv id a.auth_type a.auth_header a.credential now s)

-- PATCH /api/nodes/:id/auth and /api/nodes/:id/upstream-key
unfoldable pub change_auth : Config → Text → Text → AuthBody → ℕ → Store → Handled
unfolding safe_node_id get_node parse_auth_input
change_auth cfg iv param body now s =
    let id = safe_node_id param in
    if id == cfg.default_node_id
    then (s, 400)
    else if not (has (get_node id s))
    then (s, 404)
    else store_auth cfg iv id (parse_auth_input body (auth_default (get_node id s))) now s

abbrev deletion_reply : Outcome Bool → Handled
deletion_reply (s, ok deleted) = (s, if deleted then 200 else 409)
deletion_reply (s, err e) = (s, 500)

-- DELETE /api/nodes/:id
unfoldable pub remove_node : Config → Text → Bool → Store → Handled
unfolding safe_node_id get_node get_node_usage delete_node
remove_node cfg param purge s =
    let id = safe_node_id param in
    if id == cfg.default_node_id
    then (s, 400)
    else if not (has (get_node id s))
    then (s, 404)
    else if is_used (get_node_usage id s) && not purge
    then (s, 409)
    else deletion_reply (delete_node id purge s)

-- POST /api/nodes/:id/models
unfoldable pub add_model : Text → Text → Text → Text → ℕ → Store → Handled
unfolding safe_node_id get_node add_node_model trim
add_model row_id param model_id model_name now s =
    let id = safe_node_id param in
    let model = slice_to 240 (trim model_id) in
    let name = slice_to 120 (trim (or_else model_name model)) in
    if not (has (get_node id s))
    then (s, 404)
    else if is_empty model
    then (s, 400)
    else answer 201 409 (add_node_model row_id id model name now s)

-- PATCH /api/nodes/:id/models/:modelRowId/enabled
unfoldable pub enable_model : Text → Text → Bool → ℕ → Store → Handled
unfolding safe_node_id get_node set_node_model_enabled
enable_model param row_id enabled now s =
    let id = safe_node_id param in
    if not (has (get_node id s)) then (s, 404) else (
      (set_node_model_enabled id row_id enabled now s).0,
      if (set_node_model_enabled id row_id enabled now s).1 then 200 else 404,
    )

abbrev removal_status : Removal → ℕ
removal_status removed = 200
removal_status not_found = 404
removal_status last_model = 409

-- DELETE /api/nodes/:id/models/:modelRowId
unfoldable pub remove_model : Text → Text → Store → Handled
unfolding safe_node_id get_node delete_node_model
remove_model param row_id s =
    let id = safe_node_id param in
    if not (has (get_node id s))
    then (s, 404)
    else ((delete_node_model id row_id s).0, removal_status (delete_node_model id row_id s).1)
