-- ===== src/Server/NodeRoutes/Default.antt =====
-- The default node of dashboard/src/server.js: what the routes may not do to it.
use swiftlm_platform.Base.{
  ℕ, ◌≡◌, ◌≢◌, refl, ap, ◌∙◌, ◌⊎◌, inl, inr, Bool, true, not, Option, none, some, List, [], ◌∷◌,
  ◌++◌, Text, codes, ◌==◌, filter, update_where, if◌then◌else◌, arith,
}
use swiftlm_platform.Store.{Store, Node, ok, err, find_node, Outcome, Result-cases, or_null?}
use swiftlm_platform.Store.Nodes.{
  Vault, NodeInput, create_node, insert_with_model, insert_node, insert_node_model, node_row,
  get_node, set_node_enabled, update_node_auth, stored_credential,
}
use swiftlm_platform.Store.Secrets.{encrypt_node_key}
use swiftlm_platform.Store.Models.{add_node_model, set_node_model_enabled, delete_node_model}
use swiftlm_platform.Store.Deletion.{delete_node, delete_node_row}
use swiftlm_platform.Server.{Config}
use swiftlm_platform.Server.Input.{
  AuthBody, Url, NodeBody, NodeFields, read_node, AuthResult, accepted, refused, parse_auth_input,
  safe_node_id,
}
use swiftlm_platform.Server.NodeRoutes.{
  Handled, add_node, enable_node, change_auth, remove_node, add_model, enable_model, remove_model,
  node_input, add_fields, store_auth, answer, auth_default,
}

-- A request to one of the routes that change nodes, with what its handler draws or reads.
pub data NodeRequest : Type 0 where
  add : (Text → Option Url) → Text → Text → Text → NodeBody → ℕ → NodeRequest
  enable : Text → Bool → ℕ → NodeRequest
  auth : Text → Text → AuthBody → ℕ → NodeRequest
  remove : Text → Bool → NodeRequest
  more_models : Text → Text → Text → Text → ℕ → NodeRequest
  model_enabled : Text → Text → Bool → ℕ → NodeRequest
  fewer_models : Text → Text → NodeRequest

abbrev pub serve : Config → NodeRequest → Store → Handled
serve cfg (add parse id row_id iv body now) s = add_node cfg parse id row_id iv body now s
serve cfg (enable param enabled now) s = enable_node cfg param enabled now s
serve cfg (auth iv param body now) s = change_auth cfg iv param body now s
serve cfg (remove param purge) s = remove_node cfg param purge s
serve cfg (more_models row_id param model name now) s = add_model row_id param model name now s
serve cfg (model_enabled param row_id enabled now) s = enable_model param row_id enabled now s
serve cfg (fewer_models param row_id) s = remove_model param row_id s

-- The node stands in the table, enabled, with this strategy and this stored credential.
abbrev pub Serves : Text → Text → Option Text → List Node → Type 0
Serves id auth_type credential ns =
    (n : Node) × (find_node id ns ≡ some n)
    × (n.enabled ≡ true)
    × (n.auth_type ≡ auth_type)
    × (n.upstream_api_key ≡ credential)

find_node-append :
    (id : Text) (ns : List Node) (m n : Node)
    → find_node id ns ≡ some n
    → find_node id (ns ++ (m ∷ [])) ≡ some n
find_node-append id (k ∷ ks) m n e = ground (arith, find_node-append id ks m n)
find_node-append id [] m n e = ground arith

find_node-filter :
    (id other : Text) (ns : List Node)
    → find_node id (filter (λ n. not (n.id == other)) ns)
      ≡ (if other == id then none else find_node id ns)
find_node-filter id other [] = ground arith
find_node-filter id other (k ∷ ks) = ground (arith, find_node-filter id other ks)

abbrev changed : (Node → Node) → Option Node → Option Node
changed f none = none
changed f (some n) = some (f n)

find_node-update_where :
    (id other : Text) (f : Node → Node) (ns : List Node)
    → ((m : Node) → (f m).id ≡ m.id)
    → find_node id (update_where (λ m. m.id == other) f ns)
      ≡ (if other == id then changed f (find_node id ns) else find_node id ns)
find_node-update_where id other f [] same = ground arith
find_node-update_where id other f (m ∷ ms) same =
    ground (arith, same m, find_node-update_where id other f ms same)

Serves-by :
    (id a : Text) (c : Option Text) (ns ms : List Node)
    → find_node id ms ≡ find_node id ns
    → Serves id a c ns
    → Serves id a c ms
Serves-by id a c ns ms e (n, found, on, strategy, key) = (n, e ∙ found, on, strategy, key)

find_node-enable :
    (cfg : Config) (param : Text) (enabled : Bool) (now : ℕ) (s : Store) (n : Node)
    → find_node cfg.default_node_id s.nodes ≡ some n
    → n.enabled ≡ true
    → (find_node cfg.default_node_id (enable_node cfg param enabled now s).0.nodes ≡ some n)
      ⊎ (find_node cfg.default_node_id (enable_node cfg param enabled now s).0.nodes
          ≡ some (record n { enabled = true; updated_at = now }))
unfolding enable_node set_node_enabled
find_node-enable cfg param enabled now s n e on = ground (
  arith,
  find_node-update_where cfg.default_node_id (safe_node_id param)
      (λ m. record m { enabled = enabled; updated_at = now }) s.nodes (λ m. refl),
)

enable_node-Serves :
    (cfg : Config) (a : Text) (c : Option Text) (param : Text) (enabled : Bool) (now : ℕ)
    (s : Store)
    → Serves cfg.default_node_id a c s.nodes
    → Serves cfg.default_node_id a c (enable_node cfg param enabled now s).0.nodes
enable_node-Serves cfg a c param enabled now s (n, found, on, strategy, key) =
    elim (find_node-enable cfg param enabled now s n found on) [
      | inl e ↦ (n, e, on, strategy, key)
      | inr e ↦ (record n { enabled = true; updated_at = now }, e, refl, strategy, key)
    ]

find_node-store_auth :
    (cfg : Config) (iv id : Text) (r : AuthResult) (now : ℕ) (s : Store)
    → cfg.default_node_id ≢ id
    → find_node cfg.default_node_id (store_auth cfg iv id r now s).0.nodes
      ≡ find_node cfg.default_node_id s.nodes
unfolding update_node_auth
find_node-store_auth cfg iv id (refused e) now s ne = refl
find_node-store_auth cfg iv id (accepted a) now s ne =
    elim (Result-cases (stored_credential cfg.vault iv a.auth_type a.credential)) [
      | inl (f, q) ↦ ground arith
      | inr (sealed, q) ↦ ground (
        arith,
        find_node-update_where cfg.default_node_id id
            (λ n. record n {
              auth_type = a.auth_type;
              auth_header = or_null? a.auth_header;
              upstream_api_key = sealed;
              updated_at = now;
            })
            s.nodes (λ m. refl),
      )
    ]

find_node-change_auth :
    (cfg : Config) (iv param : Text) (body : AuthBody) (now : ℕ) (s : Store)
    → find_node cfg.default_node_id (change_auth cfg iv param body now s).0.nodes
      ≡ find_node cfg.default_node_id s.nodes
unfolding change_auth
find_node-change_auth cfg iv param body now s =
    let id = safe_node_id param in
    ground (
      arith,
      find_node-store_auth cfg iv id (parse_auth_input body (auth_default (get_node id s))) now s,
    )

find_node-remove_node :
    (cfg : Config) (param : Text) (purge : Bool) (s : Store)
    → find_node cfg.default_node_id (remove_node cfg param purge s).0.nodes
      ≡ find_node cfg.default_node_id s.nodes
unfolding remove_node delete_node delete_node_row
find_node-remove_node cfg param purge s =
    ground (arith, find_node-filter cfg.default_node_id (safe_node_id param) s.nodes)

nodes-add_model :
    (row_id param model name : Text) (now : ℕ) (s : Store)
    → (add_model row_id param model name now s).0.nodes ≡ s.nodes
unfolding add_model add_node_model insert_node_model
nodes-add_model row_id param model name now s = ground arith

nodes-enable_model :
    (param row_id : Text) (enabled : Bool) (now : ℕ) (s : Store)
    → (enable_model param row_id enabled now s).0.nodes ≡ s.nodes
unfolding enable_model set_node_model_enabled
nodes-enable_model param row_id enabled now s = ground arith

nodes-remove_model :
    (param row_id : Text) (s : Store) → (remove_model param row_id s).0.nodes ≡ s.nodes
unfolding remove_model delete_node_model
nodes-remove_model param row_id s = ground arith

-- An insertion of a node, whether it succeeds or throws, leaves every node found before as it was.
find_node-create_node :
    (v : Vault) (iv row_id : Text) (i : NodeInput) (now : ℕ) (s : Store) (id : Text) (n : Node)
    → find_node id s.nodes ≡ some n
    → find_node id (create_node v iv row_id i now s).0.nodes ≡ some n
unfolding create_node insert_with_model insert_node insert_node_model
find_node-create_node v iv row_id i now s id n e =
    elim (Result-cases (encrypt_node_key v.cipher iv i.upstream_api_key v.key)) [
      | inl (f, q) ↦ ground arith
      | inr (sealed, q) ↦ ground (arith, find_node-append id s.nodes (node_row i sealed now) n e)
    ]

store-answer :
    {A : Type 0} (k : Text) (fine failed : ℕ) (o : Outcome A)
    → find_node k (answer fine failed o).0.nodes ≡ find_node k o.0.nodes
store-answer k fine failed (s, ok a) = refl
store-answer k fine failed (s, err e) = refl

find_node-add_fields :
    (cfg : Config) (id row_id iv : Text) (now : ℕ) (s : Store) (r : Option NodeFields) (k : Text)
    (n : Node)
    → find_node k s.nodes ≡ some n
    → find_node k (add_fields cfg id row_id iv now s r).0.nodes ≡ some n
find_node-add_fields cfg id row_id iv now s none k n e = e
find_node-add_fields cfg id row_id iv now s (some f) k n e =
    store-answer k 201 409 (create_node cfg.vault iv row_id (node_input id f) now s)
    ∙ find_node-create_node cfg.vault iv row_id (node_input id f) now s k n e

find_node-add_node :
    (cfg : Config) (parse : Text → Option Url) (id row_id iv : Text) (body : NodeBody) (now : ℕ)
    (s : Store) (k : Text) (n : Node)
    → find_node k s.nodes ≡ some n
    → find_node k (add_node cfg parse id row_id iv body now s).0.nodes ≡ some n
unfolding add_node
find_node-add_node cfg parse id row_id iv body now s k n e =
    find_node-add_fields cfg id row_id iv now s (read_node parse (codes "bearer") body) k n e

-- No request to the routes of nodes unregisters the default node, disables it, or changes its
-- strategy of authentication or its stored credential.
pub serve-Serves :
    (cfg : Config) (a : Text) (c : Option Text) (r : NodeRequest) (s : Store)
    → Serves cfg.default_node_id a c s.nodes
    → Serves cfg.default_node_id a c (serve cfg r s).0.nodes
serve-Serves cfg a c (add parse id row_id iv body now) s (n, found, on, strategy, key) =
    (n, find_node-add_node cfg parse id row_id iv body now s _ n found, on, strategy, key)
serve-Serves cfg a c (enable param enabled now) s w =
    enable_node-Serves cfg a c param enabled now s w
serve-Serves cfg a c (auth iv param body now) s w =
    Serves-by _ a c s.nodes _ (find_node-change_auth cfg iv param body now s) w
serve-Serves cfg a c (remove param purge) s w =
    Serves-by _ a c s.nodes _ (find_node-remove_node cfg param purge s) w
serve-Serves cfg a c (more_models row_id param model name now) s w =
    Serves-by _ a c s.nodes _ (ap (find_node _) (nodes-add_model row_id param model name now s)) w
serve-Serves cfg a c (model_enabled param row_id enabled now) s w =
    Serves-by _ a c s.nodes _ (ap (find_node _) (nodes-enable_model param row_id enabled now s)) w
serve-Serves cfg a c (fewer_models param row_id) s w =
    Serves-by _ a c s.nodes _ (ap (find_node _) (nodes-remove_model param row_id s)) w
