-- ===== src/Store/Upgrade.antt =====
-- What holds once `createStore` of dashboard/src/db.js has run.
use swiftlm_platform.Base.{
  ℕ, ◌≡◌, ◌≢◌, refl, true, ◌||◌, Option, none, some, List, [], ◌∷◌, Text, ◌==◌, any, update_where,
  arith, Bool-cases, inl, inr, All, ◌∙◌, All-imp, any-append,
}
use swiftlm_platform.Store.{
  Store, Node, NodeModel, ApiKey, Conversation, ok, Result-cases, has_node, find_node,
}
use swiftlm_platform.Store.Secrets.{encrypt_node_key}
use swiftlm_platform.Store.Nodes.{Vault}
use swiftlm_platform.Store.Startup.{
  DefaultNode, upsert_default, backfill, missing_models, create_store, serves, is_null, refreshed,
  register_models,
}

-- A start that succeeds encrypts the credential and refreshes the nodes.
started :
    (v : Vault) (iv : Text) (row_id : Text → Text) (d : DefaultNode) (now : ℕ) (s s' : Store)
    → create_store v iv row_id d now s ≡ ok s'
    → (sealed : Option Text) × (nodes : List Node) × (upsert_default d sealed now s.nodes
        ≡ ok nodes)
      × (s' ≡ register_models row_id (backfill d (record s { nodes = nodes })))
unfolding create_store
started v iv row_id d now s s' e =
    elim (Result-cases (encrypt_node_key v.cipher iv (some d.upstream_api_key) v.key)) [
      | inl (x, f) ↦ absurd (ground arith)
      | inr (sealed, f) ↦ elim (Result-cases (upsert_default d sealed now s.nodes)) [
        | inl (x, g) ↦ absurd (ground arith)
        | inr (nodes, g) ↦ (sealed, nodes, g, ground arith)
      ]
    ]

covered :
    (row_id : Text → Text) (have : List NodeModel) (ns : List Node)
    → All
        (λ n.
          (any (serves n.id n.model_id) have
            || any (serves n.id n.model_id) (missing_models row_id have ns))
          ≡ true)
        ns
unfolding missing_models
covered row_id have [] = tt
covered row_id have (n ∷ ns) = elim (Bool-cases (any (serves n.id n.model_id) have)) [
  | inl e ↦ (ground arith, All-imp _ _ ns (λ m h. ground arith) (covered row_id have ns))
  | inr e ↦ (ground arith, All-imp _ _ ns (λ m h. ground arith) (covered row_id have ns))
]

-- Once the dashboard has started, every node has a row for its primary model.
pub create_store_registers :
    (v : Vault) (iv : Text) (row_id : Text → Text) (d : DefaultNode) (now : ℕ) (s s' : Store)
    → create_store v iv row_id d now s ≡ ok s'
    → All (λ n. any (serves n.id n.model_id) s'.node_models ≡ true) s'.nodes
unfolding backfill
create_store_registers v iv row_id d now s s' e =
    let (sealed, nodes, _, same) = started v iv row_id d now s s' e in
    rw same (
      All-imp _ _ nodes
        (λ n h.
          any-append (serves n.id n.model_id) s.node_models
            (missing_models row_id s.node_models nodes)
          ∙ h)
        (covered row_id s.node_models nodes))

no_null_keys :
    (d : DefaultNode) (ks : List ApiKey)
    → All
        (λ k. k.node_id ≢ none)
        (update_where (λ k. is_null k.node_id) (λ k. record k { node_id = some d.id }) ks)
no_null_keys d [] = tt
no_null_keys d (k ∷ ks) = (ground arith, no_null_keys d ks)

no_null_targets :
    (d : DefaultNode) (cs : List Conversation)
    → All
        (λ c. (c.node_id ≢ none) × (c.model_id ≢ none))
        (update_where
          (λ c. is_null c.model_id)
          (λ c. record c { model_id = some d.model_id })
          (update_where
            (λ c. is_null c.node_id)
            (λ c. record c { node_id = some d.id; model_id = some d.model_id })
            cs))
no_null_targets d [] = tt
no_null_targets d (c ∷ cs) = ((ground arith, ground arith), no_null_targets d cs)

-- A start leaves no key without a node and no conversation without a node and a model, however
-- old the database is.
pub create_store_backfills :
    (v : Vault) (iv : Text) (row_id : Text → Text) (d : DefaultNode) (now : ℕ) (s s' : Store)
    → create_store v iv row_id d now s ≡ ok s'
    → All (λ k. k.node_id ≢ none) s'.api_keys
      × All (λ c. (c.node_id ≢ none) × (c.model_id ≢ none)) s'.conversations
unfolding backfill
create_store_backfills v iv row_id d now s s' e =
    let (sealed, nodes, _, same) = started v iv row_id d now s s' e in
    rw same (no_null_keys d s.api_keys, no_null_targets d s.conversations)

kept_credential :
    (d : DefaultNode) (sealed : Option Text) (now : ℕ) (old : Text) (ns : List Node) (n : Node)
    → find_node d.id ns ≡ some n
    → n.upstream_api_key ≡ some old
    → find_node d.id (update_where (λ m. m.id == d.id) (refreshed d sealed now) ns)
      ≡ some (refreshed d sealed now n)
kept_credential d sealed now old [] n e k = cc
kept_credential d sealed now old (m ∷ ms) n e k =
    ground (arith, kept_credential d sealed now old ms n)

found_has :
    (id : Text) (ns : List Node) (n : Node) → find_node id ns ≡ some n → has_node id ns ≡ true
found_has id [] n e = cc
found_has id (m ∷ ms) n e = ground (arith, found_has id ms n)

-- A start with a new upstream credential keeps the stored one: once the default node has a
-- credential, the environment's replaces its name, address and model, and never its key.
pub create_store_keeps_credential :
    (v : Vault) (iv : Text) (row_id : Text → Text) (d : DefaultNode) (now : ℕ) (s s' : Store)
    (old : Text) (n : Node)
    → create_store v iv row_id d now s ≡ ok s'
    → find_node d.id s.nodes ≡ some n
    → n.upstream_api_key ≡ some old
    → (n' : Node) × (find_node d.id s'.nodes ≡ some n')
      × (n'.upstream_api_key ≡ some old)
      × (n'.origin_base_url ≡ d.origin_base_url)
      × (n'.name ≡ d.name)
      × (n'.model_id ≡ d.model_id)
      × (n'.model_name ≡ d.model_name)
unfolding upsert_default
create_store_keeps_credential v iv row_id d now s s' old n e f k =
    let (sealed, nodes, up, same) = started v iv row_id d now s s' e in
    let has = found_has d.id s.nodes n f in
    let kept = kept_credential d sealed now old s.nodes n f k in
    (
      refreshed d sealed now n,
      rw same (unfold backfill in ground arith),
      ground arith,
      refl,
      refl,
      refl,
      refl,
    )
