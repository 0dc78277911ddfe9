-- ===== src/Store/Serving/Creation.antt =====
-- New nodes and new models keep every node of dashboard/src/db.js with a model.
use swiftlm_platform.Base.{
  ℕ, ◌≡◌, refl, Bool, true, false, ◌&&◌, ◌||◌, Option, List, [], ◌∷◌, ◌++◌, Text, ◌==◌, any, arith,
  Bool-cases, inl, inr, All-imp, All-append, All-update_where, any-update_where-true, any-append,
  any-imp,
}
use swiftlm_platform.Store.{Store, Node, NodeModel, ok, Result-cases, has_node}
use swiftlm_platform.Store.Secrets.{encrypt_node_key}
use swiftlm_platform.Store.Nodes.{
  Vault, NodeInput, node_row, primary_row, insert_node, insert_node_model, insert_with_model,
  create_node,
}
use swiftlm_platform.Store.Models.{add_node_model, set_node_model_enabled, is_row, model_row}
use swiftlm_platform.Store.Serving.{IsServing, Owned, Served-more, Owned-more}

pub owner_of_row :
    (id model_id : Text) (ns : List Node) (ms : List NodeModel)
    → Owned ns ms
    → any (λ m. (m.node_id == id) && (m.model_id == model_id)) ms ≡ true
    → has_node id ns ≡ true
owner_of_row id model_id ns [] h e = absurd (ground arith)
owner_of_row id model_id ns (m ∷ ms) h e = ground (arith, owner_of_row id model_id ns ms h.1)

pub clash :
    (row_id id model_id : Text) (ns : List Node) (ms : List NodeModel)
    → Owned ns ms
    → any (λ m. m.id == row_id) ms ≡ false
    → has_node id ns ≡ false
    → any (λ m. (m.id == row_id) || ((m.node_id == id) && (m.model_id == model_id))) ms ≡ false
clash row_id id model_id ns [] h e f = refl
clash row_id id model_id ns (m ∷ ms) h e f = ground (arith, clash row_id id model_id ns ms h.1)

-- The row of a new node, and then the row of its primary model.
pub add_node-IsServing :
    (n : Node) (m : NodeModel) (s : Store)
    → m.node_id ≡ n.id
    → IsServing s
    → IsServing (record s { nodes = s.nodes ++ (n ∷ []); node_models = s.node_models ++ (m ∷ []) })
add_node-IsServing n m s same v = record {
  served =
      All-append _ s.nodes (n ∷ []) (Served-more s.node_models (m ∷ []) s.nodes v.served)
        (ground (arith, any-append (λ r. r.node_id == n.id) s.node_models (m ∷ [])));
  owned =
      All-append _ s.node_models (m ∷ []) (Owned-more s.nodes (n ∷ []) s.node_models v.owned)
        (ground (arith, any-append (λ r. r.id == m.node_id) s.nodes (n ∷ [])));
}

pub no_node_of_insert :
    (n : Node) (s s' : Store)
    → insert_node n s ≡ ok s'
    → (has_node n.id s.nodes ≡ false) × (s' ≡ record s { nodes = s.nodes ++ (n ∷ []) })
unfolding insert_node
no_node_of_insert n s s' e = elim (Bool-cases (has_node n.id s.nodes)) [
  | inl h ↦
      let taken =
        any-imp (λ m. m.id == n.id)
          (λ m. (m.id == n.id) || (m.origin_base_url == n.origin_base_url)) s.nodes
          (λ m k. ground arith) h in
      absurd (ground arith)
  | inr h ↦ (h, ground arith)
]

pub insert_row_of_new :
    (row_id : Text) (i : NodeInput) (now : ℕ) (n : Node) (s : Store)
    → n.id ≡ i.id
    → IsServing s
    → any (λ m. m.id == row_id) s.node_models ≡ false
    → has_node i.id s.nodes ≡ false
    → insert_node_model (primary_row row_id i now) (record s { nodes = s.nodes ++ (n ∷ []) })
      ≡ ok (record s {
        nodes = s.nodes ++ (n ∷ []);
        node_models = s.node_models ++ (primary_row row_id i now ∷ []);
      })
unfolding insert_node_model
insert_row_of_new row_id i now n s same v new none_yet = ground (
  arith,
  clash row_id i.id i.model_id s.nodes s.node_models v.owned new none_yet,
  any-append (λ r. r.id == i.id) s.nodes (n ∷ []),
)

pub insert_with_model-IsServing :
    (row_id : Text) (i : NodeInput) (sealed : Option Text) (now : ℕ) (s : Store)
    → any (λ m. m.id == row_id) s.node_models ≡ false
    → IsServing s
    → IsServing (insert_with_model row_id i sealed now s).0
unfolding insert_with_model
insert_with_model-IsServing row_id i sealed now s new h =
    elim (Result-cases (insert_node (node_row i sealed now) s)) [
      | inl (x, e) ↦ rw e h
      | inr (s₁, e) ↦
          let (none_yet, same) = no_node_of_insert (node_row i sealed now) s s₁ e in
          rw (e, same, insert_row_of_new row_id i now (node_row i sealed now) s refl h new none_yet)
            (add_node-IsServing (node_row i sealed now) (primary_row row_id i now) s refl h)
    ]

pub create_node-IsServing :
    (v : Vault) (iv row_id : Text) (i : NodeInput) (now : ℕ) (s : Store)
    → any (λ m. m.id == row_id) s.node_models ≡ false
    → IsServing s
    → IsServing (create_node v iv row_id i now s).0
unfolding create_node
create_node-IsServing v iv row_id i now s new h =
    elim (Result-cases (encrypt_node_key v.cipher iv i.upstream_api_key v.key)) [
      | inl (x, e) ↦ rw (e, create_node) h
      | inr (sealed, e) ↦
          rw (e, create_node) (insert_with_model-IsServing row_id i sealed now s new h)
    ]

pub insert_row-IsServing :
    (m : NodeModel) (s s' : Store) → insert_node_model m s ≡ ok s' → IsServing s → IsServing s'
unfolding insert_node_model
insert_row-IsServing m s s' e v =
    let same : s' ≡ record s { node_models = s.node_models ++ (m ∷ []) } = ground arith in
    let owner : has_node m.node_id s.nodes ≡ true = ground arith in
    rw same (record {
      served = Served-more s.node_models (m ∷ []) s.nodes v.served;
      owned = All-append _ s.node_models (m ∷ []) v.owned (owner, tt);
    })

pub add_node_model-IsServing :
    (row_id node_id model_id model_name : Text) (now : ℕ) (s : Store)
    → IsServing s
    → IsServing (add_node_model row_id node_id model_id model_name now s).0
unfolding add_node_model
add_node_model-IsServing row_id node_id model_id model_name now s v =
    elim (Result-cases (insert_node_model (model_row row_id node_id model_id model_name now) s)) [
      | inl (x, e) ↦ rw e v
      | inr (s', e) ↦ rw e (insert_row-IsServing _ s s' e v)
    ]

pub set_node_model_enabled-IsServing :
    (node_id row_id : Text) (enabled : Bool) (now : ℕ) (s : Store)
    → IsServing s
    → IsServing (set_node_model_enabled node_id row_id enabled now s).0
unfolding set_node_model_enabled
set_node_model_enabled-IsServing node_id row_id enabled now s v = record {
  served =
      All-imp _ _ s.nodes
        (λ n h.
          any-update_where-true (λ m. m.node_id == n.id) (is_row row_id node_id) _ s.node_models
            (λ m e. e) h)
        v.served;
  owned = All-update_where _ (is_row row_id node_id) _ s.node_models (λ m h. h) v.owned;
}
