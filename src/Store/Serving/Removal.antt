-- ===== src/Store/Serving/Removal.antt =====
-- Removing a model or a node keeps every node of dashboard/src/db.js with a model.
use swiftlm_platform.Base.{
  ◌≡◌, sym, ◌∙◌, Bool, true, false, not, ◌&&◌, List, [], ◌∷◌, Text, ◌==◌, any, filter,
  text_discrete, arith, ◌⊎◌, inl, inr, All-imp, All-filter_imp, any-filter-true, any-filter,
  any-order_by, any-imp,
}
use swiftlm_platform.Store.{Store, NodeModel}
use swiftlm_platform.Store.Deletion.{delete_node, without_node}
use swiftlm_platform.Store.Models.{delete_node_model, list_node_models, is_row, is_nil}
use swiftlm_platform.Store.Serving.{IsServing, without_node-IsServing, IsServing-same}

pub any_of_not_nil :
    (p : NodeModel → Bool) (ms : List NodeModel) → is_nil (filter p ms) ≡ false → any p ms ≡ true
any_of_not_nil p [] h = cc
any_of_not_nil p (m ∷ ms) h = ground (arith, any_of_not_nil p ms)

-- The guard of the deletion: another row of the node is left.
pub other_row :
    (node_id row_id : Text) (s : Store)
    → is_nil (filter (λ m. not (m.id == row_id)) (list_node_models node_id s)) ≡ false
    → any (λ m. (m.node_id == node_id) && not (m.id == row_id)) s.node_models ≡ true
unfolding list_node_models
other_row node_id row_id s h =
    sym (any-filter (λ m. not (m.id == row_id)) (λ m. m.node_id == node_id) s.node_models)
    ∙ sym (any-order_by (λ m. m.created_at) _ (filter (λ m. m.node_id == node_id) s.node_models))
    ∙ any_of_not_nil (λ m. not (m.id == row_id)) (list_node_models node_id s) h

pub delete_row-IsServing :
    (node_id row_id : Text) (s : Store)
    → any (λ m. (m.node_id == node_id) && not (m.id == row_id)) s.node_models ≡ true
    → IsServing s
    → IsServing
        (record s { node_models = filter (λ m. not (is_row row_id node_id m)) s.node_models })
delete_row-IsServing node_id row_id s other v = record {
  served =
      All-imp _ _ s.nodes
        (λ n h. elim (text_discrete n.id node_id) [
          | yes p ↦
              rw
                (
                  p,
                  any-filter (λ (m : NodeModel). m.node_id == node_id)
                      (λ m. not (is_row row_id node_id m)) s.node_models,
                )
                (any-imp _ _ s.node_models (λ m e. ground arith) other)
          | no p ↦ any-filter-true (λ m. m.node_id == n.id) _ s.node_models (λ m e. ground arith) h
        ])
        v.served;
  owned =
      All-filter_imp _ _ (λ m. not (is_row row_id node_id m)) s.node_models (λ m k h. h) v.owned;
}

pub delete_node_model_cases :
    (node_id row_id : Text) (s : Store)
    → ((delete_node_model node_id row_id s).0 ≡ s)
      ⊎ (((delete_node_model node_id row_id s).0
            ≡ record s { node_models = filter (λ m. not (is_row row_id node_id m)) s.node_models })
          × (is_nil (filter (λ m. not (m.id == row_id)) (list_node_models node_id s)) ≡ false))
unfolding delete_node_model
delete_node_model_cases node_id row_id s = ground arith

pub delete_node_model-IsServing :
    (node_id row_id : Text) (s : Store)
    → IsServing s
    → IsServing (delete_node_model node_id row_id s).0
delete_node_model-IsServing node_id row_id s v = elim (delete_node_model_cases node_id row_id s) [
  | inl e ↦ rw e v
  | inr (e, more) ↦ rw e (delete_row-IsServing node_id row_id s (other_row node_id row_id s more) v)
]

pub delete_node_cases :
    (id : Text) (purge : Bool) (s : Store)
    → (((delete_node id purge s).0.nodes ≡ s.nodes)
        × ((delete_node id purge s).0.node_models ≡ s.node_models))
      ⊎ (((delete_node id purge s).0.nodes ≡ (without_node id s).nodes)
          × ((delete_node id purge s).0.node_models ≡ (without_node id s).node_models))
unfolding delete_node
delete_node_cases id purge s = ground arith

pub delete_node-IsServing :
    (id : Text) (purge : Bool) (s : Store) → IsServing s → IsServing (delete_node id purge s).0
delete_node-IsServing id purge s v = elim (delete_node_cases id purge s) [
  | inl (e, f) ↦ IsServing-same s _ e f v
  | inr (e, f) ↦ IsServing-same (without_node id s) _ e f (without_node-IsServing id s v)
]
