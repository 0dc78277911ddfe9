-- ===== src/Store/Models.antt =====
-- dashboard/src/db.js: which models a node serves, the table `node_models`.
use swiftlm_platform.Base.{
  ℕ, Bool, true, false, not, ◌&&◌, List, [], ◌∷◌, Text, ◌==◌, any, filter, order_by, or_else,
  update_where, if◌then◌else◌,
}
use swiftlm_platform.Store.{Store, NodeModel, ok, Outcome, then_do}
use swiftlm_platform.Store.Nodes.{insert_node_model}

unfoldable pub list_node_models : Text → Store → List NodeModel
list_node_models node_id s =
    order_by (λ m. m.created_at) (filter (λ m. m.node_id == node_id) s.node_models)

unfoldable pub is_model_allowed_on_node : Text → Text → Store → Bool
is_model_allowed_on_node node_id model_id s =
    any (λ m. (m.node_id == node_id) && ((m.model_id == model_id) && m.enabled)) s.node_models

abbrev pub model_row : Text → Text → Text → Text → ℕ → NodeModel
model_row row_id node_id model_id model_name now = record {
  id = row_id;
  node_id = node_id;
  model_id = model_id;
  model_name = or_else model_name model_id;
  enabled = true;
  created_at = now;
  updated_at = now;
}

unfoldable pub add_node_model : Text → Text → Text → Text → ℕ → Store → Outcome (List NodeModel)
unfolding insert_node_model list_node_models
add_node_model row_id node_id model_id model_name now s =
    then_do s (insert_node_model (model_row row_id node_id model_id model_name now) s)
      λ s'. (s', ok (list_node_models node_id s'))

abbrev pub is_row : Text → Text → NodeModel → Bool
is_row row_id node_id m = (m.id == row_id) && (m.node_id == node_id)

unfoldable pub set_node_model_enabled : Text → Text → Bool → ℕ → Store → Store × Bool
set_node_model_enabled node_id row_id enabled now s = (
  record s {
    node_models =
        update_where (is_row row_id node_id) (λ m. record m { enabled = enabled; updated_at = now })
          s.node_models;
  },
  any (is_row row_id node_id) s.node_models,
)

pub data Removal : Type 0 where
  removed not_found last_model : Removal

abbrev pub is_nil : {A : Type 0} → List A → Bool
is_nil [] = true
is_nil (x ∷ xs) = false

-- The last row of a node stays.
unfoldable pub delete_node_model : Text → Text → Store → Store × Removal
unfolding list_node_models
delete_node_model node_id row_id s =
    if not (any (is_row row_id node_id) s.node_models)
    then (s, not_found)
    else if is_nil (filter (λ m. not (m.id == row_id)) (list_node_models node_id s))
    then (s, last_model)
    else (
      record s { node_models = filter (λ m. not (is_row row_id node_id m)) s.node_models },
      removed,
    )
