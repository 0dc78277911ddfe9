-- ===== src/Store/Deletion.antt =====
-- dashboard/src/db.js: what a node is used by, and its deletion with what SQLite does to the rows
-- that refer to it: RESTRICT for keys and conversations, CASCADE for models and messages, SET NULL
-- for requests and enrollment tokens.
use swiftlm_platform.Base.{
  ℕ, Bool, false, not, ◌&&◌, ◌||◌, none, List, Text, ◌==◌, eqb, any, filter, count_where,
  update_where, if◌then◌else◌,
}
use swiftlm_platform.Store.{
  Store, ApiKey, Conversation, Message, ApiRequest, Result, ok, err, foreign_key, Outcome,
  statement, refers, has_node,
}

pub record Usage : Type 0 where
  pub api_key_count : ℕ
  pub conversation_count : ℕ
  pub request_count : ℕ

unfoldable pub get_node_usage : Text → Store → Usage
get_node_usage id s = record {
  api_key_count = count_where (λ k. refers k.node_id id) s.api_keys;
  conversation_count = count_where (λ c. refers c.node_id id) s.conversations;
  request_count = count_where (λ r. refers r.node_id id) s.api_requests;
}

abbrev pub is_used : Usage → Bool
is_used u =
    not (eqb u.api_key_count 0) || not (eqb u.conversation_count 0) || not (eqb u.request_count 0)

abbrev pub delete_node_requests : Text → Store → Store
delete_node_requests id s = record s {
  api_requests = filter (λ r. not (refers r.node_id id)) s.api_requests;
}

-- A request keeps its row when its key goes.
abbrev owned_key : Text → List ApiKey → ApiRequest → Bool
owned_key id keys r = any (λ k. refers k.node_id id && refers r.api_key_id k.id) keys

abbrev pub delete_node_keys : Text → Store → Store
delete_node_keys id s = record s {
  api_keys = filter (λ k. not (refers k.node_id id)) s.api_keys;
  api_requests =
      update_where (owned_key id s.api_keys) (λ r. record r { api_key_id = none }) s.api_requests;
}

abbrev owned_conversation : Text → List Conversation → Message → Bool
owned_conversation id cs m = any (λ c. refers c.node_id id && (c.id == m.conversation_id)) cs

abbrev pub delete_node_conversations : Text → Store → Store
delete_node_conversations id s = record s {
  conversations = filter (λ c. not (refers c.node_id id)) s.conversations;
  messages = filter (λ m. not (owned_conversation id s.conversations m)) s.messages;
}

abbrev pub without_node : Text → Store → Store
without_node id s = record s {
  nodes = filter (λ n. not (n.id == id)) s.nodes;
  node_models = filter (λ m. not (m.node_id == id)) s.node_models;
  api_requests =
      update_where (λ r. refers r.node_id id) (λ r. record r { node_id = none }) s.api_requests;
  enrollment_tokens =
      update_where (λ t. refers t.node_id id) (λ t. record t { node_id = none })
        s.enrollment_tokens;
}

abbrev is_restricted : Text → Store → Bool
is_restricted id s =
    any (λ k. refers k.node_id id) s.api_keys || any (λ c. refers c.node_id id) s.conversations

unfoldable pub delete_node_row : Text → Store → Result (Store × Bool)
delete_node_row id s =
    if has_node id s.nodes && is_restricted id s
    then err foreign_key
    else ok (without_node id s, has_node id s.nodes)

-- A purge is one transaction: an error leaves the store as it was.
unfoldable pub delete_node : Text → Bool → Store → Outcome Bool
unfolding delete_node_row get_node_usage
delete_node id purge s =
    if is_used (get_node_usage id s) && not purge
    then (s, ok false)
    else if not purge
    then statement s (delete_node_row id s)
    else statement s (
        delete_node_row id
          (delete_node_conversations id (delete_node_keys id (delete_node_requests id s))))
