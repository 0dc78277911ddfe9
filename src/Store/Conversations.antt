-- ===== src/Store/Conversations.antt =====
-- dashboard/src/db.js: conversations and their messages.
use swiftlm_platform.Base.{
  ℕ, Bool, not, ◌&&◌, Option, none, some, List, [], ◌∷◌, ◌++◌, Text, ◌==◌, any, find, filter,
  order_by, update_where, if◌then◌else◌,
}
use swiftlm_platform.Store.{
  Store, Conversation, Message, Role, Result, ok, err, unique, foreign_key, Outcome, then_do,
  has_node,
}

-- A conversation with its messages, oldest first.
pub record Thread : Type 0 where
  pub conversation : Conversation
  pub messages : List Message

abbrev pub messages_of : Text → Store → List Message
messages_of id s = order_by (λ m. m.created_at) (filter (λ m. m.conversation_id == id) s.messages)

abbrev with_node : Store → Conversation → Option Thread
with_node s c = elim c.node_id [
  | none ↦ none
  | some node_id ↦
      if has_node node_id s.nodes
      then some (record { conversation = c; messages = messages_of c.id s })
      else none
]

abbrev as_thread : Store → Option Conversation → Option Thread
as_thread s none = none
as_thread s (some c) = with_node s c

-- The JOIN with the node drops a conversation without one.
unfoldable pub get_conversation : Text → Store → Option Thread
get_conversation id s = as_thread s (find (λ c. c.id == id) s.conversations)

unfoldable pub create_conversation :
    Text → Text → Text → Text → Text → ℕ → Store → Outcome (Option Thread)
unfolding get_conversation
create_conversation id title system_prompt node_id model_id now s =
    if any (λ c. c.id == id) s.conversations
    then (s, err unique)
    else if not (has_node node_id s.nodes)
    then (s, err foreign_key)
    else let s' : Store = record s { conversations = s.conversations ++ (row ∷ []) } in
      (s', ok (get_conversation id s'))
  where
    row : Conversation
    row = record {
      id = id;
      title = title;
      system_prompt = system_prompt;
      node_id = some node_id;
      model_id = some model_id;
      created_at = now;
      updated_at = now;
    }

abbrev pub update_conversation : Text → (Conversation → Conversation) → Store → Store
update_conversation id f s = record s {
  conversations = update_where (λ c. c.id == id) f s.conversations;
}

-- The new node has to exist, if there is a row to change.
unfoldable pub update_conversation_target : Text → Text → Text → ℕ → Store → Outcome Bool
update_conversation_target id node_id model_id now s =
    if any (λ c. c.id == id) s.conversations && not (has_node node_id s.nodes)
    then (s, err foreign_key)
    else (
      update_conversation id
          (λ c. record c { node_id = some node_id; model_id = some model_id; updated_at = now }) s,
      ok (any (λ c. c.id == id) s.conversations),
    )

abbrev pub touch_conversation : Text → ℕ → Store → Store
touch_conversation id now s = update_conversation id (λ c. record c { updated_at = now }) s

abbrev pub message_row : Text → Text → Role → Text → ℕ → Message
message_row id conversation_id role content now = record {
  id = id;
  conversation_id = conversation_id;
  role = role;
  content = content;
  created_at = now;
}

unfoldable pub insert_message : Message → Store → Result Store
insert_message m s =
    if any (λ n. n.id == m.id) s.messages
    then err unique
    else if not (any (λ c. c.id == m.conversation_id) s.conversations)
    then err foreign_key
    else ok (record s { messages = s.messages ++ (m ∷ []) })

unfoldable pub add_message : Text → Text → Role → Text → ℕ → Store → Outcome Message
unfolding insert_message
add_message id conversation_id role content now s =
    then_do s (insert_message (message_row id conversation_id role content now) s) λ s'. (
      touch_conversation conversation_id now s',
      ok (message_row id conversation_id role content now),
    )

unfoldable pub update_message_content : Text → Text → Text → ℕ → Store → Store × Bool
update_message_content id conversation_id content now s =
    let changed = any (λ m. m.id == id) s.messages in
    let s' : Store = record s {
      messages = update_where (λ m. m.id == id) (λ m. record m { content = content }) s.messages;
    } in
    (if changed then touch_conversation conversation_id now s' else s', changed)

unfoldable pub set_conversation_title : Text → Text → ℕ → Store → Store
set_conversation_title id title now s =
    update_conversation id (λ c. record c { title = title; updated_at = now }) s

-- The messages go with the conversation.
unfoldable pub delete_conversation : Text → Store → Store × Bool
delete_conversation id s = (
  record s {
    conversations = filter (λ c. not (c.id == id)) s.conversations;
    messages = filter (λ m. not (m.conversation_id == id)) s.messages;
  },
  any (λ c. c.id == id) s.conversations,
)
