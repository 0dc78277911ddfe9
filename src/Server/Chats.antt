-- ===== src/Server/Chats.antt =====
-- dashboard/src/server.js: the administrator's conversations, and the generations that are running.
-- The stream itself is in Stream: here a request for an answer begins a generation, and `finally`
-- ends it.
pub mod OneGeneration
use swiftlm_platform.Base.{
  ℕ, Bool, true, false, not, ◌&&◌, ◌||◌, Option, none, some, List, [], ◌∷◌, ◌++◌, Text, codes, ◌==◌,
  is_empty, or_else, trim, slice_to, is_space, any, filter, find, eqb, update_where, length, ltb,
  if◌then◌else◌,
}
use swiftlm_platform.Store.{Store, Node, Role, user, assistant, Outcome, ok, err}
use swiftlm_platform.Store.Nodes.{get_node, get_node_for_proxy}
use swiftlm_platform.Store.Models.{is_model_allowed_on_node}
use swiftlm_platform.Store.Conversations.{
  Thread, get_conversation, create_conversation, update_conversation_target, delete_conversation,
  add_message, set_conversation_title,
}
use swiftlm_platform.Server.{Config}
use swiftlm_platform.Server.Input.{safe_node_id, auth_requires_credential}
use swiftlm_platform.Server.KeyRoutes.{resolve_enabled_node, chosen_node}
use swiftlm_platform.Upstream.{resolve_credential}

-- An entry of `activeGenerations`: a conversation with the abort controller of its answer.
pub record Generation : Type 0 where
  pub conversation_id : Text
  pub controller : ℕ
  pub aborted : Bool

pub record World : Type 0 where
  pub store : Store
  pub active : List Generation

abbrev pub generating : Text → List Generation → Bool
generating id = any (λ g. g.conversation_id == id)

abbrev in_store : World → Store × ℕ → World × ℕ
in_store w (s, status) = (record w { store = s }, status)

abbrev answer : {A : Type 0} → ℕ → Outcome A → Store × ℕ
answer fine (s, ok a) = (s, fine)
answer fine (s, err e) = (s, 500)

pub record ChatBody : Type 0 where
  pub title : Text
  pub system_prompt : Text
  pub node_id : Text
  pub model_id : Text

abbrev create_on : Text → Text → ChatBody → ℕ → Store → Option Node → Store × ℕ
create_on id prompt b now s none = (s, 400)
create_on id prompt b now s (some n) =
    let model = trim (or_else b.model_id n.model_id) in
    if not (is_model_allowed_on_node n.id model s)
    then (s, 400)
    else answer 201 (
        create_conversation id (slice_to 80 (trim (or_else b.title (codes "新對話"))))
          (slice_to 4000 (or_else b.system_prompt prompt)) n.id model now s)

-- POST /api/conversations; `prompt` is the one that the code falls back on.
unfoldable pub create_chat : Config → Text → Text → ChatBody → ℕ → World → World × ℕ
unfolding resolve_enabled_node trim
create_chat cfg id prompt b now w =
    in_store w
      (create_on id prompt b now w.store (resolve_enabled_node (chosen_node cfg b.node_id) w.store))

abbrev pub retarget : Text → Text → ℕ → Store → Option Node → Store × ℕ
retarget id model now s none = (s, 400)
retarget id model now s (some n) =
    if is_empty model || not (is_model_allowed_on_node n.id model s)
    then (s, 400)
    else answer 200 (update_conversation_target id n.id model now s)

abbrev pub is_there : {A : Type 0} → Option A → Bool
is_there none = false
is_there (some a) = true

-- PATCH /api/conversations/:id/target
unfoldable pub change_target : Text → Text → Text → ℕ → World → World × ℕ
unfolding trim
change_target id node_id model now w =
    if not (is_there (get_conversation id w.store))
    then (w, 404)
    else if generating id w.active
    then (w, 409)
    else in_store w
        (retarget id (trim model) now w.store (resolve_enabled_node (safe_node_id node_id) w.store))

-- DELETE /api/conversations/:id
unfoldable pub delete_chat : Text → World → World × ℕ
delete_chat id w = (
  record w { store = (delete_conversation id w.store).0 },
  if (delete_conversation id w.store).1 then 200 else 404,
)

-- POST /api/conversations/:id/stop
unfoldable pub stop : Text → World → World × ℕ
stop id w = if not (generating id w.active) then (w, 409) else (
  record w {
    active =
        update_where (λ g. g.conversation_id == id) (λ g. record g { aborted = true }) w.active;
  },
  202,
)

-- `resolveEnabledProxyNode`: an enabled node, with a credential if its strategy needs one.
abbrev usable : Config → Option Node → Bool
usable cfg none = false
usable cfg (some n) =
    n.enabled
    && not (auth_requires_credential n.auth_type && is_empty (resolve_credential cfg n).credential)

unfoldable pub resolve_enabled_proxy_node : Config → Text → Store → Bool
unfolding resolve_credential auth_requires_credential
resolve_enabled_proxy_node cfg id s = usable cfg (get_node_for_proxy cfg.vault id s)

abbrev text_of : Option Text → Text
text_of none = []
text_of (some t) = t

abbrev can_serve : Config → Thread → Store → Bool
can_serve cfg t s =
    is_there (resolve_enabled_node (text_of t.conversation.node_id) s)
    && (resolve_enabled_proxy_node cfg (text_of t.conversation.node_id) s
        && is_model_allowed_on_node (text_of t.conversation.node_id)
            (text_of t.conversation.model_id) s)

-- What is drawn and read on the clock for one message.
pub record Draws : Type 0 where
  pub controller : ℕ
  pub user_row : Text
  pub assistant_row : Text
  pub now : ℕ

-- `content.replace(/\s+/g, " ").slice(0, 36)`
abbrev space : ℕ
space = 32

abbrev one_space : Text → Text
one_space [] = space ∷ []
one_space (c ∷ s) = if eqb c space then c ∷ s else space ∷ (c ∷ s)

abbrev collapse : Text → Text
collapse [] = []
collapse (c ∷ s) = let rest = collapse s in if is_space c then one_space rest else c ∷ rest

abbrev headline : Text → Text
headline content = slice_to 36 (collapse content)

abbrev is_nil : {A : Type 0} → List A → Bool
is_nil [] = true
is_nil (x ∷ xs) = false

-- The question's row, the title of a new conversation, and the row of the answer to come. A statement
-- that throws ends the request with the generation taken back.
abbrev pub rows : Text → Text → Draws → Thread → Store → Store × Bool
rows id content d t s = question (add_message d.user_row id user content d.now s)
  where
    reply : {A : Type 0} → Outcome A → Store × Bool
    reply (s, ok m) = (s, true)
    reply (s, err e) = (s, false)

    titled : Store → Store
    titled s₁ =
        if is_nil t.messages && (t.conversation.title == codes "新對話")
        then set_conversation_title id (headline content) d.now s₁
        else s₁

    question : {A : Type 0} → Outcome A → Store × Bool
    question (s₁, err e) = (s₁, false)
    question (s₁, ok m) = reply (add_message d.assistant_row id assistant [] d.now (titled s₁))

-- Behind the guard of `begin_for` there is no entry of this conversation, so `Map.set` adds one.
abbrev pub begun : Text → Draws → World → Store × Bool → World × ℕ
begun id d w (s, false) = (record w { store = s }, 500)
begun id d w (s, true) = (
  record {
    store = s;
    active = record { conversation_id = id; controller = d.controller; aborted = false } ∷ w.active;
  },
  200,
)

abbrev begin_for : Config → Text → Text → Draws → World → Option Thread → World × ℕ
begin_for cfg id content d w none = (w, 404)
begin_for cfg id content d w (some t) =
    if generating id w.active
    then (w, 409)
    else if is_empty content
    then (w, 400)
    else if ltb 200000 (length content)
    then (w, 413)
    else if not (can_serve cfg t w.store)
    then (w, 503)
    else begun id d w (rows id content d t w.store)

-- POST /api/conversations/:id/messages, up to the call of `streamDashboardChat`
unfoldable pub begin_message : Config → Text → Text → Draws → World → World × ℕ
unfolding trim
begin_message cfg id content d w = begin_for cfg id (trim content) d w (get_conversation id w.store)

-- `finally`: only the generation's own entry goes.
unfoldable pub end_message : Text → ℕ → World → World
end_message id controller w = record w {
  active = filter (λ g. not ((g.conversation_id == id) && eqb g.controller controller)) w.active;
}
