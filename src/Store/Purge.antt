-- ===== src/Store/Purge.antt =====
-- What a purge of dashboard/src/db.js removes with a node, and what it leaves alone.
use swiftlm_platform.Base.{
  ◌≡◌, ◌≢◌, refl, Bool, true, false, not, ◌||◌, none, List, [], ◌∷◌, Text, ◌==◌, any, find, filter,
  count_where, update_where, if◌then◌else◌, arith,
}
use swiftlm_platform.Store.{
  Store, ApiKey, Conversation, ApiRequest, EnrollmentToken, ok, refers, has_node, find_node,
}
use swiftlm_platform.Store.Deletion.{
  get_node_usage, delete_node, without_node, delete_node_requests, delete_node_keys,
  delete_node_conversations,
}

module _ {A : Type 0} where
  any-filter-not : (p : A → Bool) (xs : List A) → any p (filter (λ x. not (p x)) xs) ≡ false
  any-filter-not p [] = refl
  any-filter-not p (x ∷ xs) = ground (arith, any-filter-not p xs)

  count-filter-not : (p : A → Bool) (xs : List A) → count_where p (filter (λ x. not (p x)) xs) ≡ 0
  count-filter-not p [] = refl
  count-filter-not p (x ∷ xs) = ground (arith, count-filter-not p xs)

  count_zero : (p : A → Bool) (xs : List A) → any p xs ≡ false → count_where p xs ≡ 0
  count_zero p [] h = refl
  count_zero p (x ∷ xs) h = ground (arith, count_zero p xs)

  count_pos : (p : A → Bool) (xs : List A) → any p xs ≡ true → count_where p xs ≢ 0
  count_pos p [] h = cc
  count_pos p (x ∷ xs) h = ground (arith, count_pos p xs)

  -- A filter for rows that another filter keeps.
  filter-filter :
      (p q : A → Bool) (xs : List A)
      → ((x : A) → p x ≡ true → q x ≡ true)
      → filter p (filter q xs) ≡ filter p xs
  filter-filter p q [] keep = refl
  filter-filter p q (x ∷ xs) keep = ground (arith, keep x, filter-filter p q xs keep)

  find-filter :
      (p q : A → Bool) (xs : List A)
      → ((x : A) → p x ≡ true → q x ≡ true)
      → find p (filter q xs) ≡ find p xs
  find-filter p q [] keep = refl
  find-filter p q (x ∷ xs) keep = ground (arith, keep x, find-filter p q xs keep)

requests_gone :
    (id : Text) (p : ApiRequest → Bool) (rs : List ApiRequest)
    → count_where
        (λ r. refers r.node_id id)
        (update_where
          (λ r. refers r.node_id id)
          (λ r. record r { node_id = none })
          (update_where p
            (λ r. record r { api_key_id = none })
            (filter (λ r. not (refers r.node_id id)) rs)))
      ≡ 0
requests_gone id p [] = refl
requests_gone id p (r ∷ rs) = ground (arith, requests_gone id p rs)

tokens_freed :
    (id : Text) (ts : List EnrollmentToken)
    → any
        (λ t. refers t.node_id id)
        (update_where (λ t. refers t.node_id id) (λ t. record t { node_id = none }) ts)
      ≡ false
tokens_freed id [] = refl
tokens_freed id (t ∷ ts) = ground (arith, tokens_freed id ts)

abbrev pub purged : Text → Store → Store
purged id s = delete_node_conversations id (delete_node_keys id (delete_node_requests id s))

-- With its keys and conversations gone, nothing restricts the deletion.
pub purge_row :
    (id : Text) (s : Store)
    → delete_node id true s ≡ (without_node id (purged id s), ok (has_node id s.nodes))
unfolding delete_node
purge_row id s = ground (
  arith,
  any-filter-not (λ (k : ApiKey). refers k.node_id id) s.api_keys,
  any-filter-not (λ (c : Conversation). refers c.node_id id) s.conversations,
)

-- A purge always succeeds, and reports whether there was such a node; behind it the node and its
-- models are gone, and no key, conversation, request or enrollment token refers to it.
pub purge_removes :
    (id : Text) (s : Store)
    → ((delete_node id true s).1 ≡ ok (has_node id s.nodes))
      × (has_node id (delete_node id true s).0.nodes ≡ false)
      × (any (λ m. m.node_id == id) (delete_node id true s).0.node_models ≡ false)
      × ((get_node_usage id (delete_node id true s).0).api_key_count ≡ 0)
      × ((get_node_usage id (delete_node id true s).0).conversation_count ≡ 0)
      × ((get_node_usage id (delete_node id true s).0).request_count ≡ 0)
      × (any (λ t. refers t.node_id id) (delete_node id true s).0.enrollment_tokens ≡ false)
unfolding get_node_usage
purge_removes id s = rw (purge_row id s) (
  refl,
  any-filter-not _ s.nodes,
  any-filter-not _ s.node_models,
  count-filter-not _ s.api_keys,
  count-filter-not _ s.conversations,
  requests_gone id _ s.api_requests,
  tokens_freed id s.enrollment_tokens,
)

-- A purge leaves every other node alone, with its models, keys and conversations.
pub purge_keeps_others :
    (id other : Text) (s : Store)
    → other ≢ id
    → (find_node other (delete_node id true s).0.nodes ≡ find_node other s.nodes)
      × (filter (λ m. m.node_id == other) (delete_node id true s).0.node_models
          ≡ filter (λ m. m.node_id == other) s.node_models)
      × (filter (λ k. refers k.node_id other) (delete_node id true s).0.api_keys
          ≡ filter (λ k. refers k.node_id other) s.api_keys)
      × (filter (λ c. refers c.node_id other) (delete_node id true s).0.conversations
          ≡ filter (λ c. refers c.node_id other) s.conversations)
purge_keeps_others id other s ne = rw (purge_row id s) (
  find-filter _ _ s.nodes (λ n e. ground arith),
  filter-filter _ _ s.node_models (λ m e. ground arith),
  filter-filter _ _ s.api_keys (λ k e. ground arith),
  filter-filter _ _ s.conversations (λ c e. ground arith),
)

-- Without the purge a node that a key, a conversation or a request refers to is not deleted, and
-- the store stays as it is; a node that nothing refers to is deleted.
pub delete_unpurged :
    (id : Text) (s : Store)
    → delete_node id false s ≡ (
        if any (λ k. refers k.node_id id) s.api_keys
          || any (λ c. refers c.node_id id) s.conversations
          || any (λ r. refers r.node_id id) s.api_requests
        then (s, ok false)
        else (without_node id s, ok (has_node id s.nodes)))
unfolding delete_node
delete_unpurged id s = ground (
  arith,
  count_zero (λ (k : ApiKey). refers k.node_id id) s.api_keys,
  count_pos (λ (k : ApiKey). refers k.node_id id) s.api_keys,
  count_zero (λ (c : Conversation). refers c.node_id id) s.conversations,
  count_pos (λ (c : Conversation). refers c.node_id id) s.conversations,
  count_zero (λ (r : ApiRequest). refers r.node_id id) s.api_requests,
  count_pos (λ (r : ApiRequest). refers r.node_id id) s.api_requests,
)
