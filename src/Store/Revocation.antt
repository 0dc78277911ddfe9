-- ===== src/Store/Revocation.antt =====
-- A revoked API key of dashboard/src/db.js stays out, and who is let in.
use swiftlm_platform.Base.{
  ℕ, ◌≡◌, refl, Bool, true, false, not, ◌&&◌, none, some, List, [], ◌∷◌, Text, ◌==◌, any, find,
  update_where, arith, Option-cases, inl, inr, All, any-update_where-false, any-filter-false,
  any-append, any-imp,
}
use swiftlm_platform.Store.{Store, Node, ApiKey, find_node, refers, coalesce}
use swiftlm_platform.Store.Nodes.{
  Vault, NodeInput, create_node, insert_with_model, insert_node, insert_node_model, set_node_secret,
  record_heartbeat, set_node_enabled, update_node_upstream_key, update_node_auth,
}
use swiftlm_platform.Store.Deletion.{delete_node}
use swiftlm_platform.Store.Models.{add_node_model, set_node_model_enabled, delete_node_model}
use swiftlm_platform.Store.Keys.{
  KeyWithNode, create_api_key, authenticate_api_key, revoke_api_key, get_key_by_digest, key_row,
  may_use, touch_key,
}
use swiftlm_platform.Store.Conversations.{
  create_conversation, update_conversation_target, add_message, update_message_content,
  set_conversation_title, delete_conversation,
}
use swiftlm_platform.Store.Requests.{record_request}
use swiftlm_platform.Store.Tokens.{
  create_enrollment_token, delete_enrollment_token, consume_enrollment_token,
  prune_expired_enrollment_tokens,
}
use swiftlm_platform.Store.Steps

abbrev pub is_unrevoked : ApiKey → Bool
is_unrevoked k = elim k.revoked_at [ none ↦ true | some t ↦ false ]

-- No row of the digest is good.
abbrev valid : Text → ApiKey → Bool
valid d k = (k.digest == d) && is_unrevoked k

abbrev Dead : Text → List ApiKey → Type 0
Dead d ks = any (valid d) ks ≡ false

abbrev pub DistinctDigests : List ApiKey → Type 0
DistinctDigests [] = Unit
DistinctDigests (k ∷ ks) = (any (λ j. j.digest == k.digest) ks ≡ false) × DistinctDigests ks

-- An operation that makes a key with this digest.
abbrev pub creates : Text → Steps.Op → Bool
creates d (Steps.creates_key id name prefix digest node_id now) = digest == d
creates d _ = false

abbrev revoked_rows : Text → ℕ → List ApiKey → List ApiKey
revoked_rows id now =
    update_where (λ k. k.id == id) (λ k. record k { revoked_at = coalesce k.revoked_at (some now) })

none_valid :
    (d id : Text) (now : ℕ) (ks : List ApiKey)
    → any (λ j. j.digest == d) ks ≡ false
    → Dead d (revoked_rows id now ks)
none_valid d id now [] h = refl
none_valid d id now (k ∷ ks) h = ground (arith, none_valid d id now ks)

revoke-Dead_rows :
    (d id : Text) (now : ℕ) (ks : List ApiKey)
    → DistinctDigests ks
    → any (λ k. (k.id == id) && (k.digest == d)) ks ≡ true
    → Dead d (revoked_rows id now ks)
revoke-Dead_rows d id now [] u h = refl
revoke-Dead_rows d id now (k ∷ ks) u h = ground (
  arith,
  none_valid d id now ks,
  revoke-Dead_rows d id now ks u.1,
  any-imp (λ (j : ApiKey). (j.id == id) && (j.digest == d)) (λ j. j.digest == d) ks
      (λ j e. ground arith),
)

found-Dead :
    (d : Text) (ks : List ApiKey) (k : ApiKey)
    → Dead d ks
    → find (λ j. j.digest == d) ks ≡ some k
    → is_unrevoked k ≡ false
found-Dead d [] k h e = cc
found-Dead d (j ∷ ks) k h e = ground (arith, found-Dead d ks k)

refused :
    (v : Vault) (d : Text) (now : ℕ) (s : Store)
    → Dead d s.api_keys
    → (authenticate_api_key v d now s).1 ≡ none
unfolding authenticate_api_key
refused v d now s h = elim (Option-cases (find (λ j. j.digest == d) s.api_keys)) [
  | inl e ↦ ground arith
  | inr (k, e) ↦ ground (arith, found-Dead d s.api_keys k h e)
]

module _ (v : Vault) (d : Text) where
  Dead-authenticate :
      (e : Text) (now : ℕ) (s : Store)
      → Dead d s.api_keys
      → Dead d (authenticate_api_key v e now s).0.api_keys
  unfolding authenticate_api_key
  Dead-authenticate e now s h = elim (Option-cases (get_key_by_digest e s)) [
    | inl n ↦ ground arith
    | inr (j, n) ↦ ground (
      arith,
      any-update_where-false (valid d) (λ k. k.id == j.key.id)
          (λ (k : ApiKey). record k { last_used_at = some now }) s.api_keys (λ k b. b) h,
    )
  ]

  Dead-revoke :
      (id : Text) (now : ℕ) (s : Store)
      → Dead d s.api_keys
      → Dead d (revoke_api_key id now s).0.api_keys
  unfolding revoke_api_key
  Dead-revoke id now s h =
      any-update_where-false (valid d) (λ k. k.id == id)
        (λ (k : ApiKey). record k { revoked_at = coalesce k.revoked_at (some now) }) s.api_keys
        (λ k b. ground arith) h

  Dead-create :
      (id name prefix e node_id : Text) (now : ℕ) (s : Store)
      → (e == d) ≡ false
      → Dead d s.api_keys
      → Dead d (create_api_key id name prefix e node_id now s).0.api_keys
  unfolding create_api_key
  Dead-create id name prefix e node_id now s ne h =
      ground (arith, any-append (valid d) s.api_keys (key_row id name prefix e node_id now ∷ []))

  Dead-delete_node :
      (id : Text) (purge : Bool) (s : Store)
      → Dead d s.api_keys
      → Dead d (delete_node id purge s).0.api_keys
  unfolding delete_node
  Dead-delete_node id purge s h =
      ground (arith, any-filter-false (valid d) (λ k. not (refers k.node_id id)) s.api_keys h)

  api_keys-create_node :
      (iv row_id : Text) (i : NodeInput) (now : ℕ) (s : Store)
      → (create_node v iv row_id i now s).0.api_keys ≡ s.api_keys
  unfolding create_node insert_with_model insert_node insert_node_model
  api_keys-create_node iv row_id i now s = ground arith

  Dead-step :
      (o : Steps.Op) (s : Store)
      → creates d o ≡ false
      → Dead d s.api_keys
      → Dead d (Steps.step v o s).api_keys
  unfolding Steps.step
  Dead-step (Steps.creates_node iv row_id i now) s f h =
      rw (api_keys-create_node iv row_id i now s) h
  Dead-step (Steps.sets_secret iv id secret now) s f h = unfold set_node_secret in ground arith
  Dead-step (Steps.beats id version capabilities now) s f h = unfold record_heartbeat in h
  Dead-step (Steps.enables_node id enabled now) s f h = unfold set_node_enabled in h
  Dead-step (Steps.rekeys_node iv id key now) s f h =
      unfold update_node_upstream_key in ground arith
  Dead-step (Steps.changes_auth iv id auth_type auth_header key now) s f h =
      unfold update_node_auth in ground arith
  Dead-step (Steps.deletes_node id purge) s f h = Dead-delete_node id purge s h
  Dead-step (Steps.adds_model row_id node_id model_id model_name now) s f h =
      unfold add_node_model in ground arith
  Dead-step (Steps.enables_model node_id row_id enabled now) s f h =
      unfold set_node_model_enabled in h
  Dead-step (Steps.deletes_model node_id row_id) s f h = unfold delete_node_model in ground arith
  Dead-step (Steps.creates_key id name prefix digest node_id now) s f h =
      Dead-create id name prefix digest node_id now s f h
  Dead-step (Steps.authenticates digest now) s f h = Dead-authenticate digest now s h
  Dead-step (Steps.revokes_key id now) s f h = Dead-revoke id now s h
  Dead-step (Steps.creates_conversation id title system_prompt node_id model_id now) s f h =
      unfold create_conversation in ground arith
  Dead-step (Steps.targets_conversation id node_id model_id now) s f h =
      unfold update_conversation_target in ground arith
  Dead-step (Steps.adds_message id conversation_id role content now) s f h =
      unfold add_message in ground arith
  Dead-step (Steps.updates_message id conversation_id content now) s f h =
      unfold update_message_content in ground arith
  Dead-step (Steps.titles_conversation id title now) s f h = unfold set_conversation_title in h
  Dead-step (Steps.deletes_conversation id) s f h = unfold delete_conversation in h
  Dead-step (Steps.records_request id e now) s f h = unfold record_request in ground arith
  Dead-step (Steps.creates_token id e label ttl now) s f h =
      unfold create_enrollment_token in ground arith
  Dead-step (Steps.deletes_token id) s f h = unfold delete_enrollment_token in h
  Dead-step (Steps.consumes_token e node_id used now) s f h =
      unfold consume_enrollment_token in ground arith
  Dead-step (Steps.prunes_tokens now) s f h = unfold prune_expired_enrollment_tokens in h

  Dead-run :
      (os : List Steps.Op) (s : Store)
      → All (λ o. creates d o ≡ false) os
      → Dead d s.api_keys
      → Dead d (Steps.run v os s).api_keys
  Dead-run [] s f h = h
  Dead-run (o ∷ os) s f h = Dead-run os (Steps.step v o s) f.1 (Dead-step o s f.0 h)

-- The digests of the keys are distinct, as the column is UNIQUE. A key that has been revoked never authenticates again, whatever the store goes through, as long
-- as no new key has its digest.
pub revoked_stays_out :
    (v : Vault) (id d : Text) (now later : ℕ) (between : List Steps.Op) (s : Store)
    → DistinctDigests s.api_keys
    → any (λ k. (k.id == id) && (k.digest == d)) s.api_keys ≡ true
    → All (λ o. creates d o ≡ false) between
    → (authenticate_api_key v d later (Steps.run v between (revoke_api_key id now s).0)).1 ≡ none
revoked_stays_out v id d now later between s u h f =
    refused v d later _ (Dead-run v d between (revoke_api_key id now s).0 f revoked)
  where
    revoked : Dead d (revoke_api_key id now s).0.api_keys
    revoked = unfold revoke_api_key in revoke-Dead_rows d id now s.api_keys u h

-- A row of an enabled node that the key belongs to.
abbrev pub on_enabled_node : List Node → ApiKey → Bool
on_enabled_node nodes k = any (λ n. refers k.node_id n.id && n.enabled) nodes

node_of_enabled :
    (id : Text) (nodes : List Node) (n : Node)
    → find_node id nodes ≡ some n
    → n.enabled ≡ true
    → any (λ m. (id == m.id) && m.enabled) nodes ≡ true
node_of_enabled id [] n e h = cc
node_of_enabled id (m ∷ ms) n e h = ground (arith, node_of_enabled id ms n)

any_of_find :
    (d : Text) (p : ApiKey → Bool) (ks : List ApiKey) (k : ApiKey)
    → find (λ j. j.digest == d) ks ≡ some k
    → p k ≡ true
    → any (λ j. (j.digest == d) && p j) ks ≡ true
any_of_find d p [] k e h = cc
any_of_find d p (j ∷ ks) k e h = ground (arith, any_of_find d p ks k)

admitted :
    (v : Vault) (d : Text) (now : ℕ) (s : Store) (j : KeyWithNode)
    → (authenticate_api_key v d now s).1 ≡ some j
    → (g : KeyWithNode) × (get_key_by_digest d s ≡ some g)
      × (may_use g ≡ true)
      × (j.key ≡ g.key)
      × ((authenticate_api_key v d now s).0 ≡ touch_key g.key.id now s)
unfolding authenticate_api_key
admitted v d now s j e = elim (Option-cases (get_key_by_digest d s)) [
  | inl n ↦ absurd (ground arith)
  | inr (g, n) ↦ (g, n, ground arith, ground arith, ground arith)
]

joined :
    (d : Text) (s : Store) (g : KeyWithNode)
    → get_key_by_digest d s ≡ some g
    → (find (λ k. k.digest == d) s.api_keys ≡ some g.key)
      × ((id : Text) × (g.key.node_id ≡ some id) × (find_node id s.nodes ≡ some g.node))
unfolding get_key_by_digest
joined d s g e = elim (Option-cases (find (λ k. k.digest == d) s.api_keys)) [
  | inl n ↦ absurd (ground arith)
  | inr (k, f) ↦ elim (Option-cases k.node_id) [
    | inl n ↦ absurd (ground arith)
    | inr (id, m) ↦ (ground arith, (id, ground arith, ground arith))
  ]
]

-- Whoever is let in has the digest of a stored key that has not been revoked, and whose node is
-- stored and enabled; of the store at most that key's `last_used_at` changes.
pub authenticate_sound :
    (v : Vault) (d : Text) (now : ℕ) (s : Store) (j : KeyWithNode)
    → (authenticate_api_key v d now s).1 ≡ some j
    → (any (λ k. (k.digest == d) && (is_unrevoked k && on_enabled_node s.nodes k)) s.api_keys
        ≡ true)
      × ((authenticate_api_key v d now s).0 ≡ touch_key j.key.id now s)
authenticate_sound v d now s j e =
    let (g, found, usable, same, stamped) = admitted v d now s j e in
    let (row, (id, of, node)) = joined d s g found in
    let enabled = node_of_enabled id s.nodes g.node node (ground arith) in
    (any_of_find d _ s.api_keys g.key row (ground arith), ground arith)
