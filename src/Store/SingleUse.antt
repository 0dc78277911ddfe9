-- ===== src/Store/SingleUse.antt =====
-- An enrollment token of dashboard/src/db.js is good for one enrollment.
use swiftlm_platform.Base.{
  ℕ, ◌≡◌, refl, Bool, true, false, not, ◌&&◌, ◌||◌, Option, none, some, List, [], ◌∷◌, Text, ◌==◌,
  any, update_where, text_discrete, arith, any-update_where-true, any-update_where-false,
  any-filter-true, any-filter-false, any-append, any-imp,
}
use swiftlm_platform.Store.{Store, EnrollmentToken, ok, refers}
use swiftlm_platform.Store.Nodes.{
  Vault, NodeInput, create_node, insert_with_model, insert_node, insert_node_model, set_node_secret,
  record_heartbeat, set_node_enabled, update_node_upstream_key, update_node_auth,
}
use swiftlm_platform.Store.Deletion.{delete_node}
use swiftlm_platform.Store.Models.{add_node_model, set_node_model_enabled, delete_node_model}
use swiftlm_platform.Store.Keys.{create_api_key, authenticate_api_key, revoke_api_key}
use swiftlm_platform.Store.Conversations.{
  create_conversation, update_conversation_target, add_message, update_message_content,
  set_conversation_title, delete_conversation,
}
use swiftlm_platform.Store.Requests.{record_request}
use swiftlm_platform.Store.Tokens.{
  create_enrollment_token, delete_enrollment_token, consume_enrollment_token,
  prune_expired_enrollment_tokens, is_unused, can_consume, token_row,
}
use swiftlm_platform.Store.Steps

abbrev spent : Text → EnrollmentToken → Bool
spent d t = (t.token_digest == d) && not (is_unused t)

-- Some row of the digest is used, and no row of it is unused.
abbrev pub Spent : Text → List EnrollmentToken → Type 0
Spent d ts =
    (any (spent d) ts ≡ true) × (any (λ t. (t.token_digest == d) && is_unused t) ts ≡ false)

consume_spends :
    (d node_id : Text) (used now : ℕ) (ts : List EnrollmentToken)
    → any (can_consume d now) ts ≡ true
    → any (spent d) (
        update_where
          (can_consume d now)
          (λ t. record t { used_at = some used; node_id = some node_id })
          ts)
      ≡ true
consume_spends d node_id used now [] h = ground arith
consume_spends d node_id used now (t ∷ ts) h = ground (arith, consume_spends d node_id used now ts)

none_unused :
    (d node_id : Text) (used now : ℕ) (ts : List EnrollmentToken)
    → any (λ t. t.token_digest == d) ts ≡ false
    → any
        (λ t. (t.token_digest == d) && is_unused t)
        (update_where
          (can_consume d now)
          (λ t. record t { used_at = some used; node_id = some node_id })
          ts)
      ≡ false
none_unused d node_id used now [] h = refl
none_unused d node_id used now (t ∷ ts) h = ground (arith, none_unused d node_id used now ts)

none_consumable :
    (d : Text) (now : ℕ) (ts : List EnrollmentToken)
    → any (λ t. t.token_digest == d) ts ≡ false
    → any (can_consume d now) ts ≡ false
none_consumable d now [] h = refl
none_consumable d now (t ∷ ts) h = ground (arith, none_consumable d now ts)

-- The digests are distinct: the column is UNIQUE.
abbrev pub DistinctDigests : List EnrollmentToken → Type 0
DistinctDigests [] = Unit
DistinctDigests (t ∷ ts) =
    (any (λ u. u.token_digest == t.token_digest) ts ≡ false) × DistinctDigests ts

consume_uses_all :
    (d node_id : Text) (used now : ℕ) (ts : List EnrollmentToken)
    → DistinctDigests ts
    → any (can_consume d now) ts ≡ true
    → any
        (λ t. (t.token_digest == d) && is_unused t)
        (update_where
          (can_consume d now)
          (λ t. record t { used_at = some used; node_id = some node_id })
          ts)
      ≡ false
consume_uses_all d node_id used now [] u h = refl
consume_uses_all d node_id used now (t ∷ ts) u h = ground (
  arith,
  consume_uses_all d node_id used now ts u.1,
  none_unused d node_id used now ts,
  none_consumable d now ts,
)

-- A successful consumption spends the digest.
pub consume-Spent :
    (d node_id : Text) (used now : ℕ) (s : Store)
    → DistinctDigests s.enrollment_tokens
    → (consume_enrollment_token d node_id used now s).1 ≡ ok true
    → Spent d (consume_enrollment_token d node_id used now s).0.enrollment_tokens
unfolding consume_enrollment_token
consume-Spent d node_id used now s u e = ground (
  arith,
  consume_spends d node_id used now s.enrollment_tokens,
  consume_uses_all d node_id used now s.enrollment_tokens u,
)

not_consumed :
    (d : Text) (now : ℕ) (ts : List EnrollmentToken)
    → any (λ t. (t.token_digest == d) && is_unused t) ts ≡ false
    → any (can_consume d now) ts ≡ false
not_consumed d now [] h = refl
not_consumed d now (t ∷ ts) h = ground (arith, not_consumed d now ts)

abbrev left : Text → EnrollmentToken → Bool
left d t = (t.token_digest == d) && is_unused t

-- No operation makes a spent digest good again.
module _ (v : Vault) (d : Text) where
  Spent-consume :
      (e node_id : Text) (used now : ℕ) (s : Store)
      → Spent d s.enrollment_tokens
      → Spent d (consume_enrollment_token e node_id used now s).0.enrollment_tokens
  unfolding consume_enrollment_token
  Spent-consume e node_id used now s h = ground (
    arith,
    any-update_where-true (spent d) (can_consume e now)
        (λ (t : EnrollmentToken). record t { used_at = some used; node_id = some node_id })
        s.enrollment_tokens (λ t k. ground arith) h.0,
    any-update_where-false (left d) (can_consume e now)
        (λ (t : EnrollmentToken). record t { used_at = some used; node_id = some node_id })
        s.enrollment_tokens (λ t k. ground arith) h.1,
  )

  Spent-create :
      (id e : Text) (label : Option Text) (ttl now : ℕ) (s : Store)
      → Spent d s.enrollment_tokens
      → Spent d (create_enrollment_token id e label ttl now s).0.enrollment_tokens
  unfolding create_enrollment_token
  Spent-create id e label ttl now s h = elim (text_discrete e d) [
    | yes p ↦
        let taken =
          any-imp (spent d) (λ t. (t.id == id) || (t.token_digest == e)) s.enrollment_tokens
            (λ t k. ground arith) h.0 in
        ground arith
    | no n ↦ ground (
      arith,
      any-append (spent d) s.enrollment_tokens (token_row id e label now ttl ∷ []),
      any-append (left d) s.enrollment_tokens (token_row id e label now ttl ∷ []),
    )
  ]

  Spent-delete :
      (id : Text) (s : Store)
      → Spent d s.enrollment_tokens
      → Spent d (delete_enrollment_token id s).0.enrollment_tokens
  unfolding delete_enrollment_token
  Spent-delete id s h = (
    any-filter-true (spent d) _ s.enrollment_tokens (λ t k. ground arith) h.0,
    any-filter-false (left d) _ s.enrollment_tokens h.1,
  )

  pub Spent-prune :
      (now : ℕ) (s : Store)
      → Spent d s.enrollment_tokens
      → Spent d (prune_expired_enrollment_tokens now s).enrollment_tokens
  unfolding prune_expired_enrollment_tokens
  Spent-prune now s h = (
    any-filter-true (spent d) _ s.enrollment_tokens (λ t k. ground arith) h.0,
    any-filter-false (left d) _ s.enrollment_tokens h.1,
  )

  Spent-delete_node :
      (id : Text) (purge : Bool) (s : Store)
      → Spent d s.enrollment_tokens
      → Spent d (delete_node id purge s).0.enrollment_tokens
  unfolding delete_node
  Spent-delete_node id purge s h = ground (
    arith,
    any-update_where-true (spent d) (λ t. refers t.node_id id)
        (λ (t : EnrollmentToken). record t { node_id = none }) s.enrollment_tokens (λ t k. k) h.0,
    any-update_where-false (left d) (λ t. refers t.node_id id)
        (λ (t : EnrollmentToken). record t { node_id = none }) s.enrollment_tokens (λ t k. k) h.1,
  )

  tokens-create_node :
      (iv row_id : Text) (i : NodeInput) (now : ℕ) (s : Store)
      → (create_node v iv row_id i now s).0.enrollment_tokens ≡ s.enrollment_tokens
  unfolding create_node insert_with_model insert_node insert_node_model
  tokens-create_node iv row_id i now s = ground arith

  Spent-step :
      (o : Steps.Op) (s : Store)
      → Spent d s.enrollment_tokens
      → Spent d (Steps.step v o s).enrollment_tokens
  unfolding Steps.step
  Spent-step (Steps.creates_node iv row_id i now) s h = rw (tokens-create_node iv row_id i now s) h
  Spent-step (Steps.sets_secret iv id secret now) s h = unfold set_node_secret in ground arith
  Spent-step (Steps.beats id version capabilities now) s h = unfold record_heartbeat in h
  Spent-step (Steps.enables_node id enabled now) s h = unfold set_node_enabled in h
  Spent-step (Steps.rekeys_node iv id key now) s h = unfold update_node_upstream_key in ground arith
  Spent-step (Steps.changes_auth iv id auth_type auth_header key now) s h =
      unfold update_node_auth in ground arith
  Spent-step (Steps.deletes_node id purge) s h = Spent-delete_node id purge s h
  Spent-step (Steps.adds_model row_id node_id model_id model_name now) s h =
      unfold add_node_model in ground arith
  Spent-step (Steps.enables_model node_id row_id enabled now) s h =
      unfold set_node_model_enabled in h
  Spent-step (Steps.deletes_model node_id row_id) s h = unfold delete_node_model in ground arith
  Spent-step (Steps.creates_key id name prefix digest node_id now) s h =
      unfold create_api_key in ground arith
  Spent-step (Steps.authenticates digest now) s h = unfold authenticate_api_key in ground arith
  Spent-step (Steps.revokes_key id now) s h = unfold revoke_api_key in h
  Spent-step (Steps.creates_conversation id title system_prompt node_id model_id now) s h =
      unfold create_conversation in ground arith
  Spent-step (Steps.targets_conversation id node_id model_id now) s h =
      unfold update_conversation_target in ground arith
  Spent-step (Steps.adds_message id conversation_id role content now) s h =
      unfold add_message in ground arith
  Spent-step (Steps.updates_message id conversation_id content now) s h =
      unfold update_message_content in ground arith
  Spent-step (Steps.titles_conversation id title now) s h = unfold set_conversation_title in h
  Spent-step (Steps.deletes_conversation id) s h = unfold delete_conversation in h
  Spent-step (Steps.records_request id e now) s h = unfold record_request in ground arith
  Spent-step (Steps.creates_token id e label ttl now) s h = Spent-create id e label ttl now s h
  Spent-step (Steps.deletes_token id) s h = Spent-delete id s h
  Spent-step (Steps.consumes_token e node_id used now) s h = Spent-consume e node_id used now s h
  Spent-step (Steps.prunes_tokens now) s h = Spent-prune now s h

  pub Spent-run :
      (os : List Steps.Op) (s : Store)
      → Spent d s.enrollment_tokens
      → Spent d (Steps.run v os s).enrollment_tokens
  Spent-run [] s h = h
  Spent-run (o ∷ os) s h = Spent-run os (Steps.step v o s) (Spent-step o s h)

-- The digests of the tokens are distinct, as the column is UNIQUE.
-- Once a token has been consumed, it is never consumed again, whatever the store goes through in
-- between: no operation gives a used token back, and none creates a second one of its digest.
pub consumed_once :
    (v : Vault) (d node_id other : Text) (used now used' now' : ℕ) (between : List Steps.Op)
    (s : Store)
    → DistinctDigests s.enrollment_tokens
    → (consume_enrollment_token d node_id used now s).1 ≡ ok true
    → (consume_enrollment_token d other used' now'
        (Steps.run v between (consume_enrollment_token d node_id used now s).0)).1
      ≡ ok false
consumed_once v d node_id other used now used' now' between s u e =
    refused other used' now' _ (Spent-run v d between _ (consume-Spent d node_id used now s u e))
  where
    refused :
        (other : Text) (used' now' : ℕ) (s' : Store)
        → Spent d s'.enrollment_tokens
        → (consume_enrollment_token d other used' now' s').1 ≡ ok false
    refused other used' now' s' h =
        unfold consume_enrollment_token in rw (not_consumed d now' s'.enrollment_tokens h.1)
