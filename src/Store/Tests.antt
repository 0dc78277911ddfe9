-- ===== src/Store/Tests.antt =====
-- Instances of the theorems on dashboard/src/db.js, on the sample database.
use swiftlm_platform.Base.{
  ◌≡◌, refl, true, false, none, some, [], ◌∷◌, codes, ◌==◌, any, arith, ℕ_discrete, text_discrete,
}
use swiftlm_platform.Store.{Store, Node, ok, find_node, has_node, refers}
use swiftlm_platform.Store.Steps
use swiftlm_platform.Store.Sample.{vault, home, store, old_store, defaults, store_of}
use swiftlm_platform.Store.Secrets.{encrypt_node_key, IsToken}
use swiftlm_platform.Store.Nodes.{set_node_secret}
use swiftlm_platform.Store.Deletion.{delete_node, get_node_usage}
use swiftlm_platform.Store.Keys.{authenticate_api_key, revoke_api_key}
use swiftlm_platform.Store.Startup.{create_store, upsert_default, backfill}
use swiftlm_platform.Store.Revocation.{revoked_stays_out}
use swiftlm_platform.Store.Serving.{IsServing}
use swiftlm_platform.Store.Serving.Preserved.{step-IsServing}
use swiftlm_platform.Store.Purge.{purge_removes}
use swiftlm_platform.Store.Upgrade.{create_store_keeps_credential}

revoked_stays_out_example :
    (authenticate_api_key vault (codes "d1") 9 (
      Steps.run vault
        (Steps.authenticates (codes "d1") 8 ∷ Steps.enables_node (codes "gpu") true 8 ∷ [])
        (revoke_api_key (codes "key1") 7 store).0)).1
    ≡ none
unfolding text_discrete ℕ_discrete
revoked_stays_out_example =
    revoked_stays_out vault (codes "key1") (codes "d1") 7 9
      (Steps.authenticates (codes "d1") 8 ∷ Steps.enables_node (codes "gpu") true 8 ∷ []) store
      (refl, tt) refl (refl, (refl, tt))

serving : IsServing store
unfolding text_discrete ℕ_discrete
serving = record { served = (refl, (refl, tt)); owned = (refl, (refl, tt)) }

step-IsServing_example :
    IsServing (Steps.step vault (Steps.deletes_model (codes "gpu") (codes "w2")) store)
step-IsServing_example =
    step-IsServing vault (Steps.deletes_model (codes "gpu") (codes "w2")) store tt serving

purge_removes_example :
    ((delete_node (codes "gpu") true store).1 ≡ ok (has_node (codes "gpu") store.nodes))
    × (has_node (codes "gpu") (delete_node (codes "gpu") true store).0.nodes ≡ false)
    × (any (λ m. m.node_id == codes "gpu") (delete_node (codes "gpu") true store).0.node_models
        ≡ false)
    × ((get_node_usage (codes "gpu") (delete_node (codes "gpu") true store).0).api_key_count ≡ 0)
    × ((get_node_usage (codes "gpu") (delete_node (codes "gpu") true store).0).conversation_count
        ≡ 0)
    × ((get_node_usage (codes "gpu") (delete_node (codes "gpu") true store).0).request_count ≡ 0)
    × (any
          (λ t. refers t.node_id (codes "gpu"))
          (delete_node (codes "gpu") true store).0.enrollment_tokens
        ≡ false)
purge_removes_example = purge_removes (codes "gpu") store

abbrev started : Store
started = store_of (create_store vault (codes "iv") (λ id. id) defaults 9 old_store)

create_store_keeps_credential_example :
    (n' : Node) × (find_node (codes "home") started.nodes ≡ some n')
    × (n'.upstream_api_key ≡ some (codes "iv:key:tag"))
    × (n'.origin_base_url ≡ codes "http://new/v1")
    × (n'.name ≡ defaults.name)
    × (n'.model_id ≡ codes "m9")
    × (n'.model_name ≡ defaults.model_name)
unfolding create_store upsert_default backfill encrypt_node_key text_discrete ℕ_discrete
create_store_keeps_credential_example =
    create_store_keeps_credential vault (codes "iv") (λ id. id) defaults 9 old_store started
      (codes "iv:key:tag") home refl refl refl

IsToken-iv : IsToken (codes "iv")
IsToken-iv = (ground arith, ground arith)

IsToken-tag : IsToken (codes "tag")
IsToken-tag = (ground arith, ground arith)

IsToken-pw : IsToken (codes "pw")
IsToken-pw = (ground arith, ground arith)

abbrev with_secret : Store
with_secret = (set_node_secret vault (codes "iv") (codes "gpu") (codes "pw") 9 store).0
