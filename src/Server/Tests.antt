-- ===== src/Server/Tests.antt =====
-- Instances of the theorems on dashboard/src/server.js.
use swiftlm_platform.Base.{
  Text, ℕ, ◌≡◌, refl, true, false, none, some, List, [], ◌∷◌, codes, ℕ_discrete, text_discrete,
  arith, trim,
}
use swiftlm_platform.Store.Sample.{vault, home, store}
use swiftlm_platform.Store.Steps
use swiftlm_platform.Store.Nodes.{
  get_node, get_node_for_proxy, create_node, insert_with_model, insert_node, insert_node_model,
  set_node_secret,
}
use swiftlm_platform.Store.Secrets.{encrypt_node_key, decrypt_node_key}
use swiftlm_platform.Store.Keys.{create_api_key, KeyWithNode}
use swiftlm_platform.Store.Tokens.{
  peek_enrollment_token, prune_expired_enrollment_tokens, consume_enrollment_token,
}
use swiftlm_platform.Server.Sample.{config, parse, body}
use swiftlm_platform.Server.Input.{
  safe_node_id, read_node, normalized_origin, parse_auth_input, is_supported_provider,
  is_supported_protocol, is_supported_auth_type, auth_requires_credential,
}
use swiftlm_platform.Server.Login.{attempt_of, login, too_many_attempts}
use swiftlm_platform.Server.Login.Lockout.{Try, after, eighth_failure_blocks}
use swiftlm_platform.Server.NodeRoutes.Default.{Serves, remove, serve, serve-Serves}
use swiftlm_platform.Server.KeyRoutes.{
  Issued, issue_key, require_api_key, resolve_enabled_node, chosen_node, granted,
}
use swiftlm_platform.Server.KeyRoutes.FreshKeys.{issued_key_is_granted}
use swiftlm_platform.Server.Enrollment.{Draws, enroll, used_token}
use swiftlm_platform.Store.{Node}
use swiftlm_platform.Upstream.{Signing, resolve_credential}
use swiftlm_platform.Server.Status.{answers, check_node, check_node-usable}
use swiftlm_platform.Server.Chats.{World, resolve_enabled_proxy_node}
use swiftlm_platform.Server.Chats.OneGeneration.{
  ends, chat_step, OnePerConversation, step-OnePerConversation,
}
use swiftlm_platform.Server.Enrollment.OneToken.{enrolls_once}
use swiftlm_platform.Server.Enrollment.OneNode.{AllOrNothing, enrolls-AllOrNothing}

abbrev wrong : Text → ℕ → Try
wrong ip now = record { ip = ip; password_ok = false; now = now }

-- Seven wrong passwords of one address, and a login of another one between them.
abbrev guesses : List Try
guesses =
    wrong (codes "a") 1
    ∷ wrong (codes "a") 2
    ∷ wrong (codes "a") 3
    ∷ record { ip = codes "b"; password_ok = true; now = 4 }
    ∷ wrong (codes "a") 5
    ∷ wrong (codes "a") 6
    ∷ wrong (codes "b") 7
    ∷ wrong (codes "a") 8
    ∷ wrong (codes "a") 9
    ∷ []

abbrev tries : List Try
tries =
    record { ip = codes "a"; password_ok = true; now = 12 }
    ∷ record { ip = codes "b"; password_ok = true; now = 13 }
    ∷ []

eighth_failure_blocks_example :
    (login (codes "a") true 20 (after tries (login (codes "a") false 10 (after guesses [])).0)).1
    ≡ too_many_attempts
unfolding attempt_of text_discrete ℕ_discrete
eighth_failure_blocks_example =
    eighth_failure_blocks (codes "a") 10 true 20 guesses tries [] refl
      (
        λ e. refl,
        (
          λ e. refl,
          (
            λ e. refl,
            (
              λ e. absurd (ground (arith, e)),
              (λ e. refl, (λ e. refl, (λ e. refl, (λ e. refl, (λ e. refl, tt))))),
            ),
          ),
        ),
      )
      refl (omega arith, (omega arith, tt)) (omega arith)

serve-Serves_example :
    Serves
      (codes "home")
      (codes "bearer")
      (some (codes "iv:key:tag"))
      (serve config (remove (codes "home") true) store).0.nodes
unfolding text_discrete ℕ_discrete
serve-Serves_example =
    serve-Serves config (codes "bearer") (some (codes "iv:key:tag")) (remove (codes "home") true)
      store (home, refl, refl, refl, refl)

abbrev issued : Issued
issued = record { id = codes "key2"; value = codes "sk-2"; prefix = codes "sk" }

issued_key_is_granted_example :
    (j : KeyWithNode) × ((require_api_key config
        (λ t. t)
        (codes "sk-2")
        30
        (issue_key config (λ t. t) issued (codes "mine") (codes "gpu") 20 store).0).1
      ≡ granted j)
    × (j.key.id ≡ codes "key2")
    × (j.node.id ≡ chosen_node config (codes "gpu"))
unfolding issue_key resolve_enabled_node safe_node_id get_node create_api_key text_discrete
    ℕ_discrete
issued_key_is_granted_example =
    issued_key_is_granted config (λ t. t) issued (codes "mine") (codes "gpu") 20 30 store refl
      (ground arith)

abbrev draws : Draws
draws = record {
  node_id = codes "new1";
  row_id = codes "w3";
  key_iv = codes "iv";
  secret_iv = codes "iv";
  secret = codes "pw";
  pruned_at = 10;
  checked_at = 10;
  created_at = 11;
  enrolled_at = 12;
  used_at = 13;
  consumed_at = 13;
}

enrolls_once_example :
    (enroll config
      (λ t. t)
      parse
      (codes "enroll_a")
      body
      draws
      (Steps.run vault
        (Steps.deletes_node (codes "new1") true ∷ [])
        (enroll config (λ t. t) parse (codes "enroll_a") body draws store).0)).1
    ≡ used_token
unfolding enroll peek_enrollment_token prune_expired_enrollment_tokens consume_enrollment_token
    read_node normalized_origin parse_auth_input is_supported_provider is_supported_protocol
    is_supported_auth_type auth_requires_credential create_node insert_with_model insert_node
    insert_node_model set_node_secret encrypt_node_key trim text_discrete ℕ_discrete
enrolls_once_example =
    enrolls_once config (λ t. t) parse (codes "enroll_a") body body draws draws
      (Steps.deletes_node (codes "new1") true ∷ []) store (refl, tt) refl

enrolls-AllOrNothing_example :
    AllOrNothing store.nodes
      (codes "new1")
      (enroll config (λ t. t) parse (codes "enroll_a") body draws store)
unfolding text_discrete ℕ_discrete
enrolls-AllOrNothing_example =
    enrolls-AllOrNothing config (λ t. t) parse (codes "k") (codes "enroll_a") body draws store refl
      refl refl

abbrev busy : World
busy = record {
  store = store;
  active =
      record { conversation_id = codes "c1"; controller = 1; aborted = false }
      ∷ record { conversation_id = codes "c2"; controller = 2; aborted = true }
      ∷ [];
}

step-OnePerConversation_example :
    OnePerConversation (chat_step config (ends (codes "c1") 1) busy).active
unfolding text_discrete ℕ_discrete
step-OnePerConversation_example =
    step-OnePerConversation config (ends (codes "c1") 1) busy (refl, (refl, tt))

abbrev late : Draws
late = record draws { pruned_at = 3600020 }

abbrev signing : Signing
signing = record {
  host = record {
    hmac_hex = λ s v. codes "ab";
    sha256_hex = λ v. codes "cd";
    number = λ t. none;
    to_text = λ b. b;
  };
  timestamp = codes "1000";
  nonce = codes "n";
  pathname = λ t. t;
}

abbrev listed : Node
listed = record home { upstream_api_key = none; node_secret = none }

check_node-usable_example : resolve_enabled_proxy_node config (codes "home") store ≡ true
unfolding get_node check_node get_node_for_proxy decrypt_node_key resolve_credential
    auth_requires_credential text_discrete ℕ_discrete
check_node-usable_example =
    check_node-usable config signing (λ r. answers 200) 30 31 store listed refl refl
