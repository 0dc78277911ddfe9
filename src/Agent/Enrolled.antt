-- ===== src/Agent/Enrolled.antt =====
-- From a token to a heartbeat: dashboard/src/server.js enrolls a node and mlx-gateway/nodeAgent.mjs
-- sends heartbeats with what it got.
use swiftlm_platform.Base.{
  ℕ, ◌+◌, ◌≤◌, ◌≡◌, ◌≢◌, refl, sym, ap, ◌∙◌, inl, inr, Bool, true, false, Option, none, some, List,
  [], ◌∷◌, ◌++◌, Text, ◌==◌, arith, Bool-cases, trim, codes, starts_with,
}
use swiftlm_platform.NodeAuth.{exactly, Host, Cache, has, live, nonce_key, sign, window_ms}
use swiftlm_platform.Store.{Store, Node, find_node, ok, err, Outcome, EnrollmentToken, Result-cases}
use swiftlm_platform.Store.Secrets.{IsToken, encrypt_node_key}
use swiftlm_platform.Store.Credentials.{secret-found}
use swiftlm_platform.Store.Tokens.{
  consume_enrollment_token, prune_expired_enrollment_tokens, peek_enrollment_token,
}
use swiftlm_platform.Store.Nodes.{
  Vault, NodeInput, create_node, insert_with_model, insert_node, insert_node_model, node_row,
  get_node_for_proxy, set_node_secret,
}
use swiftlm_platform.Store.Deletion.{delete_node}
use swiftlm_platform.Server.{Config}
use swiftlm_platform.Server.Input.{safe_node_id, Url, NodeBody, NodeFields, read_node}
use swiftlm_platform.Server.NodeRoutes.{node_input}
use swiftlm_platform.Server.Enrollment.{
  Draws, Reply, enrolled, enroll, with_token, register, give_secret, claim_token, keep_or_undo,
  undo,
}
use swiftlm_platform.Server.Enrollment.OneToken.{enroll-prefixed}
use swiftlm_platform.Agent.{AgentState, AgentJson, Capabilities, send_heartbeat, beat_request}
use swiftlm_platform.Agent.Delivery.{answer, delivered}
use swiftlm_platform.Agent.Beats.{heartbeat_accepted}

-- The node of the new id, with the new secret.
abbrev pub HasSecret : Vault → Text → Text → Store → Type 0
HasSecret v id secret s =
    (m : Node) × (get_node_for_proxy v id s ≡ some m) × (m.node_secret ≡ some secret)

find_node-append :
    (ns : List Node) (n : Node) → (m : Node) × (find_node n.id (ns ++ (n ∷ [])) ≡ some m)
find_node-append [] n = (n, ground arith)
find_node-append (x ∷ ns) n =
    let (m, e) = find_node-append ns n in
    elim (Bool-cases (x.id == n.id)) [ inl q ↦ (x, ground arith) | inr q ↦ (m, ground arith) ]

create_node-found :
    (v : Vault) (iv row_id : Text) (i : NodeInput) (now : ℕ) (s : Store) (n : Node)
    → (create_node v iv row_id i now s).1 ≡ ok n
    → (m : Node) × (find_node i.id (create_node v iv row_id i now s).0.nodes ≡ some m)
unfolding create_node insert_with_model insert_node insert_node_model
create_node-found v iv row_id i now s n fine =
    elim (Result-cases (encrypt_node_key v.cipher iv i.upstream_api_key v.key)) [
      | inl (f, q) ↦ absurd (ground arith)
      | inr (sealed, q) ↦
          let (m, e) = find_node-append s.nodes (node_row i sealed now) in (m, ground arith)
    ]

get_node_for_proxy-consume :
    (v : Vault) (id digest : Text) (used now : ℕ) (node_id : Text) (s : Store)
    → get_node_for_proxy v id (consume_enrollment_token digest node_id used now s).0
      ≡ get_node_for_proxy v id s
unfolding consume_enrollment_token get_node_for_proxy
get_node_for_proxy-consume v id digest used now node_id s = ground arith

-- A reply of an enrollment tells what the table holds.
abbrev Told : Vault → Store × Reply → Type 0
Told v (s, r) = (id secret : Text) → r ≡ enrolled id secret → HasSecret v id secret s

Told-by : (v : Vault) {a b : Store × Reply} (e : a ≡ b) → Told v a → Told v b
Told-by v e h = rw (sym e) h

Told-undo : (v : Vault) (id : Text) (o : Outcome Bool) → Told v (undo id o)
Told-undo v id (s, ok b) i x e = cc
Told-undo v id (s, err f) i x e = cc

Told-keep_or_undo :
    (v : Vault) (id secret : Text) (o : Outcome Bool)
    → HasSecret v id secret o.0
    → Told v (keep_or_undo id secret o)
Told-keep_or_undo v id secret (s, err f) held i x e = cc
Told-keep_or_undo v id secret (s, ok true) (m, found, mine) i x e =
    (m, ground (arith, found, mine, e), ground (arith, mine, e))
Told-keep_or_undo v id secret (s, ok false) held i x e =
    Told-undo v id (delete_node id true s) i x e

Told-claim_token :
    (v : Vault) (digest : Text) (d : Draws) (o : Outcome Bool)
    → HasSecret v d.node_id d.secret o.0
    → Told v (claim_token digest d o)
Told-claim_token v digest d (s, err e) held = λ i x e. cc
Told-claim_token v digest d (s, ok b) (m, found, mine) =
    Told-keep_or_undo v d.node_id d.secret
      (consume_enrollment_token digest d.node_id d.used_at d.consumed_at s)
      (
        m,
        get_node_for_proxy-consume v d.node_id digest d.used_at d.consumed_at d.node_id s ∙ found,
        mine,
      )

-- The key of the stored secrets, and that it opens what is sealed with it.
module _ (cfg : Config) (key : Text) (d : Draws) (has_key : cfg.vault.key ≡ some key)
    (nonempty : d.secret ≢ []) (iv : IsToken d.secret_iv)
    (tag : IsToken (cfg.vault.cipher.seal key d.secret_iv d.secret).0)
    (sealed : IsToken (cfg.vault.cipher.seal key d.secret_iv d.secret).1)
    (opens : cfg.vault.cipher.unseal key d.secret_iv
        (cfg.vault.cipher.seal key d.secret_iv d.secret).0
        (cfg.vault.cipher.seal key d.secret_iv d.secret).1
      ≡ some d.secret) where
  Told-give_secret :
      (digest : Text) (o : Outcome Node)
      → ((n : Node) → o.1 ≡ ok n → (m : Node) × (find_node d.node_id o.0.nodes ≡ some m))
      → Told cfg.vault (give_secret cfg digest d o)
  Told-give_secret digest (s, err e) found = λ i x e. cc
  Told-give_secret digest (s, ok n) found =
      let (m, e) = found n refl in
      Told-claim_token cfg.vault digest d
        (set_node_secret cfg.vault d.secret_iv d.node_id d.secret d.enrolled_at s)
        (secret-found cfg.vault key d.secret_iv d.node_id d.secret d.enrolled_at s m has_key e
          nonempty iv tag sealed opens)

  Told-register :
      (digest : Text) (s : Store) (f : Option NodeFields)
      → Told cfg.vault (register cfg digest d s f)
  Told-register digest s none = λ i x e. cc
  Told-register digest s (some f) =
      let i = node_input d.node_id f in
      Told-give_secret digest (create_node cfg.vault d.key_iv d.row_id i d.created_at s)
        (create_node-found cfg.vault d.key_iv d.row_id i d.created_at s)

  Told-with_token :
      (digest : Text) (f : Option NodeFields) (s : Store) (t : Option EnrollmentToken)
      → Told cfg.vault (with_token cfg digest d f s t)
  Told-with_token digest f s none i x e = cc
  Told-with_token digest f s (some t) i x e = grind (arith, Told-register digest s f i x)

  -- What an enrollment that succeeds replies is what the dashboard then holds for the node.
  pub Told-enroll :
      (digest_of : Text → Text) (parse : Text → Option Url) (token : Text) (body : NodeBody)
      (s : Store)
      → Told cfg.vault (enroll cfg digest_of parse token body d s)
  unfolding enroll
  Told-enroll digest_of parse token body s i x e =
      elim (Bool-cases (starts_with (codes "enroll_") (trim token))) [
        | inl q ↦
            let s₁ = prune_expired_enrollment_tokens d.pruned_at s in
            let f = read_node parse (codes "none") body in
            let t = peek_enrollment_token (digest_of (trim token)) s₁ in
            Told-by cfg.vault (sym (enroll-prefixed cfg digest_of parse token body d s q))
              (Told-with_token (digest_of (trim token)) f s₁ t) i x e
        | inr q ↦ absurd (grind arith)
      ]

-- A node that the dashboard has enrolled is known to it: the request that the gateway sends as a
-- heartbeat, with the id and the secret of the reply, reaches the handler of heartbeats of a dashboard
-- that is at the address that the gateway keeps, by the address, the method and the path of the request,
-- and is answered 200. The dashboard's key opens what it seals, in base64url, the id is one that it
-- allows, the texts are not empty, the timestamp is a whole number in the window, and the nonce is new.
pub enrolled_node_beats :
    (cfg : Config) (key : Text) (d : Draws) (digest_of : Text → Text) (parse : Text → Option Url)
    (token : Text) (body : NodeBody) (s : Store) (h : Host) (k : AgentJson) (a : AgentState)
    (version : Text) (caps : Capabilities) (timestamp nonce : Text) (t checked_at now : ℕ)
    (seen : Cache)
    → cfg.vault.key ≡ some key
    → d.secret ≢ []
    → IsToken d.secret_iv
    → IsToken (cfg.vault.cipher.seal key d.secret_iv d.secret).0
    → IsToken (cfg.vault.cipher.seal key d.secret_iv d.secret).1
    → cfg.vault.cipher.unseal key d.secret_iv
        (cfg.vault.cipher.seal key d.secret_iv d.secret).0
        (cfg.vault.cipher.seal key d.secret_iv d.secret).1
      ≡ some d.secret
    → (enroll cfg digest_of parse token body d s).1 ≡ enrolled a.node_id a.node_secret
    → safe_node_id a.node_id ≡ a.node_id
    → a.node_id ≢ []
    → a.node_secret ≢ []
    → timestamp ≢ []
    → nonce ≢ []
    → (sign h a.node_secret (beat_request k a version caps) timestamp nonce).signature ≢ []
    → h.number timestamp ≡ some (exactly t)
    → checked_at ≤ t + window_ms
    → t ≤ checked_at + window_ms
    → has (nonce_key a.node_id nonce) (live checked_at seen) ≡ false
    → (answer cfg h
        (delivered k a.dashboard_url (send_heartbeat h k a version caps timestamp nonce))
        checked_at
        now
        (enroll cfg digest_of parse token body d s).0
        seen).1
      ≡ 200
enrolled_node_beats cfg key d digest_of parse token body s h k a version caps timestamp nonce t
      checked_at now seen has_key full iv tag sealed opens told safe id_full p₁ p₂ p₃ p₄ p₅ p₆ p₇
      p₈ =
    let (n, found, mine) =
      Told-enroll cfg key d has_key full iv tag sealed opens digest_of parse token body s a.node_id
        a.node_secret told in
    ap (λ (r : (Store × Cache) × ℕ). r.1)
      (heartbeat_accepted cfg h k a version caps timestamp nonce t checked_at now
        (enroll cfg digest_of parse token body d s).0 seen n safe id_full found mine p₁ p₂ p₃ p₄ p₅
        p₆ p₇ p₈)
