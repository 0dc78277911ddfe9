-- ===== src/Agent/Beats.antt =====
-- mlx-gateway/nodeAgent.mjs against dashboard/src/server.js: a gateway's heartbeats are taken.
use swiftlm_platform.Base.{
  codes, ℕ, ◌+◌, ◌≤◌, ◌≡◌, ◌≢◌, refl, ap, false, some, [], Text, arith, text_discrete,
}
use swiftlm_platform.NodeAuth.{
  exactly, Request, Host, Cache, Signature, accepted, has, live, claim, nonce_key, sign, verify,
  window_ms, parse_signature_headers,
}
use swiftlm_platform.NodeAuth.Signing.{verify-sign_claims}
use swiftlm_platform.Store.{Store, Node}
use swiftlm_platform.Store.Nodes.{get_node_for_proxy, record_heartbeat}
use swiftlm_platform.Server.{Config}
use swiftlm_platform.Server.Input.{safe_node_id}
use swiftlm_platform.Server.Enrollment.{Beat, heartbeat}
use swiftlm_platform.Server.Enrollment
use swiftlm_platform.Agent.{
  AgentState, AgentJson, Capabilities, send_heartbeat, beat_request, parse-signed, lower_names,
  heartbeat_path,
}
use swiftlm_platform.Agent.Delivery.{answer, delivered, delivered-heartbeat}
use swiftlm_platform.NodeAuth.{Body}

-- The dashboard reads from a heartbeat's headers the signature that was sent.
pub parse-sent :
    (h : Host) (k : AgentJson) (a : AgentState) (version : Text) (caps : Capabilities)
    (timestamp nonce : Text)
    → parse_signature_headers
        (lower_names (send_heartbeat h k a version caps timestamp nonce).headers)
      ≡ sign h a.node_secret (beat_request k a version caps) timestamp nonce
unfolding parse_signature_headers send_heartbeat sign text_discrete
parse-sent h k a version caps timestamp nonce =
    parse-signed (sign h a.node_secret (beat_request k a version caps) timestamp nonce)

-- A heartbeat whose signature is accepted is recorded.
heartbeat-verified :
    (cfg : Config) (h : Host) (b : Beat) (id secret : Text) (r : Request) (g : Signature)
    (checked_at now : ℕ) (s : Store) (seen seen' : Cache) (n : Node)
    → safe_node_id b.param ≡ id
    → Enrollment.beat_request b ≡ r
    → get_node_for_proxy cfg.vault id s ≡ some n
    → n.node_secret ≡ some secret
    → secret ≢ []
    → parse_signature_headers b.headers ≡ g
    → g.node_id ≡ id
    → verify h window_ms secret r g checked_at seen ≡ (seen', accepted)
    → heartbeat cfg h b checked_at now s seen
      ≡ (((record_heartbeat id b.agent_version b.capabilities now s).0, seen'), 200)
unfolding heartbeat
heartbeat-verified cfg h b id secret r g checked_at now s seen seen' n safe same found has_secret
      full parsed mine fine =
    grind arith

-- The dashboard at the address that the gateway keeps takes its heartbeat: it answers 200, stamps the
-- node with the version and the capabilities that it reads in the body, and keeps the nonce. The node is
-- enrolled, its id is one that the dashboard allows, its secret and the header texts are not empty, the timestamp is in the window of
-- the dashboard's clock, and the nonce is new.
pub heartbeat_accepted :
    (cfg : Config) (h : Host) (k : AgentJson) (a : AgentState) (version : Text)
    (caps : Capabilities) (timestamp nonce : Text) (t checked_at now : ℕ) (s : Store) (seen : Cache)
    (n : Node)
    → safe_node_id a.node_id ≡ a.node_id
    → a.node_id ≢ []
    → get_node_for_proxy cfg.vault a.node_id s ≡ some n
    → n.node_secret ≡ some a.node_secret
    → a.node_secret ≢ []
    → timestamp ≢ []
    → nonce ≢ []
    → (sign h a.node_secret (beat_request k a version caps) timestamp nonce).signature ≢ []
    → h.number timestamp ≡ some (exactly t)
    → checked_at ≤ t + window_ms
    → t ≤ checked_at + window_ms
    → has (nonce_key a.node_id nonce) (live checked_at seen) ≡ false
    → answer cfg h
        (delivered k a.dashboard_url (send_heartbeat h k a version caps timestamp nonce))
        checked_at
        now
        s
        seen
      ≡ (
        (
          (record_heartbeat a.node_id
              (k.read_beat (k.beat_text version caps)).0
              (k.read_beat (k.beat_text version caps)).1
              now
              s).0,
          (claim window_ms (nonce_key a.node_id nonce) checked_at seen).0,
        ),
        200,
      )
unfolding send_heartbeat sign answer
heartbeat_accepted cfg h k a version caps timestamp nonce t checked_at now s seen n safe id_full
      found secret p₁ p₂ p₃ p₄ p₅ p₆ p₇ p₈ =
    let sent = send_heartbeat h k a version caps timestamp nonce in
    let r = beat_request k a version caps in
    let b : Beat = record {
      param = a.node_id;
      headers = lower_names sent.headers;
      method = codes "POST";
      path = heartbeat_path a.node_id;
      body = Body.json sent.body;
      agent_version = (k.read_beat sent.body).0;
      capabilities = (k.read_beat sent.body).1;
    } in
    rw (delivered-heartbeat k a.dashboard_url a.node_id sent.body sent.headers safe id_full) (
      heartbeat-verified cfg h b a.node_id a.node_secret r (sign h a.node_secret r timestamp nonce)
        checked_at now s seen (claim window_ms (nonce_key a.node_id nonce) checked_at seen).0 n safe
        (ap (λ i. record r { node_id = i }) safe) found secret p₁
        (parse-sent h k a version caps timestamp nonce) refl
        (verify-sign_claims h checked_at t a.node_secret timestamp nonce r seen p₁ p₂ p₃ p₄ p₅ p₆ p₇
          p₈))
