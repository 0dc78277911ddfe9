-- ===== src/Agent/Inbound.antt =====
-- mlx-gateway/server.mjs against dashboard/src/proxy.js: a request that the dashboard signs, at an
-- enrolled gateway.
use swiftlm_platform.Base.{
  Bytes, ℕ, ◌+◌, ◌≤◌, ◌≡◌, ◌≢◌, refl, ap, ◌∙◌, false, [], some, none, Text, arith,
}
use swiftlm_platform.NodeAuth.{
  exactly, Host, Cache, Body, Request, Signature, accepted, has, live, claim, nonce_key, sign,
  verify, window_ms, parse_signature_headers,
}
use swiftlm_platform.NodeAuth.Signing.{verify-sign_claims, sign-json}
use swiftlm_platform.Providers.{Headers}
use swiftlm_platform.Store.{Node}
use swiftlm_platform.Upstream.{Signing, gateway_identity_headers, url_of}
use swiftlm_platform.Agent.{
  AgentState, verify_gateway_request, lower_names, signed_headers, parse-signed,
}

-- The headers that the dashboard adds for an enrolled node.
identity_headers-signed :
    (g : Signing) (n : Node) (id secret method route url : Text) (body : Body)
    → n.id ≡ id
    → n.node_secret ≡ some secret
    → secret ≢ []
    → g.pathname (url_of n route) ≡ url
    → gateway_identity_headers g n method route body
      ≡ signed_headers (
          sign g.host secret
            (record { method = method; path = url; node_id = id; body = body })
            g.timestamp
            g.nonce)
unfolding gateway_identity_headers sign
identity_headers-signed g n id secret method route url body same has_secret full path = grind arith

-- A request whose signature is accepted is taken.
request-verified :
    (h : Host) (a : AgentState) (headers : Headers) (method url : Text) (body : Bytes) (now : ℕ)
    (seen seen' : Cache) (s : Signature)
    → parse_signature_headers headers ≡ s
    → s.node_id ≡ a.node_id
    → verify h window_ms a.node_secret
        (record {
          method = method;
          path = url;
          node_id = a.node_id;
          body = Body.text (h.to_text body);
        })
        s
        now
        seen
      ≡ (seen', accepted)
    → verify_gateway_request h a headers method url body now seen ≡ (seen', none)
unfolding verify_gateway_request
request-verified h a headers method url body now seen seen' s parsed same fine = grind arith

-- The gateway takes a request that the dashboard signed for it: the secret and the id are those of the
-- node's row, and the gateway gets the method, the path of the address and the body's text that were
-- signed. The header texts are not empty, the timestamp is a whole number in the window of the gateway's
-- clock, and the nonce is new.
pub dashboard_request_accepted :
    (g : Signing) (a : AgentState) (n : Node) (method route url body : Text) (raw : Bytes)
    (t now : ℕ) (seen : Cache)
    → n.id ≡ a.node_id
    → n.node_secret ≡ some a.node_secret
    → g.pathname (url_of n route) ≡ url
    → g.host.to_text raw ≡ body
    → a.node_secret ≢ []
    → g.timestamp ≢ []
    → g.nonce ≢ []
    → (sign g.host a.node_secret
        (record { method = method; path = url; node_id = a.node_id; body = Body.json body })
        g.timestamp
        g.nonce).signature
      ≢ []
    → g.host.number g.timestamp ≡ some (exactly t)
    → now ≤ t + window_ms
    → t ≤ now + window_ms
    → has (nonce_key a.node_id g.nonce) (live now seen) ≡ false
    → verify_gateway_request g.host a
        (lower_names (gateway_identity_headers g n method route (Body.json body)))
        method
        url
        raw
        now
        seen
      ≡ ((claim window_ms (nonce_key a.node_id g.nonce) now seen).0, none)
unfolding sign
dashboard_request_accepted g a n method route url body raw t now seen same has_secret path read p₁
      p₂ p₃ p₄ p₅ p₆ p₇ p₈ =
    let r : Request = record {
      method = method;
      path = url;
      node_id = a.node_id;
      body = Body.text (g.host.to_text raw);
    } in
    let json : sign g.host a.node_secret
          (record { method = method; path = url; node_id = a.node_id; body = Body.json body })
          g.timestamp g.nonce
        ≡ sign g.host a.node_secret r g.timestamp g.nonce =
      rw read (sign-json g.host a.node_secret method url a.node_id body g.timestamp g.nonce) in
    let headers =
      identity_headers-signed g n a.node_id a.node_secret method route url (Body.json body) same
        has_secret p₁ path in
    request-verified g.host a
      (lower_names (gateway_identity_headers g n method route (Body.json body))) method url raw now
      seen (claim window_ms (nonce_key a.node_id g.nonce) now seen).0
      (sign g.host a.node_secret r g.timestamp g.nonce)
      (ap (λ hs. parse_signature_headers (lower_names hs)) (headers ∙ ap signed_headers json)
        ∙ parse-signed (sign g.host a.node_secret r g.timestamp g.nonce))
      refl
      (verify-sign_claims g.host now t a.node_secret g.timestamp g.nonce r seen p₁ p₂ p₃
        (λ e. p₄ (ap (λ s. s.signature) json ∙ e)) p₅ p₆ p₇ p₈)
