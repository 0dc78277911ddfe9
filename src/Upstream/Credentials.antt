-- ===== src/Upstream/Credentials.antt =====
-- Whom dashboard/src/proxy.js sends the key of the environment to.
use swiftlm_platform.Base.{
  ◌≡◌, ◌≢◌, ap, Bool, true, false, [], ◌∷◌, Text, codes, if◌then◌else◌, arith,
}
use swiftlm_platform.Store.{Node}
use swiftlm_platform.Server.{Config}
use swiftlm_platform.NodeAuth.{Body}
use swiftlm_platform.Providers.{build_auth_headers, provider_headers, provider_for}
use swiftlm_platform.Upstream.{
  Signing, spread_headers, resolve_credential, upstream_headers, Call, sending, body_of,
  gateway_identity_headers,
}

resolve_credential-other :
    (cfg : Config) (key : Text) (n : Node)
    → n.id ≢ cfg.default_node_id
    → resolve_credential (record cfg { upstream_api_key = key }) n ≡ resolve_credential cfg n
unfolding resolve_credential
resolve_credential-other cfg key n ne = ground arith

upstream_headers-other :
    (cfg : Config) (key : Text) (g : Signing) (n : Node) (method path : Text) (body : Body)
    (stream json inference : Bool)
    → n.id ≢ cfg.default_node_id
    → upstream_headers
        (record cfg { upstream_api_key = key })
        g
        n
        method
        path
        body
        stream
        json
        inference
      ≡ upstream_headers cfg g n method path body stream json inference
unfolding upstream_headers
upstream_headers-other cfg key g n method path body stream json inference ne =
    ap
      (λ c.
        spread_headers
          (spread_headers
            (spread_headers (build_auth_headers c)
              (if inference then provider_headers (provider_for n.provider) stream else []))
            (if json then (codes "Content-Type", codes "application/json") ∷ [] else []))
          (gateway_identity_headers g n method path body))
      (resolve_credential-other cfg key n ne)

-- A node that is not the default node is sent the same requests whatever the key of the environment
-- is, so nothing of that key reaches it: neither in a header nor in a body.
pub sending-other_node :
    (cfg : Config) (key : Text) (g : Signing) (call : Call) (n : Node)
    → n.id ≢ cfg.default_node_id
    → sending (record cfg { upstream_api_key = key }) g call n ≡ sending cfg g call n
sending-other_node cfg key g call n ne = ground (
  arith,
  upstream_headers-other cfg key g n (codes "GET") (codes "/models") Body.absent false false false
      ne,
  upstream_headers-other cfg key g n call.method call.route (body_of call n) call.stream true true
      ne,
)
