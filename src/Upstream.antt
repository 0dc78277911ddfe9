-- ===== src/Upstream.antt =====
-- dashboard/src/proxy.js: the request that goes to a node, with the headers that `upstreamHeaders`
-- makes. `chat` stands for `prepareRequestBody` and JSON.stringify.
pub mod Credentials
use swiftlm_platform.Base.{
  ℕ, ◌-◌, Bool, true, false, not, ◌&&◌, ◌||◌, Option, none, some, List, [], ◌∷◌, ◌++◌, map, filter,
  Text, codes, ◌==◌, is_empty, or_else, if◌then◌else◌, length, take, ltb, leb,
}
use swiftlm_platform.Store.{Node}
use swiftlm_platform.Providers.{
  Headers, Credential, build_auth_headers, provider_for, provider_headers,
}
use swiftlm_platform.NodeAuth.{Host, Body, Request, Signature, sign}
use swiftlm_platform.Server.{Config}

abbrev pub text_of : Option Text → Text
text_of none = []
text_of (some t) = t

-- The key of the environment is for the default node alone.
unfoldable pub resolve_credential : Config → Node → Credential
resolve_credential cfg n = record {
  auth_type = or_else n.auth_type (codes "bearer");
  auth_header = text_of n.auth_header;
  credential = or_else (text_of n.upstream_api_key) (
      if not (is_empty cfg.default_node_id) && (n.id == cfg.default_node_id)
      then cfg.upstream_api_key
      else []);
}

-- What is signed with: the digests, the clock's text, a nonce, and the path of the node's address
-- with this route.
pub record Signing : Type 0 where
  pub host : Host
  pub timestamp : Text
  pub nonce : Text
  pub pathname : Text → Text

abbrev signature_headers : Signature → Headers
signature_headers g =
    (codes "X-Node-Id", g.node_id)
    ∷ (codes "X-Node-Timestamp", g.timestamp)
    ∷ (codes "X-Node-Nonce", g.nonce)
    ∷ (codes "X-Node-Signature", g.signature)
    ∷ []

abbrev pub url_of : Node → Text → Text
url_of n path = n.origin_base_url ++ path

unfoldable pub gateway_identity_headers : Signing → Node → Text → Text → Body → Headers
unfolding sign
gateway_identity_headers g n method path body =
    if is_empty (text_of n.node_secret)
    then []
    else signature_headers (
        sign g.host (text_of n.node_secret)
          (record {
            method = method;
            path = g.pathname (url_of n path);
            node_id = n.id;
            body = body;
          })
          g.timestamp g.nonce)

-- A property of an object: one of the same name gets the new value.
abbrev set_header : Text → Text → Headers → Headers
set_header name value [] = (name, value) ∷ []
set_header name value ((m, v) ∷ hs) =
    if m == name then (name, value) ∷ hs else (m, v) ∷ set_header name value hs

-- `{ ...hs, ...more }`: what comes later overrides what is there.
unfoldable pub spread_headers : Headers → Headers → Headers
spread_headers hs [] = hs
spread_headers hs ((name, value) ∷ more) = spread_headers (set_header name value hs) more

unfoldable pub upstream_headers :
    Config → Signing → Node → Text → Text → Body → Bool → Bool → Bool → Headers
unfolding resolve_credential build_auth_headers gateway_identity_headers provider_for
    provider_headers spread_headers
upstream_headers cfg g n method path body stream json inference =
    spread_headers
      (spread_headers
        (spread_headers (build_auth_headers (resolve_credential cfg n))
          (if inference then provider_headers (provider_for n.provider) stream else []))
        (if json then (codes "Content-Type", codes "application/json") ∷ [] else []))
      (gateway_identity_headers g n method path body)

pub record Sending : Type 0 where
  pub url : Text
  pub method : Text
  pub headers : Headers
  pub body : Body

-- A client's request: the route is the path without `/v1`, and `model` and `accept` are empty if they
-- are missing.
pub record Call : Type 0 where
  pub method : Text
  pub path : Text
  pub route : Text
  pub stream : Bool
  pub model : Text
  pub raw : Body
  pub chat : Text → Body
  pub accept : Text
  pub preview : Text

abbrev pub body_of : Call → Node → Body
body_of call n =
    if call.route == codes "/chat/completions"
    then call.chat (or_else call.model n.model_id)
    else call.raw

abbrev pub sending : Config → Signing → Call → Node → Sending
sending cfg g call n =
    if call.route == codes "/models"
    then record {
      url = url_of n (codes "/models");
      method = codes "GET";
      headers =
          upstream_headers cfg g n (codes "GET") (codes "/models") Body.absent false false false;
      body = Body.absent;
    }
    else record {
      url = url_of n call.route;
      method = call.method;
      headers =
          spread_headers
            (upstream_headers cfg g n call.method call.route (body_of call n) call.stream true true)
            ((codes "Accept", or_else call.accept (codes "application/json")) ∷ []);
      body = body_of call n;
    }
