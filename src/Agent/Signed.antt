-- ===== src/Agent/Signed.antt =====
-- mlx-gateway/server.mjs: what an enrolled gateway lets through.
use swiftlm_platform.Base.{Bytes, ℕ, ◌≡◌, sym, Option, none, some, List, [], Text, arith}
use swiftlm_platform.NodeAuth.{
  Host, Cache, Body, window_ms, hex_bytes, signing_string, parse_signature_headers,
}
use swiftlm_platform.NodeAuth.Replay.{Call, verify-accepted_iff}
use swiftlm_platform.Gateway.{enqueue}
use swiftlm_platform.Agent.{AgentState, Rejection, verify_gateway_request}
use swiftlm_platform.Agent.Entry.{
  Incoming, Door, Reply, handle, queues, forwards, collect_body, Collected, collected, uncollected,
  enter, check_identity,
}

-- The headers carry the gateway's own id, and a signature with its secret of the method, the address,
-- the timestamp, the nonce and the text that the UTF-8 decoding of the body gives.
abbrev pub IsSigned : Host → AgentState → List (Text × Text) → Text → Text → Bytes → Type 0
IsSigned h a headers method url body =
    let g = parse_signature_headers headers in
    (g.node_id ≡ a.node_id)
    × (hex_bytes (
          h.hmac_hex a.node_secret (
            signing_string h
              (record {
                method = method;
                path = url;
                node_id = a.node_id;
                body = Body.text (h.to_text body);
              })
              g.timestamp g.nonce))
        ≡ hex_bytes g.signature)

pub verified-IsSigned :
    (h : Host) (a : AgentState) (headers : List (Text × Text)) (method url : Text) (body : Bytes)
    (now : ℕ) (seen : Cache)
    → (verify_gateway_request h a headers method url body now seen).1 ≡ none
    → IsSigned h a headers method url body
unfolding verify_gateway_request
verified-IsSigned h a headers method url body now seen fine =
    let c : Call = record {
      secret = a.node_secret;
      request = record {
        method = method;
        path = url;
        node_id = a.node_id;
        body = Body.text (h.to_text body);
      };
      signature = parse_signature_headers headers;
      now = now;
    } in
    (ground arith, ((verify-accepted_iff h window_ms c seen).0 (grind arith)).5)

-- The body of a request that goes on to the backend.
abbrev passed : Reply → Option Bytes
passed (queues body) = some body
passed (forwards body) = some body
passed _ = none

check_identity-passed :
    (limit now : ℕ) (r : Incoming) (read body : Bytes) (d : Door) (v : Cache × Option Rejection)
    → passed (check_identity limit now r read d v).1 ≡ some body
    → (v.1 ≡ none) × (read ≡ body)
unfolding enqueue
check_identity-passed limit now r read body d (seen, some e) out = ground arith
check_identity-passed limit now r read body d (seen, none) out = ground arith

enter-IsSigned :
    (limit : ℕ) (h : Host) (a : AgentState) (now : ℕ) (r : Incoming) (d : Door) (body : Bytes)
    (c : Collected)
    → passed (enter limit h (some a) now r d c).1 ≡ some body
    → IsSigned h a r.headers r.method r.url body
enter-IsSigned limit h a now r d body (uncollected e) out = cc
enter-IsSigned limit h a now r d body (collected read) out =
    let v = verify_gateway_request h a r.headers r.method r.url read now d.seen in
    let (fine, same) = check_identity-passed limit now r read body d v out in
    rw (sym same) (verified-IsSigned h a r.headers r.method r.url read now d.seen fine)

-- Whatever an enrolled gateway passes on to its backend, through the queue or straight, carries a
-- signature of the dashboard over this method, this address and the text that the UTF-8 decoding of
-- the body's bytes gives, however they came in chunks.
pub passed-IsSigned :
    (limit max_bytes : ℕ) (h : Host) (a : AgentState) (now : ℕ) (r : Incoming) (d : Door)
    (body : Bytes)
    → passed (handle limit max_bytes h (some a) now r d).1 ≡ some body
    → IsSigned h a r.headers r.method r.url body
unfolding handle
passed-IsSigned limit max_bytes h a now r d body out =
    enter-IsSigned limit h a now r d body (collect_body max_bytes 0 [] r.chunks r.ending)
      (ground arith)
