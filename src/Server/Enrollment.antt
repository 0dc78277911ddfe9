-- ===== src/Server/Enrollment.antt =====
-- dashboard/src/server.js: how a node enrolls itself with a one-time token, and its heartbeats.
pub mod OneNode
pub mod OneToken
use swiftlm_platform.Base.{
  ℕ, Bool, true, false, not, ◌&&◌, ◌||◌, Option, none, some, List, [], ◌∷◌, Text, codes, ◌==◌,
  is_empty, trim, starts_with, leb, if◌then◌else◌,
}
use swiftlm_platform.NodeAuth.{
  Host, Cache, Verdict, Body, verify, Request, window_ms, parse_signature_headers, accepted,
  missing_fields, timestamp_out_of_window, invalid_signature, replayed_nonce,
}
use swiftlm_platform.Store.{Store, Node, EnrollmentToken, Result, ok, err, Outcome}
use swiftlm_platform.Store.Nodes.{
  Vault, NodeInput, create_node, set_node_secret, get_node_for_proxy, record_heartbeat,
}
use swiftlm_platform.Store.Tokens.{
  prune_expired_enrollment_tokens, peek_enrollment_token, consume_enrollment_token, is_unused,
}
use swiftlm_platform.Store.Deletion.{delete_node}
use swiftlm_platform.Server.{Config}
use swiftlm_platform.Server.Input.{Url, NodeBody, NodeFields, read_node, safe_node_id}
use swiftlm_platform.Server.NodeRoutes.{node_input}

abbrev pub enrollment_token_prefix : Text
enrollment_token_prefix = codes "enroll_"

-- What the handler draws at random, and what it reads on the clock, in the order of the calls.
pub record Draws : Type 0 where
  pub node_id : Text
  pub row_id : Text
  pub key_iv : Text
  pub secret_iv : Text
  pub secret : Text
  pub pruned_at : ℕ
  pub checked_at : ℕ
  pub created_at : ℕ
  pub enrolled_at : ℕ
  pub used_at : ℕ
  pub consumed_at : ℕ

-- The statuses 201, 400, 401, 409, 410, and 500 for an exception that nothing catches.
pub data Reply : Type 0 where
  enrolled : Text → Text → Reply
  bad_token unknown_token used_token expired_token bad_input taken_node spent_token failed : Reply

-- The token is taken last; without it the new node goes again.
abbrev pub undo : Text → Outcome Bool → Store × Reply
undo id (s, ok deleted) = (s, spent_token)
undo id (s, err e) = (s, failed)

abbrev pub keep_or_undo : Text → Text → Outcome Bool → Store × Reply
keep_or_undo id secret (s, err e) = (s, failed)
keep_or_undo id secret (s, ok true) = (s, enrolled id secret)
keep_or_undo id secret (s, ok false) = undo id (delete_node id true s)

abbrev pub claim_token : Text → Draws → Outcome Bool → Store × Reply
claim_token digest d (s, err e) = (s, failed)
claim_token digest d (s, ok changed) =
    keep_or_undo d.node_id d.secret
      (consume_enrollment_token digest d.node_id d.used_at d.consumed_at s)

abbrev pub give_secret : Config → Text → Draws → Outcome Node → Store × Reply
give_secret cfg digest d (s, err e) = (s, taken_node)
give_secret cfg digest d (s, ok n) =
    claim_token digest d (set_node_secret cfg.vault d.secret_iv d.node_id d.secret d.enrolled_at s)

abbrev pub register : Config → Text → Draws → Store → Option NodeFields → Store × Reply
register cfg digest d s none = (s, bad_input)
register cfg digest d s (some f) =
    give_secret cfg digest d
      (create_node cfg.vault d.key_iv d.row_id (node_input d.node_id f) d.created_at s)

abbrev pub with_token :
    Config → Text → Draws → Option NodeFields → Store → Option EnrollmentToken → Store × Reply
with_token cfg digest d f s none = (s, unknown_token)
with_token cfg digest d f s (some t) =
    if not (is_unused t)
    then (s, used_token)
    else if leb t.expires_at d.checked_at
    then (s, expired_token)
    else register cfg digest d s f

-- POST /api/node-agent/enroll; `digest_of` is SHA-256 in hexadecimal.
unfoldable pub enroll :
    Config → (Text → Text) → (Text → Option Url) → Text → NodeBody → Draws → Store → Store × Reply
unfolding prune_expired_enrollment_tokens trim
enroll cfg digest_of parse token body d s =
    let s₁ = prune_expired_enrollment_tokens d.pruned_at s in
    let digest = digest_of (trim token) in
    if not (starts_with enrollment_token_prefix (trim token))
    then (s₁, bad_token)
    else with_token cfg digest d (read_node parse (codes "none") body) s₁
        (peek_enrollment_token digest s₁)

-- POST /api/node-agent/:id/heartbeat, with the statuses 200, 404 and 401. The nonces are those of
-- all heartbeats. The capabilities are the text that is stored of them.
pub record Beat : Type 0 where
  pub param : Text
  pub headers : List (Text × Text)
  pub method : Text
  pub path : Text
  pub body : Body
  pub agent_version : Option Text
  pub capabilities : Option Text

abbrev pub beat_request : Beat → Request
beat_request b = record {
  method = b.method;
  path = b.path;
  node_id = safe_node_id b.param;
  body = b.body;
}

abbrev recorded : Beat → ℕ → Store → Cache × Verdict → (Store × Cache) × ℕ
recorded b now s (seen, accepted) =
    (((record_heartbeat (safe_node_id b.param) b.agent_version b.capabilities now s).0, seen), 200)
recorded b now s (seen, missing_fields) = ((s, seen), 401)
recorded b now s (seen, timestamp_out_of_window) = ((s, seen), 401)
recorded b now s (seen, invalid_signature) = ((s, seen), 401)
recorded b now s (seen, replayed_nonce) = ((s, seen), 401)

abbrev checked : Host → Beat → ℕ → ℕ → Store → Cache → Option Text → (Store × Cache) × ℕ
checked h b checked_at now s seen none = ((s, seen), 404)
checked h b checked_at now s seen (some secret) =
    let signature = parse_signature_headers b.headers in
    if is_empty secret
    then ((s, seen), 404)
    else if not (signature.node_id == safe_node_id b.param)
    then ((s, seen), 401)
    else recorded b now s (verify h window_ms secret (beat_request b) signature checked_at seen)

abbrev secret_of : Option Node → Option Text
secret_of none = none
secret_of (some n) = n.node_secret

unfoldable pub heartbeat : Config → Host → Beat → ℕ → ℕ → Store → Cache → (Store × Cache) × ℕ
unfolding safe_node_id get_node_for_proxy parse_signature_headers
heartbeat cfg h b checked_at now s seen =
    checked h b checked_at now s seen
      (secret_of (get_node_for_proxy cfg.vault (safe_node_id b.param) s))
