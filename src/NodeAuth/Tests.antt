-- ===== src/NodeAuth/Tests.antt =====
-- Runs and instances of the theorems on dashboard/src/nodeAuth.js.
use swiftlm_platform.Base.{
  ℕ, ◌+◌, ◌-◌, ◌*◌, ◌%◌, ◌/◌, ◌≡◌, ◌≢◌, refl, Option, none, some, List, [], ◌∷◌, arith, Text, codes,
  text_discrete, leb, if◌then◌else◌,
}
use swiftlm_platform.NodeAuth.{
  Instant, exactly, Host, Body, Request, accepted, replayed_nonce, invalid_signature,
  timestamp_out_of_window, missing_fields, verify, hex_bytes, signing_string, sign, body_hash,
  parse_signature_headers,
}
use swiftlm_platform.NodeAuth.Replay.{
  Call, verify_call, after, no_replay_within_window, replay_after_window,
}
use swiftlm_platform.NodeAuth.Signing.{signing_string-injective}

abbrev sum : List ℕ → ℕ
sum [] = 0
sum (x ∷ xs) = x + sum xs

abbrev digit : ℕ → ℕ
digit d = if leb d 9 then b'0' + d else b'a' + (d - 10)

abbrev two_digits : ℕ → Text
two_digits n = digit (n / 16 % 16) ∷ digit (n % 16) ∷ []

abbrev decimal : ℕ → Text → Option Instant
decimal n [] = some (exactly n)
decimal n (c ∷ s) = if leb b'0' c then decimal (n * 10 + (c - b'0')) s else none

-- Digests of one byte stand in for the real ones.
abbrev host : Host
host = record {
  hmac_hex = λ s v. two_digits (sum s + sum v);
  sha256_hex = λ v. two_digits (sum v);
  number = decimal 0;
  to_text = λ b. b;
}

abbrev beat : Request
beat = record {
  method = codes "post";
  path = codes "/api/node-agent/n1/heartbeat";
  node_id = codes "n1";
  body = Body.json (codes "{}");
}

abbrev secret : Text
secret = codes "s3cret"

abbrev call_at : ℕ → Call
call_at now = record {
  secret = secret;
  request = beat;
  signature = sign host secret beat (codes "1000") (codes "abc");
  now = now;
}

verifying : Unit {0}
unfolding verify sign signing_string body_hash hex_bytes text_discrete
verifying = tt

first_accepted : (verify_call host 60 (call_at 1000) []).1 ≡ accepted
unfolding verifying
first_accepted = refl

replay_rejected :
    (verify_call host 60 (call_at 1059) (verify_call host 60 (call_at 1000) []).0).1
    ≡ replayed_nonce
unfolding verifying
replay_rejected = refl

outcomes :
    ((verify_call host 60 (call_at 1061) []).1 ≡ timestamp_out_of_window)
    × ((verify host 60 (codes "other") beat (call_at 0).signature 1000 []).1 ≡ invalid_signature)
    × ((verify host 60 [] beat (call_at 0).signature 1000 []).1 ≡ missing_fields)
unfolding verifying
outcomes = (refl, refl, refl)

headers_read : (parse_signature_headers ((codes "X-Node-Id", codes "n1") ∷ [])).node_id ≡ codes "n1"
unfolding parse_signature_headers text_discrete
headers_read = refl

no_replay_within_window_example :
    (verify_call host 60
      (call_at 1059)
      (after host 60 (call_at 1030 ∷ []) (verify_call host 60 (call_at 1000) []).0)).1
    ≢ accepted
unfolding verifying
no_replay_within_window_example =
    no_replay_within_window host 60 (call_at 1000) (call_at 1059) (call_at 1030 ∷ []) []
      first_accepted refl (omega arith) (omega arith)

replay_after_window_example :
    (verify_call host 60 (call_at 1060) (verify_call host 60 (call_at 1000) []).0).1 ≡ accepted
unfolding verifying
replay_after_window_example =
    replay_after_window host 60 1060 (exactly 1000) (call_at 1000) [] first_accepted refl
      (omega arith) (omega arith)

signing_string-injective_example : codes "abc" ≡ codes "abc"
signing_string-injective_example =
    (signing_string-injective host beat beat (codes "1") (codes "1") (codes "abc") (codes "abc")
      (omega arith) (omega arith) (omega arith) (omega arith) (omega arith) (omega arith)
      (omega arith) (omega arith) (omega arith) (omega arith) refl).4
