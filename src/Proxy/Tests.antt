-- ===== src/Proxy/Tests.antt =====
-- Instances of the theorems on `proxyOpenAI` of dashboard/src/proxy.js.
use swiftlm_platform.Base.{
  if◌then◌else◌, ℕ, ◌≡◌, refl, true, Option, none, some, List, [], ◌∷◌, ◌++◌, map, filter, Text,
  codes, ℕ_discrete, text_discrete, arith,
}
use swiftlm_platform.Store.{ApiRequest, Metrics}
use swiftlm_platform.Store.Sample.{gpu, gpu_key, store}
use swiftlm_platform.Store.Keys.{KeyWithNode}
use swiftlm_platform.Server.Sample.{config}
use swiftlm_platform.NodeAuth.{exactly, Body}
use swiftlm_platform.Collector.{create_metrics_collector}
use swiftlm_platform.Sse.{feed_all}
use swiftlm_platform.Stream.{Codec}
use swiftlm_platform.Proxy.{Answer, Parsed, proxy_open_ai, restricted}
use swiftlm_platform.Upstream.{Signing, Call, Sending, sending}
use swiftlm_platform.Relay.{Forward, flush, forward_chunks, frame}
use swiftlm_platform.Upstream.Credentials.{sending-other_node}
use swiftlm_platform.Proxy.Recording.{arrived, proxy_open_ai_records}
use swiftlm_platform.Relay.Forwarding.{for_client, nonempty, written-flush_chunks}

abbrev signing : Signing
signing = record {
  host = record {
    hmac_hex = λ k t. t;
    sha256_hex = λ t. t;
    number = λ t. some (exactly 1);
    to_text = λ b. b;
  };
  timestamp = codes "1";
  nonce = codes "n";
  pathname = λ t. t;
}

abbrev call : Call
call = record {
  method = codes "POST";
  path = codes "/v1/chat/completions";
  route = codes "/chat/completions";
  stream = true;
  model = codes "m2";
  raw = Body.absent;
  chat = Body.json;
  accept = [];
  preview = codes "{}";
}

abbrev codec : Codec
codec = record { parse = λ t. none; wrap = λ t. t; provider_event = λ name t. if_metrics name }
  where
    if_metrics : Option Text → Option (Option Metrics)
    if_metrics none = none
    if_metrics (some name) = some none

sending-other_node_example :
    sending (record config { upstream_api_key = codes "other" }) signing call gpu
    ≡ sending config signing call gpu
sending-other_node_example =
    sending-other_node config (codes "other") signing call gpu (ground arith)

abbrev key : KeyWithNode
key = record { key = gpu_key; node = gpu }

-- An answer that breaks off behind its first event.
abbrev breaking : Sending → Answer
breaking q = Answer.answered 200 ((3, codes "data: a\n\n") ∷ []) (some (codes "reset"))

proxy_open_ai_records_example :
    (r : ApiRequest) × ((proxy_open_ai config signing codec
        (λ t. Parsed.not_json)
        breaking
        1
        2
        (codes "r2")
        call
        key
        store).0.0.api_requests
      ≡ store.api_requests ++ (r ∷ []))
    × (r.api_key_id ≡ some (codes "key1"))
    × (r.node_id ≡ some (codes "gpu"))
    × (r.status ≡ (
        if restricted call (codes "gpu") store
        then 400
        else arrived (breaking (sending config signing call gpu))))
unfolding text_discrete ℕ_discrete
proxy_open_ai_records_example =
    proxy_open_ai_records config signing codec (λ t. Parsed.not_json) breaking 1 2 (codes "r2") call
      key store refl refl refl (ground arith) (ground arith)

abbrev chunks : List (ℕ × Text)
chunks = (3, codes "data: a\n\nevent: mlx-me") ∷ (4, codes "trics\ndata: {}\n\ndata: b") ∷ []

abbrev pieces : List Text
pieces = codes "data: a\n\nevent: mlx-me" ∷ codes "trics\ndata: {}\n\ndata: b" ∷ []

abbrev begun : Forward
begun = record { collector = create_metrics_collector 1; response_preview = []; written = [] }

written-flush_chunks_example :
    (flush (forward_chunks codec [] chunks begun)).written
    ≡ map frame (filter (for_client codec) (feed_all [] pieces).0)
      ++ nonempty (feed_all [] pieces).1
written-flush_chunks_example = written-flush_chunks codec chunks begun
