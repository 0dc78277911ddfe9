-- ===== src/Proxy/Recording.antt =====
-- What dashboard/src/proxy.js records of the requests that it handles.
use swiftlm_platform.Base.{
  Bool, none, List, codes, Bool-cases, inl, inr, if◌then◌else◌, text_discrete, ℕ, ◌≡◌, ◌≢◌, refl,
  true, false, some, [], ◌∷◌, ◌++◌, Text, ◌==◌, any, arith,
}
use swiftlm_platform.Store.{Store, Node, ApiRequest, has_node, or_null?}
use swiftlm_platform.Store.Keys.{KeyWithNode}
use swiftlm_platform.Store.Requests.{record_request, request_row, Entry}
use swiftlm_platform.Server.{Config}
use swiftlm_platform.Proxy.{
  Answer, Parsed, proxy_open_ai, entry_of, handle, restricted, list_models, relay, broken_off,
}
use swiftlm_platform.Collector.{Collector, create_metrics_collector}
use swiftlm_platform.Relay.{Forward, forward_chunks}
use swiftlm_platform.Upstream.{Signing, Call, Sending, sending}
use swiftlm_platform.Stream.{Codec}

or_null?-some : (t : Text) → t ≢ [] → or_null? (some t) ≡ some t
or_null?-some [] ne = absurd (ne refl)
or_null?-some (c ∷ s) ne = refl

broken_off-status :
    (status : ℕ) (e : Text) (f : Forward) (written : List Text)
    → (broken_off status e f written).status ≡ 502
broken_off-status status e f [] = refl
broken_off-status status e f (w ∷ ws) = refl

record_request-appends :
    (id : Text) (e : Entry) (now : ℕ) (s : Store) (k n : Text)
    → or_null? e.api_key_id ≡ some k
    → or_null? e.node_id ≡ some n
    → any (λ r. r.id == id) s.api_requests ≡ false
    → any (λ j. j.id == k) s.api_keys ≡ true
    → has_node n s.nodes ≡ true
    → (record_request id e now s).0.api_requests ≡ s.api_requests ++ (request_row id e now ∷ [])
unfolding record_request
record_request-appends id e now s k n ek en fresh hk hn = ground arith

-- The status of an answer that has come whole, and 502 for one that has not.
abbrev pub arrived : Answer → ℕ
arrived (Answer.threw message) = 502
arrived (Answer.answered status chunks none) = status
arrived (Answer.answered status chunks (some message)) = 502
arrived (Answer.bodiless status) = status

list_models-arrived :
    (id : Text) (c : Collector) (s : Store) (a : Answer) → (list_models id c s a).status ≡ arrived a
list_models-arrived id c s (Answer.threw e) = refl
list_models-arrived id c s (Answer.answered status chunks (some e)) = refl
list_models-arrived id c s (Answer.answered status chunks none) = ground arith
list_models-arrived id c s (Answer.bodiless status) = ground arith

relay-arrived :
    (k : Codec) (parse : Text → Parsed) (streaming : Bool) (c : Collector) (a : Answer)
    → (relay k parse streaming c a).status ≡ arrived a
relay-arrived k parse streaming c (Answer.threw e) = refl
relay-arrived k parse true c (Answer.answered status chunks none) = refl
relay-arrived k parse true c (Answer.answered status chunks (some e)) =
    let f =
      forward_chunks k [] chunks (record { collector = c; response_preview = []; written = [] }) in
    broken_off-status status e f.0 f.0.written
relay-arrived k parse false c (Answer.answered status chunks none) = refl
relay-arrived k parse false c (Answer.answered status chunks (some e)) = refl
relay-arrived k parse streaming c (Answer.bodiless status) = refl

handle-arrived :
    (cfg : Config) (g : Signing) (k : Codec) (parse : Text → Parsed) (fetch : Sending → Answer)
    (started : ℕ) (call : Call) (n : Node) (s : Store)
    → (handle cfg g k parse fetch started call n s).status
      ≡ (if restricted call n.id s then 400 else arrived (fetch (sending cfg g call n)))
unfolding handle text_discrete
handle-arrived cfg g k parse fetch started call n s =
    let c = create_metrics_collector started in
    let a = fetch (sending cfg g call n) in
    elim (Bool-cases (call.route == codes "/models")) [
      | inl e ↦
          let route : call.route ≡ codes "/models" = ground arith in
          ground (arith, route, list_models-arrived n.id c s a)
      | inr e ↦ ground (arith, relay-arrived k parse call.stream c a)
    ]

-- In whichever branch a request ends, the history gets exactly one row, with the key and the key's node.
-- Its status is 400 where the key's node does not have the model that is asked for, whatever the
-- upstream would have answered; else it is the upstream's if its answer has come whole, and 502 if the
-- request threw or the answer broke off, also where the client has had another status by then. The key
-- and the node are still there, and the row's identifier is new.
pub proxy_open_ai_records :
    (cfg : Config) (g : Signing) (k : Codec) (parse : Text → Parsed) (fetch : Sending → Answer)
    (started now : ℕ) (id : Text) (call : Call) (key : KeyWithNode) (s : Store)
    → any (λ r. r.id == id) s.api_requests ≡ false
    → any (λ j. j.id == key.key.id) s.api_keys ≡ true
    → has_node key.node.id s.nodes ≡ true
    → key.key.id ≢ []
    → key.node.id ≢ []
    → (r : ApiRequest) × ((proxy_open_ai cfg g k parse fetch started now id call key
          s).0.0.api_requests
        ≡ s.api_requests ++ (r ∷ []))
      × (r.api_key_id ≡ some key.key.id)
      × (r.node_id ≡ some key.node.id)
      × (r.status ≡ (
          if restricted call key.node.id s
          then 400
          else arrived (fetch (sending cfg g call key.node))))
unfolding proxy_open_ai
proxy_open_ai_records cfg g k parse fetch started now id call key s fresh has_key has_its_node ki
      ni =
    let e = entry_of call key started now (handle cfg g k parse fetch started call key.node s) in
    let ek = or_null?-some key.key.id ki in
    let en = or_null?-some key.node.id ni in
    (
      request_row id e now,
      record_request-appends id e now s key.key.id key.node.id ek en fresh has_key has_its_node,
      ek,
      en,
      handle-arrived cfg g k parse fetch started call key.node s,
    )
