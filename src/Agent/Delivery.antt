-- ===== src/Agent/Delivery.antt =====
-- How a request of mlx-gateway/nodeAgent.mjs reaches the handler of heartbeats of
-- dashboard/src/server.js: by its address, which names the dashboard, the route and the node.
use swiftlm_platform.Base.{
  ℕ, ◌≡◌, ◌≢◌, refl, ◌∙◌, ap, not, ◌&&◌, Option, none, some, List, [], ◌∷◌, ◌++◌, Text, codes, ◌==◌,
  eqb, is_empty, arith, if◌then◌else◌, text_discrete,
}
use swiftlm_platform.NodeAuth.{Host, Cache, Body}
use swiftlm_platform.Store.{Store}
use swiftlm_platform.Sessions.{cut_at}
use swiftlm_platform.Sessions.Splitting.{cut_at-append}
use swiftlm_platform.Server.{Config}
use swiftlm_platform.Server.Input.{safe_node_id}
use swiftlm_platform.Server.Input.Ids.{safe_node_id-whole}
use swiftlm_platform.Server.Enrollment.{Beat, heartbeat}
use swiftlm_platform.Agent.{AgentJson, Sent, lower_names, heartbeat_path}

-- What follows a prefix, if it is one.
unfoldable pub strip_prefix : Text → Text → Option Text
strip_prefix [] s = some s
strip_prefix (p ∷ ps) [] = none
strip_prefix (p ∷ ps) (c ∷ s) = let rest = strip_prefix ps s in if eqb p c then rest else none

abbrev named : Option (Text × Text) → Option Text
named none = none
named (some (id, rest)) = if (rest == codes "heartbeat") && not (is_empty id) then some id else none

abbrev id_in : Option Text → Option Text
id_in none = none
id_in (some rest) = named (cut_at b'/' rest)

-- The route `/api/node-agent/:id/heartbeat`. An id with a percent escape is not read.
unfoldable pub param_of : Text → Option Text
unfolding strip_prefix text_discrete
param_of path = id_in (strip_prefix (codes "/api/node-agent/") path)

abbrev beat_at : AgentJson → Sent → Text → Option Text → Option Beat
beat_at k sent path none = none
beat_at k sent path (some id) =
    if sent.method == codes "POST"
    then some (record {
      param = id;
      headers = lower_names sent.headers;
      method = sent.method;
      path = path;
      body = Body.json sent.body;
      agent_version = (k.read_beat sent.body).0;
      capabilities = (k.read_beat sent.body).1;
    })
    else none

abbrev beat_of : AgentJson → Sent → Option Text → Option Beat
beat_of k sent none = none
beat_of k sent (some path) = beat_at k sent path (param_of path)

-- What the handler at a dashboard of this address gets of a request, if it is for the dashboard and its
-- method and path are those of the handler's route. Node gives the names of headers in lower case.
unfoldable pub delivered : AgentJson → Text → Sent → Option Beat
unfolding param_of strip_prefix text_discrete
delivered k dashboard sent = beat_of k sent (strip_prefix dashboard sent.url)

-- The dashboard's answer: another request than a heartbeat is not found, for this handler.
unfoldable pub answer : Config → Host → Option Beat → ℕ → ℕ → Store → Cache → (Store × Cache) × ℕ
unfolding heartbeat
answer cfg h none checked_at now s seen = ((s, seen), 404)
answer cfg h (some b) checked_at now s seen = heartbeat cfg h b checked_at now s seen

strip_prefix-append : (p s : Text) → strip_prefix p (p ++ s) ≡ some s
unfolding strip_prefix
strip_prefix-append [] s = refl
strip_prefix-append (c ∷ p) s = ground (arith, strip_prefix-append p s)

param_of-heartbeat :
    (id : Text) → safe_node_id id ≡ id → id ≢ [] → param_of (heartbeat_path id) ≡ some id
unfolding param_of text_discrete
param_of-heartbeat id safe full =
    let cut = cut_at-append b'/' id (codes "heartbeat") (safe_node_id-whole id safe) in
    ap id_in (strip_prefix-append (codes "/api/node-agent/") (id ++ codes "/heartbeat"))
    ∙ ap named cut
    ∙ ground arith

-- A request to the route of a node at the dashboard's address reaches the handler, with that id and path.
pub delivered-heartbeat :
    (k : AgentJson) (dashboard id body : Text) (headers : List (Text × Text))
    → safe_node_id id ≡ id
    → id ≢ []
    → delivered k dashboard (record {
      url = dashboard ++ heartbeat_path id;
      method = codes "POST";
      headers = headers;
      body = body;
    })
      ≡ some (record {
        param = id;
        headers = lower_names headers;
        method = codes "POST";
        path = heartbeat_path id;
        body = Body.json body;
        agent_version = (k.read_beat body).0;
        capabilities = (k.read_beat body).1;
      })
unfolding delivered text_discrete
delivered-heartbeat k dashboard id body headers safe full =
    rw (strip_prefix-append dashboard (heartbeat_path id))
      (rw (param_of-heartbeat id safe full) refl)
