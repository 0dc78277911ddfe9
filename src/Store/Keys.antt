-- ===== src/Store/Keys.antt =====
-- dashboard/src/db.js: the clients' API keys, of which the table `api_keys` holds digests.
use swiftlm_platform.Base.{
  ℕ, Bool, true, false, not, ◌||◌, Option, none, some, List, [], ◌∷◌, ◌++◌, Text, ◌==◌, any, find,
  update_where, if◌then◌else◌,
}
use swiftlm_platform.Store.{
  Store, Node, ApiKey, ok, err, unique, foreign_key, Outcome, has_node, find_node, coalesce,
}
use swiftlm_platform.Store.Nodes.{Vault, decrypted}

abbrev pub key_row : Text → Text → Text → Text → Text → ℕ → ApiKey
key_row id name prefix digest node_id now = record {
  id = id;
  name = name;
  prefix = prefix;
  digest = digest;
  node_id = some node_id;
  created_at = now;
  last_used_at = none;
  revoked_at = none;
}

unfoldable pub create_api_key : Text → Text → Text → Text → Text → ℕ → Store → Outcome (Unit {0})
create_api_key id name prefix digest node_id now s =
    if any (λ k. (k.id == id) || (k.digest == digest)) s.api_keys
    then (s, err unique)
    else if not (has_node node_id s.nodes)
    then (s, err foreign_key)
    else (
      record s { api_keys = s.api_keys ++ (key_row id name prefix digest node_id now ∷ []) },
      ok tt,
    )

-- A key with the node that it belongs to: the JOIN drops a key without a node.
pub record KeyWithNode : Type 0 where
  pub key : ApiKey
  pub node : Node

abbrev node_of : ApiKey → List Node → Option Node
node_of k nodes = elim k.node_id [ none ↦ none | some id ↦ find_node id nodes ]

abbrev join_key : List Node → Option ApiKey → Option KeyWithNode
join_key nodes none = none
join_key nodes (some k) = elim (node_of k nodes) [
  | none ↦ none
  | some n ↦ some (record { key = k; node = n })
]

unfoldable pub get_key_by_digest : Text → Store → Option KeyWithNode
get_key_by_digest digest s = join_key s.nodes (find (λ k. k.digest == digest) s.api_keys)

abbrev is_set : Option ℕ → Bool
is_set none = false
is_set (some t) = true

abbrev pub may_use : KeyWithNode → Bool
may_use j = not (is_set j.key.revoked_at || not j.node.enabled)

abbrev pub touch_key : Text → ℕ → Store → Store
touch_key id now s = record s {
  api_keys = update_where (λ k. k.id == id) (λ k. record k { last_used_at = some now }) s.api_keys;
}

abbrev admit : Vault → ℕ → Store → Option KeyWithNode → Store × Option KeyWithNode
admit v now s none = (s, none)
admit v now s (some j) =
    if may_use j
    then (touch_key j.key.id now s, some (record j { node = decrypted v j.node }))
    else (s, none)

-- A revoked key and a key of a disabled node are as good as none.
unfoldable pub authenticate_api_key : Vault → Text → ℕ → Store → Store × Option KeyWithNode
unfolding get_key_by_digest
authenticate_api_key v digest now s = admit v now s (get_key_by_digest digest s)

abbrev list_joined : List Node → List ApiKey → List KeyWithNode
list_joined nodes [] = []
list_joined nodes (k ∷ ks) = elim (node_of k nodes) [
  | none ↦ list_joined nodes ks
  | some n ↦ record { key = k; node = n } ∷ list_joined nodes ks
]

-- A revocation keeps the moment of the first one.
unfoldable pub revoke_api_key : Text → ℕ → Store → Store × Bool
revoke_api_key id now s = (
  record s {
    api_keys =
        update_where (λ k. k.id == id)
          (λ k. record k { revoked_at = coalesce k.revoked_at (some now) }) s.api_keys;
  },
  any (λ k. k.id == id) s.api_keys,
)
