-- ===== src/Server/KeyRoutes/FreshKeys.antt =====
-- A key that POST /api/keys of dashboard/src/server.js hands out is one that `requireApiKey` takes.
use swiftlm_platform.Base.{
  ℕ, ◌≡◌, ◌≢◌, refl, inl, inr, true, false, ◌||◌, some, List, [], ◌∷◌, ◌++◌, Text, ◌==◌, any, find,
  arith, trim, codes, slice_to, or_else, Option-cases,
}
use swiftlm_platform.Store.{Store, Node, ApiKey, find_node}
use swiftlm_platform.Store.Nodes.{get_node, decrypted}
use swiftlm_platform.Store.Keys.{create_api_key, get_key_by_digest, key_row, KeyWithNode}
use swiftlm_platform.Server.{Config}
use swiftlm_platform.Server.KeyRoutes.{
  Issued, issue_key, require_api_key, resolve_enabled_node, chosen_node, granted,
}

find-append_fresh :
    (ks : List ApiKey) (k : ApiKey)
    → any (λ j. (j.id == k.id) || (j.digest == k.digest)) ks ≡ false
    → find (λ j. j.digest == k.digest) (ks ++ (k ∷ [])) ≡ some k
find-append_fresh [] k h = ground arith
find-append_fresh (j ∷ js) k h = ground (arith, find-append_fresh js k)

find_node-id : (id : Text) (ns : List Node) (n : Node) → find_node id ns ≡ some n → n.id ≡ id
find_node-id id [] n e = cc
find_node-id id (m ∷ ms) n e = ground (arith, find_node-id id ms n)

-- A status 201 needs an enabled node, and a row that is new.
issue_key-cases :
    (cfg : Config) (digest_of : Text → Text) (i : Issued) (name param : Text) (now : ℕ) (s : Store)
    → (issue_key cfg digest_of i name param now s).1 ≡ 201
    → (n : Node) × (find_node (chosen_node cfg param) s.nodes ≡ some n)
      × (n.enabled ≡ true)
      × (any (λ k. (k.id == i.id) || (k.digest == digest_of i.value)) s.api_keys ≡ false)
unfolding issue_key get_node create_api_key resolve_enabled_node
issue_key-cases cfg digest_of i name param now s h =
    elim (Option-cases (find_node (chosen_node cfg param) s.nodes)) [
      | inl e ↦ ground arith
      | inr (n, e) ↦ (n, e, ground arith, ground arith)
    ]

api_keys-issue_key :
    (cfg : Config) (digest_of : Text → Text) (i : Issued) (name param : Text) (now : ℕ) (s : Store)
    (n : Node)
    → (issue_key cfg digest_of i name param now s).1 ≡ 201
    → find_node (chosen_node cfg param) s.nodes ≡ some n
    → (issue_key cfg digest_of i name param now s).0 ≡ record s {
      api_keys =
          s.api_keys
          ++ (key_row i.id
                (slice_to 80 (trim (or_else name (codes "API Key"))))
                i.prefix
                (digest_of i.value)
                n.id
                now
              ∷ []);
    }
unfolding issue_key get_node create_api_key resolve_enabled_node
api_keys-issue_key cfg digest_of i name param now s n h e = ground arith

require_api_key-fresh :
    (cfg : Config) (digest_of : Text → Text) (i : Issued) (name : Text) (now later : ℕ) (s : Store)
    (id : Text) (n : Node)
    → find_node id s.nodes ≡ some n
    → n.enabled ≡ true
    → any (λ k. (k.id == i.id) || (k.digest == digest_of i.value)) s.api_keys ≡ false
    → i.value ≢ []
    → let row = key_row i.id name i.prefix (digest_of i.value) n.id now in
      (require_api_key cfg digest_of i.value later
        (record s { api_keys = s.api_keys ++ (row ∷ []) })).1
      ≡ granted (record { key = row; node = decrypted cfg.vault n })
unfolding require_api_key get_key_by_digest
require_api_key-fresh cfg digest_of i name now later s id n e on new ne = ground (
  arith,
  find-append_fresh s.api_keys (key_row i.id name i.prefix (digest_of i.value) n.id now) new,
  find_node-id id s.nodes n e,
)

-- A key that was handed out, with the status 201, lets its holder in from then on: the request gets
-- the key's row and the chosen node's, if nothing changed in between.
pub issued_key_is_granted :
    (cfg : Config) (digest_of : Text → Text) (i : Issued) (name param : Text) (now later : ℕ)
    (s : Store)
    → (issue_key cfg digest_of i name param now s).1 ≡ 201
    → i.value ≢ []
    → (j : KeyWithNode) × ((require_api_key cfg digest_of i.value later
          (issue_key cfg digest_of i name param now s).0).1
        ≡ granted j)
      × (j.key.id ≡ i.id)
      × (j.node.id ≡ chosen_node cfg param)
issued_key_is_granted cfg digest_of i name param now later s h ne =
    let (n, e, on, new) = issue_key-cases cfg digest_of i name param now s h in
    let row =
      key_row i.id (slice_to 80 (trim (or_else name (codes "API Key")))) i.prefix
        (digest_of i.value) n.id now in
    (
      record { key = row; node = decrypted cfg.vault n },
      rw (api_keys-issue_key cfg digest_of i name param now s n h e)
          (require_api_key-fresh cfg digest_of i _ now later s _ n e on new ne),
      refl,
      find_node-id (chosen_node cfg param) s.nodes n e,
    )
