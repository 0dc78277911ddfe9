-- ===== src/Store/Credentials.antt =====
-- How dashboard/src/db.js keeps a node's credentials: what is stored comes back, and what the
-- updates of a node leave alone.
use swiftlm_platform.Base.{
  ℕ, ◌≡◌, ◌≢◌, refl, Option, some, List, [], ◌∷◌, Text, ◌==◌, update_where, arith,
}
use swiftlm_platform.Store.{Store, Node, find_node, coalesce, or_null?}
use swiftlm_platform.Store.Secrets.{Cipher, IsToken, decrypt-encrypt}
use swiftlm_platform.Store.Nodes.{
  Vault, set_node_secret, record_heartbeat, get_node_for_proxy, decrypted,
}

find_update :
    (id : Text) (f : Node → Node) (ns : List Node) (n : Node)
    → ((m : Node) → (f m).id ≡ m.id)
    → find_node id ns ≡ some n
    → find_node id (update_where (λ m. m.id == id) f ns) ≡ some (f n)
find_update id f [] n same e = cc
find_update id f (m ∷ ms) n same e = ground (arith, same m, find_update id f ms n same)

find_update_other :
    (id other : Text) (f : Node → Node) (ns : List Node)
    → other ≢ id
    → ((m : Node) → (f m).id ≡ m.id)
    → find_node other (update_where (λ m. m.id == id) f ns) ≡ find_node other ns
find_update_other id other f [] ne same = refl
find_update_other id other f (m ∷ ms) ne same =
    ground (arith, same m, find_update_other id other f ms ne same)

-- A secret that is set, at the node's own row.
pub secret-found :
    (v : Vault) (key iv id secret : Text) (now : ℕ) (s : Store) (n : Node)
    → v.key ≡ some key
    → find_node id s.nodes ≡ some n
    → secret ≢ []
    → IsToken iv
    → IsToken (v.cipher.seal key iv secret).0
    → IsToken (v.cipher.seal key iv secret).1
    → v.cipher.unseal key iv (v.cipher.seal key iv secret).0 (v.cipher.seal key iv secret).1
      ≡ some secret
    → (m : Node) × (get_node_for_proxy v id (set_node_secret v iv id secret now s).0 ≡ some m)
      × (m.node_secret ≡ some secret)
unfolding set_node_secret get_node_for_proxy
secret-found v key iv id secret now s n has_key e ne i t x o =
    let (sealed, f, g) = decrypt-encrypt v.cipher iv key secret ne i t x o in
    let found =
      find_update id
        (λ m. record m { node_secret = some sealed; enrolled_at = some now; updated_at = now })
        s.nodes n (λ m. refl) e in
    (
      decrypted v
          (record n { node_secret = some sealed; enrolled_at = some now; updated_at = now }),
      grind arith,
      grind arith,
    )

-- A node's secret, once set, is what the proxy gets for that node: encrypted in the table and
-- decrypted under the same key. No other node's row changes.
pub get_node_for_proxy-set_node_secret :
    (c : Cipher) (key iv id other secret : Text) (now : ℕ) (s : Store) (n : Node)
    → find_node id s.nodes ≡ some n
    → other ≢ id
    → secret ≢ []
    → IsToken iv
    → IsToken (c.seal key iv secret).0
    → IsToken (c.seal key iv secret).1
    → c.unseal key iv (c.seal key iv secret).0 (c.seal key iv secret).1 ≡ some secret
    → let v : Vault = record { cipher = c; key = some key } in
      let s' = (set_node_secret v iv id secret now s).0 in
      ((m : Node) × (get_node_for_proxy v id s' ≡ some m)
        × (m.node_secret ≡ some secret)
        × (m.enrolled_at ≡ some now))
      × (find_node other s'.nodes ≡ find_node other s.nodes)
unfolding set_node_secret get_node_for_proxy
get_node_for_proxy-set_node_secret c key iv id other secret now s n e differs ne i t x o =
    let (sealed, f, g) = decrypt-encrypt c iv key secret ne i t x o in
    let found =
      find_update id
        (λ m. record m { node_secret = some sealed; enrolled_at = some now; updated_at = now })
        s.nodes n (λ m. refl) e in
    (
      (
        decrypted (record { cipher = c; key = some key })
            (record n { node_secret = some sealed; enrolled_at = some now; updated_at = now }),
        ground arith,
        g,
        refl,
      ),
      ground (
        arith,
        find_update_other id other
            (λ m. record m { node_secret = some sealed; enrolled_at = some now; updated_at = now })
            s.nodes differs (λ m. refl),
      ),
    )

-- A heartbeat stamps the node; a version or a description that it leaves out stays as it was.
pub record_heartbeat_keeps :
    (id : Text) (version capabilities : Option Text) (now : ℕ) (s : Store) (n : Node)
    → find_node id s.nodes ≡ some n
    → find_node id (record_heartbeat id version capabilities now s).0.nodes
      ≡ some (record n {
        last_heartbeat_at = some now;
        agent_version = coalesce (or_null? version) n.agent_version;
        capabilities = coalesce capabilities n.capabilities;
        updated_at = now;
      })
unfolding record_heartbeat
record_heartbeat_keeps id version capabilities now s n e = find_update id _ s.nodes n (λ m. refl) e
