-- ===== src/Server/Enrollment/OneNode.antt =====
-- What an enrollment of dashboard/src/server.js leaves behind.
use swiftlm_platform.Base.{
  ℕ, ◌≡◌, refl, sym, ap, ◌∙◌, ◌⊎◌, inl, inr, Bool, true, false, not, ◌&&◌, ◌||◌, Option, none, some,
  List, [], ◌∷◌, ◌++◌, Text, ◌==◌, any, filter, update_where, arith, trim, codes, Bool-cases,
  starts_with,
}
use swiftlm_platform.Store.{
  Store, Node, EnrollmentToken, ok, err, Fault, has_node, NodeModel, unique, Outcome, Result-cases,
}
use swiftlm_platform.Store.Secrets.{Cipher, encrypt_node_key}
use swiftlm_platform.Store.Nodes.{
  Vault, NodeInput, create_node, insert_with_model, insert_node, insert_node_model, node_row,
  set_node_secret, public_columns,
}
use swiftlm_platform.Store.Tokens.{
  prune_expired_enrollment_tokens, peek_enrollment_token, consume_enrollment_token, can_consume,
}
use swiftlm_platform.Store.Deletion.{delete_node}
use swiftlm_platform.Store.Purge.{purge_row}
use swiftlm_platform.Server.{Config}
use swiftlm_platform.Server.Input.{Url, NodeBody, NodeFields, read_node}
use swiftlm_platform.Server.NodeRoutes.{node_input}
use swiftlm_platform.Server.Enrollment.{
  Draws, Reply, enroll, with_token, give_secret, claim_token, keep_or_undo, undo,
}
use swiftlm_platform.Server.Enrollment.OneToken.{is_enrolled, enroll-prefixed}

filter-append_new :
    (ns : List Node) (n : Node)
    → has_node n.id ns ≡ false
    → filter (λ m. not (m.id == n.id)) (ns ++ (n ∷ [])) ≡ ns
filter-append_new [] n h = ground arith
filter-append_new (m ∷ ms) n h = ground (arith, filter-append_new ms n)

update-append_new :
    (ns : List Node) (n : Node) (f : Node → Node)
    → has_node n.id ns ≡ false
    → update_where (λ m. m.id == n.id) f (ns ++ (n ∷ [])) ≡ ns ++ (f n ∷ [])
update-append_new [] n f h = ground arith
update-append_new (m ∷ ms) n f h = ground (arith, update-append_new ms n f)

-- The table has this one node more.
abbrev pub OneMore : List Node → Text → List Node → Type 0
OneMore ns id ms = (n : Node) × (n.id ≡ id) × (ms ≡ ns ++ (n ∷ []))

nodes-delete :
    (id : Text) (ns : List Node) (s : Store)
    → has_node id ns ≡ false
    → OneMore ns id s.nodes
    → (delete_node id true s).0.nodes ≡ ns
nodes-delete id ns s new (n, same, e) = rw (purge_row id s) (ground (arith, filter-append_new ns n))

abbrev pub AllOrNothing : List Node → Text → Store × Reply → Type 0
AllOrNothing ns id (s, r) = ((is_enrolled r ≡ true) × OneMore ns id s.nodes) ⊎ (s.nodes ≡ ns)

nodes-undo : (id : Text) (o : Outcome Bool) → (undo id o).0.nodes ≡ o.0.nodes
nodes-undo id (s, ok b) = refl
nodes-undo id (s, err e) = refl

keeps_or_undoes :
    (ns : List Node) (id secret : Text) (o : Outcome Bool) (b : Bool)
    → has_node id ns ≡ false
    → OneMore ns id o.0.nodes
    → o.1 ≡ ok b
    → AllOrNothing ns id (keep_or_undo id secret o)
keeps_or_undoes ns id secret (s, err e) b new more fine = cc
keeps_or_undoes ns id secret (s, ok true) b new more fine = inl (refl, more)
keeps_or_undoes ns id secret (s, ok false) b new more fine =
    inr (nodes-undo id (delete_node id true s) ∙ nodes-delete id ns s new more)

has_node-append : (ns : List Node) (n : Node) → has_node n.id (ns ++ (n ∷ [])) ≡ true
has_node-append [] n = ground arith
has_node-append (m ∷ ms) n = ground (arith, has_node-append ms n)

consume-fine :
    (digest : Text) (d : Draws) (ns : List Node) (s : Store)
    → OneMore ns d.node_id s.nodes
    → (b : Bool) × ((consume_enrollment_token digest d.node_id d.used_at d.consumed_at s).1 ≡ ok b)
      × ((consume_enrollment_token digest d.node_id d.used_at d.consumed_at s).0.nodes ≡ s.nodes)
unfolding consume_enrollment_token
consume-fine digest d ns s (n, same, e) = (
  any (can_consume digest d.consumed_at) s.enrollment_tokens,
  ground (arith, has_node-append ns n),
  ground arith,
)

claims :
    (digest : Text) (d : Draws) (ns : List Node) (o : Outcome Bool)
    → has_node d.node_id ns ≡ false
    → OneMore ns d.node_id o.0.nodes
    → o.1 ≡ ok true
    → AllOrNothing ns d.node_id (claim_token digest d o)
claims digest d ns (s, err e) new more fine = cc
claims digest d ns (s, ok c) new (n, same, e) fine =
    let (b, f, g) = consume-fine digest d ns s (n, same, e) in
    keeps_or_undoes ns d.node_id d.secret
      (consume_enrollment_token digest d.node_id d.used_at d.consumed_at s) b new (n, same, g ∙ e) f

encrypt_fine :
    (c : Cipher) (iv k secret : Text)
    → (x : Option Text) × (encrypt_node_key c iv (some secret) (some k) ≡ ok x)
unfolding encrypt_node_key
encrypt_fine c iv k [] = (none, refl)
encrypt_fine c iv k (x ∷ xs) = (_, refl)

secret_fine :
    (v : Vault) (k iv id secret : Text) (now : ℕ) (ns : List Node) (s : Store)
    → v.key ≡ some k
    → has_node id ns ≡ false
    → OneMore ns id s.nodes
    → ((set_node_secret v iv id secret now s).1 ≡ ok true)
      × OneMore ns id (set_node_secret v iv id secret now s).0.nodes
unfolding set_node_secret
secret_fine v k iv id secret now ns s key new (n, same, e) =
    let (sealed, q) = encrypt_fine v.cipher iv k secret in
    let f : Node → Node =
      λ m. record m { node_secret = sealed; enrolled_at = some now; updated_at = now } in
    let q' : encrypt_node_key v.cipher iv (some secret) v.key ≡ ok sealed =
      ap (encrypt_node_key v.cipher iv (some secret)) key ∙ q in
    (ground (arith, has_node-append ns n), (f n, same, ground (arith, update-append_new ns n f)))

gives :
    (cfg : Config) (digest k : Text) (d : Draws) (ns : List Node) (o : Outcome Node)
    → cfg.vault.key ≡ some k
    → has_node d.node_id ns ≡ false
    → ((f : Fault) × (o.1 ≡ err f) × (o.0.nodes ≡ ns))
      ⊎ ((m : Node) × (o.1 ≡ ok m) × OneMore ns d.node_id o.0.nodes)
    → AllOrNothing ns d.node_id (give_secret cfg digest d o)
gives cfg digest k d ns (s, err f) key new (inl (g, e, same)) = inr same
gives cfg digest k d ns (s, err f) key new (inr (m, e, more)) = cc
gives cfg digest k d ns (s, ok m) key new (inl (g, e, same)) = cc
gives cfg digest k d ns (s, ok m) key new (inr (m', e, more)) =
    let (fine, more') =
      secret_fine cfg.vault k d.secret_iv d.node_id d.secret d.enrolled_at ns s key new more in
    claims digest d ns (set_node_secret cfg.vault d.secret_iv d.node_id d.secret d.enrolled_at s)
      new more' fine

no_row :
    (row_id : Text) (i : NodeInput) (ms : List NodeModel)
    → any (λ m. (m.id == row_id) || (m.node_id == i.id)) ms ≡ false
    → any (λ m. (m.id == row_id) || ((m.node_id == i.id) && (m.model_id == i.model_id))) ms ≡ false
no_row row_id i [] h = refl
no_row row_id i (m ∷ ms) h = ground (arith, no_row row_id i ms)

-- Without a collision of the new identifiers, a creation throws before it changes anything.
creates :
    (v : Vault) (iv row_id : Text) (i : NodeInput) (now : ℕ) (s : Store)
    → has_node i.id s.nodes ≡ false
    → any (λ m. (m.id == row_id) || (m.node_id == i.id)) s.node_models ≡ false
    → ((f : Fault) × ((create_node v iv row_id i now s).1 ≡ err f)
        × ((create_node v iv row_id i now s).0.nodes ≡ s.nodes))
      ⊎ ((m : Node) × ((create_node v iv row_id i now s).1 ≡ ok m)
          × OneMore s.nodes i.id (create_node v iv row_id i now s).0.nodes)
unfolding create_node insert_with_model insert_node insert_node_model
creates v iv row_id i now s new fresh =
    elim (Result-cases (encrypt_node_key v.cipher iv i.upstream_api_key v.key)) [
      | inl (f, q) ↦ inl (f, ground arith, ground arith)
      | inr (sealed, q) ↦
          elim (Bool-cases
            (any (λ m. (m.id == i.id) || (m.origin_base_url == i.origin_base_url)) s.nodes)) [
              | inl taken ↦ inl (unique, ground arith, ground arith)
              | inr free ↦ inr (
                public_columns (node_row i sealed now),
                ground (
                  arith,
                  has_node-append s.nodes (node_row i sealed now),
                  no_row row_id i s.node_models fresh,
                ),
                (
                  node_row i sealed now,
                  refl,
                  ground (
                    arith,
                    has_node-append s.nodes (node_row i sealed now),
                    no_row row_id i s.node_models fresh,
                  ),
                ),
              )
            ]
    ]

with_token-AllOrNothing :
    (cfg : Config) (digest k : Text) (d : Draws) (r : Option NodeFields) (s : Store)
    (t : Option EnrollmentToken)
    → cfg.vault.key ≡ some k
    → has_node d.node_id s.nodes ≡ false
    → any (λ m. (m.id == d.row_id) || (m.node_id == d.node_id)) s.node_models ≡ false
    → AllOrNothing s.nodes d.node_id (with_token cfg digest d r s t)
with_token-AllOrNothing cfg digest k d r s none key new fresh = inr refl
with_token-AllOrNothing cfg digest k d none s (some t) key new fresh = inr (ground arith)
with_token-AllOrNothing cfg digest k d (some f) s (some t) key new fresh =
    let o = create_node cfg.vault d.key_iv d.row_id (node_input d.node_id f) d.created_at s in
    let all =
      gives cfg digest k d s.nodes o key new
        (creates cfg.vault d.key_iv d.row_id (node_input d.node_id f) d.created_at s new fresh) in
    ground arith

AllOrNothing-by :
    (ns : List Node) (id : Text) {a b : Store × Reply} (e : a ≡ b)
    → AllOrNothing ns id a
    → AllOrNothing ns id b
AllOrNothing-by ns id e h = rw (sym e) h

-- An enrollment is all or nothing for the table of nodes: it answers 201 and has added the one new
-- node, or it leaves the table as it was; so the loser of a race for a token leaves no node behind.
-- The server has its key for the stored credentials, and the new identifiers are in no row.
pub enrolls-AllOrNothing :
    (cfg : Config) (digest_of : Text → Text) (parse : Text → Option Url) (k token : Text)
    (body : NodeBody) (d : Draws) (s : Store)
    → cfg.vault.key ≡ some k
    → has_node d.node_id s.nodes ≡ false
    → any (λ m. (m.id == d.row_id) || (m.node_id == d.node_id)) s.node_models ≡ false
    → AllOrNothing s.nodes d.node_id (enroll cfg digest_of parse token body d s)
unfolding enroll prune_expired_enrollment_tokens
enrolls-AllOrNothing cfg digest_of parse k token body d s key new fresh =
    let digest = digest_of (trim token) in
    let s₁ = prune_expired_enrollment_tokens d.pruned_at s in
    elim (Bool-cases (starts_with (codes "enroll_") (trim token))) [
      | inl e ↦
          AllOrNothing-by s.nodes d.node_id
            (sym (enroll-prefixed cfg digest_of parse token body d s e))
            (with_token-AllOrNothing cfg digest k d (read_node parse (codes "none") body) s₁
              (peek_enrollment_token digest s₁) key new fresh)
      | inr e ↦ inr (ground arith)
    ]
